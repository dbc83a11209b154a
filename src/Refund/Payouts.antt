-- ===== src/Refund/Payouts.antt =====
-- How often a refund is completed: an audit row with REFUND_APPROVED is written for each completion.
use Prim.Native.String.{◌++◌ as str_append}
use paya.Prelude.{
  ℕ, ◌+◌, ◌≤◌, String, Bool, true, false, Option, none, some, List, [], ◌∷◌, ◌≡◌, arith, str_eq,
  str_eq_iff, Option-cases, inl, inr, if◌then◌else◌,
}
use paya.Runtime.Action.{Action, Result-cases}
use paya.Runtime.Number.{Number}
use paya.Refund.Types.{
  RefundStatus, same_status, AuditAction, refund_approved, Refund, RefundAudit, CreateRefundDto,
  CreateDisputeDto, UpdateDisputeDto, UploadEvidenceDto, Database, World,
}
use paya.Refund.State.{get_merchant_policy}
use paya.Refund.Process.{process_refund, fail_refund, reverse_refund}
use paya.Refund.Create.{
  Fresh, new_refund, auto_process, auto_approved, record_refund, create_refund,
}
use paya.Refund.Disputes.{create_dispute, update_dispute, count_evidence, upload_evidence}
use paya.Refund.Calls.{Call, forget, run, run_all}

-- 1 for an approval, by its action.
abbrev pub is_approval : AuditAction → Bool
is_approval refund_approved = true
is_approval _ = false

abbrev pub names : Option String → String → Bool
names none id = false
names (some i) id = str_eq i id

module _ {Num : Type 0} where
  -- The audit rows that tell that a refund was completed.
  abbrev pub completions : String → List (RefundAudit Num) → ℕ
  completions id [] = 0
  completions id (a ∷ rows) =
      let rest = completions id rows in
      if is_approval a.action then (if names a.refund_id id then 1 + rest else rest) else rest

  -- How often it can still be completed.
  abbrev pub left : Option (Refund Num) → ℕ
  left none = 1
  left (some r) = if same_status r.status RefundStatus.pending then 1 else 0

module _ {Num : Type 0} (db : Database Num) where
  abbrev pub bound : String → World db → ℕ
  bound j w = completions j w.audits + left (db.refunds.find_one j w.refunds)

  process-bound :
      (id by role uuid : String) (now : ℕ) (w : World db) (j : String)
      → bound j (process_refund db id by role uuid now w).1 ≤ bound j w
  unfolding process_refund
  process-bound id by role uuid now w j = elim (Option-cases (db.refunds.find_one id w.refunds)) [
    | inl lost ↦ ground arith
    | inr (r, found) ↦
        let processing : Refund Num = record r { status = RefundStatus.processing } in
        let completed : Refund Num = record processing {
          status = RefundStatus.completed;
          processed_at = some now;
          transaction_hash = some (str_append "TX_" uuid);
        } in
        ground (
          arith,
          db.refunds.key-find_one id r w.refunds found,
          str_eq_iff r.refund_id id,
          str_eq_iff r.refund_id j,
          db.refunds.find_one-save j processing w.refunds,
          db.refunds.find_one-save j completed (db.refunds.save processing w.refunds),
        )
  ]

  fail-bound :
      (id reason by role : String) (w : World db) (j : String)
      → bound j (fail_refund db id reason by role w).1 ≤ bound j w
  unfolding fail_refund
  fail-bound id reason by role w j = elim (Option-cases (db.refunds.find_one id w.refunds)) [
    | inl lost ↦ ground arith
    | inr (r, found) ↦ ground (
      arith,
      db.refunds.find_one-save j
          (record r { status = RefundStatus.failed; failure_reason = some reason }) w.refunds,
    )
  ]

  reverse-bound :
      (id by role : String) (now : ℕ) (w : World db) (j : String)
      → bound j (reverse_refund db id by role now w).1 ≤ bound j w
  unfolding reverse_refund
  reverse-bound id by role now w j = elim (Option-cases (db.refunds.find_one id w.refunds)) [
    | inl lost ↦ ground arith
    | inr (r, found) ↦ ground (
      arith,
      db.refunds.find_one-save j
          (record r { status = RefundStatus.reversed; reversed_at = some now }) w.refunds,
    )
  ]

  evidence-bound :
      (dto : UploadEvidenceDto) (by role uuid : String) (w : World db) (j : String)
      → bound j (upload_evidence db dto by role uuid w).1 ≡ bound j w
  unfolding upload_evidence count_evidence
  evidence-bound dto by role uuid w j = ground arith

  update-bound :
      (id : String) (dto : UpdateDisputeDto) (by role : String) (now : ℕ) (w : World db)
      (j : String)
      → bound j (update_dispute db id dto by role now w).1 ≡ bound j w
  unfolding update_dispute
  update-bound id dto by role now w j = ground arith

  auto-bound :
      (approved : Bool) (id by role : String) (fresh : Fresh Num) (w : World db) (j : String)
      → bound j (auto_process db approved id by role fresh w).1 ≤ bound j w
  unfolding auto_process
  auto-bound approved id by role fresh w j =
      ground (arith, process-bound id by role fresh.transaction_uuid fresh.processed_at w j)

  record-bound :
      (r : Refund Num) (by role : String) (w : World db) (j : String)
      → bound j (record_refund db r by role w).1 ≤ bound j w
  unfolding record_refund
  record-bound r by role w j = elim (Option-cases (db.refunds.insert r w.refunds)) [
    | inl refused ↦ ground arith
    | inr (t, done) ↦ ground (
      arith,
      db.refunds.insert-fresh r w.refunds t done,
      db.refunds.find_one-insert j r w.refunds t done,
      str_eq_iff r.refund_id j,
    )
  ]

module _ (num : Number) (time : String → num.Num) (add_days : ℕ → ℕ → ℕ)
    (db : Database num.Num) where
  open num use {Num}

  policy-bound :
      (merchant uuid : String) (w : World db) (j : String)
      → bound db j (get_merchant_policy num db merchant uuid w).1 ≡ bound db j w
  unfolding get_merchant_policy
  policy-bound merchant uuid w j = ground arith

  create-bound :
      (dto : CreateRefundDto Num) (merchant by role : String) (fresh : Fresh Num) (w : World db)
      (j : String)
      → bound db j (create_refund num time db dto merchant by role fresh w).1 ≤ bound db j w
  unfolding create_refund
  create-bound dto merchant by role fresh w j =
      let start = get_merchant_policy num db merchant fresh.policy_uuid w in
      elim (Result-cases start.0) [
        | inl (e, stopped) ↦ ground (arith, stopped, policy-bound merchant fresh.policy_uuid w j)
        | inr (p, found) ↦
            let r = new_refund num dto (str_append "REF_" fresh.refund_uuid) merchant p in
            ground (
              arith,
              found,
              policy-bound merchant fresh.policy_uuid w j,
              record-bound db r by role start.1 j,
              auto-bound db (auto_approved num dto p) r.refund_id by role fresh
                  (record_refund db r by role start.1).1 j,
            )
      ]

  dispute-bound :
      (dto : CreateDisputeDto Num) (merchant by role uuid policy_uuid : String) (now : ℕ)
      (w : World db) (j : String)
      → bound db j (create_dispute num add_days db dto merchant by role uuid policy_uuid now w).1
        ≡ bound db j w
  unfolding create_dispute
  dispute-bound dto merchant by role uuid policy_uuid now w j =
      ground (arith, policy-bound merchant policy_uuid w j)

  forget-bound :
      {A : Type 0} (m : Action (World db) A) (w : World db) (j : String)
      → bound db j (m w).1 ≤ bound db j w
      → bound db j (forget num time add_days db m w).1 ≤ bound db j w
  forget-bound m w j h = ground arith

  abbrev step : Call Num → World db → World db
  step c w = (run num time add_days db c w).1

  -- A request raises the number of completions of a refund by no more than it lowers the number
  -- that is left.
  run-bound : (c : Call Num) (w : World db) (j : String) → bound db j (step c w) ≤ bound db j w
  unfolding run
  run-bound (Call.create dto merchant by role fresh) w j =
      forget-bound (create_refund num time db dto merchant by role fresh) w j
        (create-bound dto merchant by role fresh w j)
  run-bound (Call.process id by role uuid now) w j =
      forget-bound (process_refund db id by role uuid now) w j
        (process-bound db id by role uuid now w j)
  run-bound (Call.fail id reason by role) w j =
      forget-bound (fail_refund db id reason by role) w j (fail-bound db id reason by role w j)
  run-bound (Call.reverse id by role now) w j =
      forget-bound (reverse_refund db id by role now) w j (reverse-bound db id by role now w j)
  run-bound (Call.open_dispute dto merchant by role uuid policy_uuid now) w j =
      forget-bound (create_dispute num add_days db dto merchant by role uuid policy_uuid now) w j
        (omega (arith, dispute-bound dto merchant by role uuid policy_uuid now w j))
  run-bound (Call.update id dto by role now) w j =
      forget-bound (update_dispute db id dto by role now) w j
        (omega (arith, update-bound db id dto by role now w j))
  run-bound (Call.upload dto by role uuid) w j =
      forget-bound (upload_evidence db dto by role uuid) w j
        (omega (arith, evidence-bound db dto by role uuid w j))

  run_all-bound :
      (cs : List (Call Num)) (w : World db) (j : String)
      → bound db j (run_all num time add_days db cs w) ≤ bound db j w
  unfolding run_all
  run_all-bound [] w j = omega arith
  run_all-bound (c ∷ cs) w j = omega (arith, run-bound c w j, run_all-bound cs (step c w) j)

  -- In any list of requests a refund is completed at most once: the audit rows that tell of its
  -- completion grow by at most one, and by none if the refund is stored at the start and is not
  -- PENDING.
  pub completions-le :
      (cs : List (Call Num)) (w : World db) (j : String)
      → completions j (run_all num time add_days db cs w).audits
        ≤ completions j w.audits + left (db.refunds.find_one j w.refunds)
  completions-le cs w j = omega (arith, run_all-bound cs w j)
