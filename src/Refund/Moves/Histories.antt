-- ===== src/Refund/Moves/Histories.antt =====
-- How a stored refund may change over whole lists of requests.
use Prim.Native.String.{◌++◌ as str_append}
use paya.Prelude.{ℕ, String, Bool, List, [], ◌∷◌, ◌≡◌, arith, inl, inr, refl}
use paya.Runtime.Action.{Action, Result-cases}
use paya.Runtime.Number.{Number}
use paya.Refund.Types.{RefundStatus, Refund, CreateRefundDto, CreateDisputeDto, Database, World}
use paya.Refund.State.{get_merchant_policy}
use paya.Refund.Process.{process_refund, fail_refund, reverse_refund}
use paya.Refund.Create.{
  Fresh, new_refund, auto_process, auto_approved, record_refund, create_refund,
}
use paya.Refund.Disputes.{create_dispute}
use paya.Refund.Calls.{Call, forget, run, run_all}
use paya.Refund.Moves.{Kept, Kept-trans, Keeps, Keeps-refl}
use paya.Refund.Moves.Handlers.{
  process-Keeps, fail-Keeps, reverse-Keeps, auto-Keeps, record-Keeps, update-same, upload-same,
  same-Keeps,
}

module _ (num : Number) (time : String → num.Num) (add_days : ℕ → ℕ → ℕ)
    (db : Database num.Num) where
  open num use {Num}

  policy-same :
      (merchant uuid : String) (w : World db)
      → (get_merchant_policy num db merchant uuid w).1.refunds ≡ w.refunds
  unfolding get_merchant_policy
  policy-same merchant uuid w = ground arith

  dispute-same :
      (dto : CreateDisputeDto Num) (merchant by role uuid policy_uuid : String) (now : ℕ)
      (w : World db)
      → (create_dispute num add_days db dto merchant by role uuid policy_uuid now w).1.refunds
        ≡ w.refunds
  unfolding create_dispute
  dispute-same dto merchant by role uuid policy_uuid now w =
      ground (arith, policy-same merchant policy_uuid w)

  -- What `createRefund` does once it has a policy.
  stored-Keeps :
      (approved : Bool) (r : Refund Num) (by role : String) (fresh : Fresh Num) (w : World db)
      (j : String)
      → r.status ≡ RefundStatus.pending
      → Keeps db j w
          (auto_process db approved r.refund_id by role fresh (record_refund db r by role w).1).1
  stored-Keeps approved r by role fresh w j pending =
      let w1 = (record_refund db r by role w).1 in
      Kept-trans (db.refunds.find_one j w.refunds) (db.refunds.find_one j w1.refunds)
        (db.refunds.find_one j (auto_process db approved r.refund_id by role fresh w1).1.refunds)
        (record-Keeps db r by role w j pending)
        (auto-Keeps db approved r.refund_id by role fresh w1 j)

  create-Keeps :
      (dto : CreateRefundDto Num) (merchant by role : String) (fresh : Fresh Num) (w : World db)
      (j : String)
      → Keeps db j w (create_refund num time db dto merchant by role fresh w).1
  unfolding create_refund new_refund
  create-Keeps dto merchant by role fresh w j =
      let start = get_merchant_policy num db merchant fresh.policy_uuid w in
      elim (Result-cases start.0) [
        | inl (e, stopped) ↦
            ground (arith, stopped, policy-same merchant fresh.policy_uuid w, Keeps-refl db j w)
        | inr (p, found) ↦
            let r = new_refund num dto (str_append "REF_" fresh.refund_uuid) merchant p in
            ground (
              arith,
              found,
              policy-same merchant fresh.policy_uuid w,
              Keeps-refl db j w,
              record-Keeps db r by role start.1 j refl,
              stored-Keeps (auto_approved num dto p) r by role fresh start.1 j refl,
            )
      ]

  abbrev step : Call Num → World db → World db
  step c w = (run num time add_days db c w).1

  forget-Keeps :
      {A : Type 0} (m : Action (World db) A) (w : World db) (j : String)
      → Keeps db j w (m w).1
      → Keeps db j w (forget num time add_days db m w).1
  forget-Keeps m w j h = ground arith

  pub run-Keeps : (c : Call Num) (w : World db) (j : String) → Keeps db j w (step c w)
  unfolding run
  run-Keeps (Call.create dto merchant by role fresh) w j =
      forget-Keeps (create_refund num time db dto merchant by role fresh) w j
        (create-Keeps dto merchant by role fresh w j)
  run-Keeps (Call.process id by role uuid now) w j =
      forget-Keeps (process_refund db id by role uuid now) w j
        (process-Keeps db id by role uuid now w j)
  run-Keeps (Call.fail id reason by role) w j =
      forget-Keeps (fail_refund db id reason by role) w j (fail-Keeps db id reason by role w j)
  run-Keeps (Call.reverse id by role now) w j =
      forget-Keeps (reverse_refund db id by role now) w j (reverse-Keeps db id by role now w j)
  run-Keeps (Call.open_dispute dto merchant by role uuid policy_uuid now) w j =
      same-Keeps db j w (step (Call.open_dispute dto merchant by role uuid policy_uuid now) w)
        (ground (arith, dispute-same dto merchant by role uuid policy_uuid now w))
  run-Keeps (Call.update id dto by role now) w j =
      same-Keeps db j w (step (Call.update id dto by role now) w)
        (ground (arith, update-same db id dto by role now w))
  run-Keeps (Call.upload dto by role uuid) w j =
      same-Keeps db j w (step (Call.upload dto by role uuid) w)
        (ground (arith, upload-same db dto by role uuid w))

  -- After any list of requests, failed ones included, a stored refund is still stored, with its
  -- payment, merchant, customer, amount, fee and net amount. Its status has changed only as
  -- `may_become` allows: not back to PENDING, from COMPLETED only to REVERSED or FAILED, and never
  -- into PROCESSING, in which no request leaves a refund. A refund that is new is not PROCESSING.
  pub run_all-Keeps :
      (cs : List (Call Num)) (w : World db) (j : String)
      → Kept
          (db.refunds.find_one j w.refunds)
          (db.refunds.find_one j (run_all num time add_days db cs w).refunds)
  unfolding run_all
  run_all-Keeps [] w j = Keeps-refl db j w
  run_all-Keeps (c ∷ cs) w j =
      Kept-trans (db.refunds.find_one j w.refunds) (db.refunds.find_one j (step c w).refunds)
        (db.refunds.find_one j (run_all num time add_days db cs (step c w)).refunds)
        (run-Keeps c w j) (run_all-Keeps cs (step c w) j)
