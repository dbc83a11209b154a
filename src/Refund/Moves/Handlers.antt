-- ===== src/Refund/Moves/Handlers.antt =====
-- What each handler of `RefundService` does to the stored refunds.
use Prim.Native.String.{◌++◌ as str_append}
use paya.Prelude.{ℕ, String, Bool, some, ◌≡◌, arith, str_eq_iff, Option-cases, inl, inr}
use paya.Refund.Types.{RefundStatus, Refund, UpdateDisputeDto, UploadEvidenceDto, Database, World}
use paya.Refund.Process.{process_refund, fail_refund, reverse_refund}
use paya.Refund.Create.{Fresh, auto_process, record_refund}
use paya.Refund.Disputes.{update_dispute, count_evidence, upload_evidence}
use paya.Refund.Moves.{Keeps, Keeps-refl, save-Kept}

module _ {Num : Type 0} (db : Database Num) where
  pub process-Keeps :
      (id by role uuid : String) (now : ℕ) (w : World db) (j : String)
      → Keeps db j w (process_refund db id by role uuid now w).1
  unfolding process_refund
  process-Keeps id by role uuid now w j = elim (Option-cases (db.refunds.find_one id w.refunds)) [
    | inl lost ↦ ground (arith, Keeps-refl db j w)
    | inr (r, found) ↦
        let processing : Refund Num = record r { status = RefundStatus.processing } in
        let completed : Refund Num = record processing {
          status = RefundStatus.completed;
          processed_at = some now;
          transaction_hash = some (str_append "TX_" uuid);
        } in
        ground (
          arith,
          Keeps-refl db j w,
          db.refunds.key-find_one id r w.refunds found,
          str_eq_iff r.refund_id id,
          str_eq_iff r.refund_id j,
          db.refunds.find_one-save j processing w.refunds,
          db.refunds.find_one-save j completed (db.refunds.save processing w.refunds),
        )
  ]

  pub fail-Keeps :
      (id reason by role : String) (w : World db) (j : String)
      → Keeps db j w (fail_refund db id reason by role w).1
  unfolding fail_refund
  fail-Keeps id reason by role w j = elim (Option-cases (db.refunds.find_one id w.refunds)) [
    | inl lost ↦ ground (arith, Keeps-refl db j w)
    | inr (r, found) ↦ ground (
      arith,
      save-Kept db id j r (record r { status = RefundStatus.failed; failure_reason = some reason })
          w.refunds found,
    )
  ]

  pub reverse-Keeps :
      (id by role : String) (now : ℕ) (w : World db) (j : String)
      → Keeps db j w (reverse_refund db id by role now w).1
  unfolding reverse_refund
  reverse-Keeps id by role now w j = elim (Option-cases (db.refunds.find_one id w.refunds)) [
    | inl lost ↦ ground (arith, Keeps-refl db j w)
    | inr (r, found) ↦ ground (
      arith,
      Keeps-refl db j w,
      save-Kept db id j r (record r { status = RefundStatus.reversed; reversed_at = some now })
          w.refunds found,
    )
  ]

  pub auto-Keeps :
      (approved : Bool) (id by role : String) (fresh : Fresh Num) (w : World db) (j : String)
      → Keeps db j w (auto_process db approved id by role fresh w).1
  unfolding auto_process
  auto-Keeps approved id by role fresh w j = ground (
    arith,
    Keeps-refl db j w,
    process-Keeps id by role fresh.transaction_uuid fresh.processed_at w j,
  )

  pub record-Keeps :
      (r : Refund Num) (by role : String) (w : World db) (j : String)
      → r.status ≡ RefundStatus.pending
      → Keeps db j w (record_refund db r by role w).1
  unfolding record_refund
  record-Keeps r by role w j pending = elim (Option-cases (db.refunds.insert r w.refunds)) [
    | inl refused ↦ ground (arith, Keeps-refl db j w)
    | inr (t, done) ↦ ground (
      arith,
      pending,
      Keeps-refl db j w,
      db.refunds.insert-fresh r w.refunds t done,
      db.refunds.find_one-insert j r w.refunds t done,
      str_eq_iff r.refund_id j,
    )
  ]

  pub update-same :
      (id : String) (dto : UpdateDisputeDto) (by role : String) (now : ℕ) (w : World db)
      → (update_dispute db id dto by role now w).1.refunds ≡ w.refunds
  unfolding update_dispute
  update-same id dto by role now w = ground arith

  pub upload-same :
      (dto : UploadEvidenceDto) (by role uuid : String) (w : World db)
      → (upload_evidence db dto by role uuid w).1.refunds ≡ w.refunds
  unfolding upload_evidence count_evidence
  upload-same dto by role uuid w = ground arith

  pub same-Keeps : (j : String) (w w' : World db) → w'.refunds ≡ w.refunds → Keeps db j w w'
  same-Keeps j w w' e = rw e (Keeps-refl db j w)
