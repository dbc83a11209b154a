-- ===== src/Refund/Process.antt =====
-- `processRefund`, `failRefund` and `reverseRefund` of backend/src/refund/refund.service.ts.
use Prim.Native.String.{◌++◌ as str_append}
use paya.Prelude.{ℕ, String, not, none, some, [], ◌∷◌}
use paya.Runtime.Action.{Action, bad_request, pure, throw_if, ◌>>=◌, ◌>>◌}
use paya.Refund.Types.{
  RefundStatus, same_status, refund_processed, refund_approved, refund_failed, refund_reversed,
  Refund, AuditField, Database, World,
}
use paya.Refund.State.{get_refund, save_refund, audit}

module _ {Num : Type 0} (db : Database Num) where
  -- `uuid` is what `uuidv4()` returns, `now` is `new Date()`.
  unfoldable pub process_refund :
      String → String → String → String → ℕ → Action (World db) (Refund Num)
  process_refund refund_id performed_by performed_by_role uuid now = do
    refund ← get_refund db refund_id
    throw_if (not (same_status refund.status RefundStatus.pending))
        (bad_request "Refund is not in pending state")
    let transaction_hash = str_append "TX_" uuid
    let processing = record refund { status = RefundStatus.processing }
    save_refund db processing
    audit db (record {
      refund_id = some refund.refund_id;
      dispute_id = none;
      action = refund_processed;
      performed_by = performed_by;
      performed_by_role = performed_by_role;
      previous_state = AuditField.status RefundStatus.pending ∷ [];
      new_state =
          AuditField.status RefundStatus.processing
          ∷ AuditField.transaction_hash transaction_hash
          ∷ [];
      notes = "Refund submitted for processing";
    })
    let completed = record processing {
      status = RefundStatus.completed;
      processed_at = some now;
      transaction_hash = some transaction_hash;
    }
    save_refund db completed
    audit db (record {
      refund_id = some refund.refund_id;
      dispute_id = none;
      action = refund_approved;
      performed_by = performed_by;
      performed_by_role = performed_by_role;
      previous_state = AuditField.status RefundStatus.processing ∷ [];
      new_state =
          AuditField.status RefundStatus.completed ∷ AuditField.processed_at (some now) ∷ [];
      notes = "Refund completed successfully";
    })
    pure completed

  unfoldable pub fail_refund : String → String → String → String → Action (World db) (Refund Num)
  fail_refund refund_id failure_reason performed_by performed_by_role = do
    refund ← get_refund db refund_id
    let updated = record refund {
      status = RefundStatus.failed;
      failure_reason = some failure_reason;
    }
    save_refund db updated
    audit db (record {
      refund_id = some refund.refund_id;
      dispute_id = none;
      action = refund_failed;
      performed_by = performed_by;
      performed_by_role = performed_by_role;
      previous_state = AuditField.status refund.status ∷ [];
      new_state =
          AuditField.status RefundStatus.failed ∷ AuditField.failure_reason failure_reason ∷ [];
      notes = str_append "Refund failed: " failure_reason;
    })
    pure updated

  unfoldable pub reverse_refund : String → String → String → ℕ → Action (World db) (Refund Num)
  reverse_refund refund_id performed_by performed_by_role now = do
    refund ← get_refund db refund_id
    throw_if (not (same_status refund.status RefundStatus.completed))
        (bad_request "Only completed refunds can be reversed")
    let updated = record refund { status = RefundStatus.reversed; reversed_at = some now }
    save_refund db updated
    audit db (record {
      refund_id = some refund.refund_id;
      dispute_id = none;
      action = refund_reversed;
      performed_by = performed_by;
      performed_by_role = performed_by_role;
      previous_state = AuditField.status refund.status ∷ [];
      new_state = AuditField.status RefundStatus.reversed ∷ AuditField.reversed_at (some now) ∷ [];
      notes = "Refund reversed";
    })
    pure updated
