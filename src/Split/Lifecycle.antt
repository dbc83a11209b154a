-- ===== src/Split/Lifecycle.antt =====
-- `executeSplit`, `cancelSplit`, `retryFailedDistributions` and `getSplit` of
-- backend/src/payment-split/payment-split.service.ts.
use Prim.Native.String.{◌++◌ as str_append}
use paya.Prelude.{
  ℕ, ◌+◌, ◌-◌, not, ◌||◌, String, none, some, [], ◌∷◌, map, leb, str_eq, if◌then◌else◌,
}
use paya.Runtime.Action.{Action, bad_request, pure, throw_if, ◌>>=◌, ◌>>◌}
use paya.Split.Types.{
  SplitStatus, same_status, status_text, split_executed, split_cancelled, retry_initiated,
  Recipient, PaymentSplit, AuditField, Database, World,
}
use paya.Split.State.{get_split, save_split, audit}

module _ {Num : Type 0} where
  -- A failed recipient is reset to pending.
  unfoldable pub reset_failed : Recipient Num → Recipient Num
  reset_failed r =
      if same_status r.distribution_status SplitStatus.failed
      then record r { distribution_status = SplitStatus.pending }
      else r

module _ {Num : Type 0} (db : Database Num) where
  -- `split_id` and `executor` are the fields of the `ExecuteSplitDto`, `now` is `new Date()`.
  unfoldable pub execute_split :
      String → String → String → String → ℕ → Action (World db) (PaymentSplit Num)
  execute_split split_id executor performed_by performed_by_role now = do
    split ← get_split db split_id
    throw_if (not (same_status split.status SplitStatus.pending)) (
        bad_request (
          str_append "Split is not in PENDING status. Current status: " (status_text split.status)))
    throw_if (not (str_eq split.merchant_address executor))
        (bad_request "Only merchant can execute the split")
    let updated = record split { status = SplitStatus.executing; executed_at = some now }
    save_split db updated
    audit db (record {
      split_id = split.split_id;
      distribution_id = none;
      milestone_id = none;
      action = split_executed;
      performed_by = performed_by;
      performed_by_role = performed_by_role;
      old_state = AuditField.status split.status ∷ [];
      new_state = AuditField.status SplitStatus.executing ∷ AuditField.executed_at (some now) ∷ [];
    })
    pure updated

  unfoldable pub cancel_split : String → String → String → Action (World db) (PaymentSplit Num)
  cancel_split split_id canceller performed_by_role = do
    split ← get_split db split_id
    throw_if (not (str_eq split.merchant_address canceller))
        (bad_request "Only merchant can cancel the split")
    throw_if
        (same_status split.status SplitStatus.completed
          || same_status split.status SplitStatus.executing)
        (bad_request "Cannot cancel split in current status")
    let updated = record split { status = SplitStatus.cancelled }
    save_split db updated
    audit db (record {
      split_id = split_id;
      distribution_id = none;
      milestone_id = none;
      action = split_cancelled;
      performed_by = canceller;
      performed_by_role = performed_by_role;
      old_state = AuditField.status split.status ∷ [];
      new_state = AuditField.status SplitStatus.cancelled ∷ [];
    })
    pure updated

  unfoldable pub retry_failed_distributions :
      String → String → String → Action (World db) (PaymentSplit Num)
  retry_failed_distributions split_id retryer performed_by_role = do
    split ← get_split db split_id
    throw_if (not (str_eq split.merchant_address retryer))
        (bad_request "Only merchant can retry distributions")
    throw_if (leb split.max_retries split.retry_count) (bad_request "Max retries exceeded")
    let updated = record split {
      retry_count = split.retry_count + 1;
      status = SplitStatus.executing;
      recipients = map reset_failed split.recipients;
    }
    save_split db updated
    audit db (record {
      split_id = split_id;
      distribution_id = none;
      milestone_id = none;
      action = retry_initiated;
      performed_by = retryer;
      performed_by_role = performed_by_role;
      old_state = AuditField.retry_count (split.retry_count + 1 - 1) ∷ [];
      new_state =
          AuditField.retry_count (split.retry_count + 1)
          ∷ AuditField.status SplitStatus.executing
          ∷ [];
    })
    pure updated
