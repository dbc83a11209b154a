-- ===== src/Split/Distribute.antt =====
-- `distributeToRecipient`, `confirmDistribution`, `failDistribution` and
-- `updateSplitCompletionStatus` of backend/src/payment-split/payment-split.service.ts.
use Prim.Native.String.{◌++◌ as str_append}
use paya.Prelude.{
  ℕ, ◌+◌, Bool, not, String, Option, none, some, [], ◌∷◌, leb, str_eq, find, update_first, every,
  any, if◌then◌else◌,
}
use paya.Runtime.Action.{Action, bad_request, pure, throw_if, or_throw, ◌>>=◌, ◌>>◌}
use paya.Runtime.Number.{Number}
use paya.Split.Types.{
  no_metadata, SplitStatus, same_status, status_text, distribution_started, distribution_completed,
  distribution_failed, Recipient, PaymentSplit, SplitDistribution, DistributeRecipientDto,
  AuditField, Database, World,
}
use paya.Split.State.{
  find_split, get_split, save_split, get_distribution, save_distribution, insert_distribution,
  audit,
}

module _ {Num : Type 0} where
  abbrev pub has_address : String → Recipient Num → Bool
  has_address address r = str_eq r.address address

  abbrev pub has_status : SplitStatus → Recipient Num → Bool
  has_status s r = same_status r.distribution_status s

  abbrev pub mark_recipient : String → SplitStatus → PaymentSplit Num → PaymentSplit Num
  mark_recipient address s split = record split {
    recipients =
        update_first (has_address address) (λ r. record r { distribution_status = s })
          split.recipients;
  }

  -- The assignments of `updateSplitCompletionStatus`; its `save` follows in the callers.
  unfoldable pub completion_status : ℕ → PaymentSplit Num → PaymentSplit Num
  completion_status now split =
      if every (has_status SplitStatus.completed) split.recipients
      then record split { status = SplitStatus.completed; completed_at = some now }
      else if any (has_status SplitStatus.failed) split.recipients
      then record split { status = SplitStatus.partially_completed }
      else split

  -- The assignments of `failDistribution` to the split.
  unfoldable pub count_failure : String → PaymentSplit Num → PaymentSplit Num
  count_failure address split =
      let marked = mark_recipient address SplitStatus.failed split in
      record marked {
        retry_count = split.retry_count + 1;
        status =
            if leb split.max_retries (split.retry_count + 1)
            then SplitStatus.failed
            else SplitStatus.partially_completed;
      }

module _ (num : Number) (db : Database num.Num) where
  open num use {Num, add}

  -- The split with `recipient.distributedAmount += amount` and the recipient's new status.
  unfoldable pub start_recipient : DistributeRecipientDto Num → PaymentSplit Num → PaymentSplit Num
  start_recipient dto split = record split {
    recipients =
        update_first (has_address dto.recipient_address)
          (λ r. record r {
            distributed_amount = add r.distributed_amount dto.amount;
            distribution_status = SplitStatus.executing;
          })
          split.recipients;
  }

  unfoldable pub new_distribution : DistributeRecipientDto Num → ℕ → SplitDistribution Num
  new_distribution dto now = record {
    distribution_id = dto.distribution_id;
    split_id = dto.split_id;
    recipient_address = dto.recipient_address;
    amount = dto.amount;
    transaction_hash = none;
    status = SplitStatus.executing;
    attempted_at = some now;
    completed_at = none;
    error_message = none;
    retry_count = 0;
    metadata = no_metadata;
  }

  unfoldable pub distribute_to_recipient :
      DistributeRecipientDto Num → String → String → ℕ → Action (World db) (SplitDistribution Num)
  unfolding start_recipient new_distribution
  distribute_to_recipient dto performed_by performed_by_role now = do
    split ← get_split db dto.split_id
    throw_if (not (same_status split.status SplitStatus.executing)) (
        bad_request (
          str_append "Split is not in EXECUTING status. Current status: "
            (status_text split.status)))
    recipient ←
        or_throw (find (has_address dto.recipient_address) split.recipients)
          (bad_request "Recipient not found in split")
    let distribution = new_distribution dto now
    insert_distribution db distribution
    save_split db (start_recipient dto split)
    audit db (record {
      split_id = dto.split_id;
      distribution_id = some dto.distribution_id;
      milestone_id = none;
      action = distribution_started;
      performed_by = performed_by;
      performed_by_role = performed_by_role;
      old_state = [];
      new_state = AuditField.distribution distribution ∷ [];
    })
    pure distribution

  -- The block under `if (split)` of `confirmDistribution`.
  unfoldable pub confirm_split :
      String → ℕ → Option (PaymentSplit Num) → Action (World db) (Unit {0})
  confirm_split address now none = pure tt
  confirm_split address now (some split) =
      save_split db (completion_status now (mark_recipient address SplitStatus.completed split))

  -- `now` and `later` are the two readings of the clock, the second for the split.
  unfoldable pub confirm_distribution :
      String → String → ℕ → ℕ → Action (World db) (SplitDistribution Num)
  unfolding confirm_split
  confirm_distribution distribution_id transaction_hash now later = do
    distribution ← get_distribution db distribution_id
    let updated = record distribution {
      transaction_hash = some transaction_hash;
      status = SplitStatus.completed;
      completed_at = some now;
    }
    save_distribution db updated
    found ← find_split db distribution.split_id
    confirm_split distribution.recipient_address later found
    audit db (record {
      split_id = distribution.split_id;
      distribution_id = some distribution_id;
      milestone_id = none;
      action = distribution_completed;
      performed_by = "system";
      performed_by_role = "payment_processor";
      old_state = AuditField.status distribution.status ∷ [];
      new_state =
          AuditField.status SplitStatus.completed
          ∷ AuditField.transaction_hash transaction_hash
          ∷ [];
    })
    pure updated

  -- The block under `if (split)` of `failDistribution`.
  unfoldable pub fail_split : String → Option (PaymentSplit Num) → Action (World db) (Unit {0})
  fail_split address none = pure tt
  fail_split address (some split) = save_split db (count_failure address split)

  unfoldable pub fail_distribution : String → String → Action (World db) (SplitDistribution Num)
  unfolding fail_split
  fail_distribution distribution_id error_message = do
    distribution ← get_distribution db distribution_id
    let updated = record distribution {
      status = SplitStatus.failed;
      error_message = some error_message;
      retry_count = distribution.retry_count + 1;
    }
    save_distribution db updated
    found ← find_split db distribution.split_id
    fail_split distribution.recipient_address found
    audit db (record {
      split_id = distribution.split_id;
      distribution_id = some distribution_id;
      milestone_id = none;
      action = distribution_failed;
      performed_by = "system";
      performed_by_role = "payment_processor";
      old_state = AuditField.status distribution.status ∷ [];
      new_state =
          AuditField.status SplitStatus.failed
          ∷ AuditField.error_message error_message
          ∷ AuditField.retry_count (distribution.retry_count + 1)
          ∷ [];
    })
    pure updated
