-- ===== src/Split/Refunds.antt =====
-- backend/src/payment-split/payment-split-refund.service.ts, on the tables of the split service.
-- `getRefundHistory` only reads the audit trail and is left out.
pub mod Outcomes
use Prim.Native.String.{◌++◌ as str_append}
use paya.Prelude.{
  ℕ, String, Bool, true, false, not, Option, none, some, List, [], ◌∷◌, map, any, str_eq, ◌||◌,
  if◌then◌else◌,
}
use paya.Runtime.Action.{Action, bad_request, pure, gets, throw_if, when, ◌>>=◌, ◌>>◌}
use paya.Runtime.Number.{Number, to_number}
use paya.Split.Types.{
  SplitStatus, SplitType, percentage, split_created, split_cancelled, distribution_failed,
  Recipient, RefundDistribution, PaymentSplit, SplitDistribution, AuditField, Database, World,
  same_status,
}
use paya.Split.State.{find_split, get_split, save_split, get_distribution, save_distribution, audit}

abbrev pub is_percentage : SplitType → Bool
is_percentage percentage = true
is_percentage _ = false

abbrev pub is_completed : SplitStatus → Bool
is_completed status = same_status status SplitStatus.completed

-- An element of `recipientRefunds`.
pub record RecipientRefund (Num : Type 0) : Type 0 where
  pub recipient_address : String
  pub original_amount : Num
  pub refundable_amount : Num
  pub distribution_status : SplitStatus

module _ {Num : Type 0} where
  abbrev pub is_failed_recipient : Recipient Num → Bool
  is_failed_recipient r = same_status r.distribution_status SplitStatus.failed

  abbrev pub of_split : String → SplitDistribution Num → Bool
  of_split id d = str_eq d.split_id id

module _ (num : Number) (db : Database num.Num) where
  open num use {Num, of_ℕ, add, mul, div, lt, le}

  -- `recipient.fixedAmount = (partialAmount * recipient.percentage) / 100`
  abbrev pub adjust : Num → Recipient Num → Recipient Num
  adjust partial r = record r {
    fixed_amount = some (div (mul partial (to_number num r.percentage)) (of_ℕ 100));
  }

  -- The split as it is saved. The total is replaced before `originalAmount` is read from it.
  abbrev pub partially_paid : Num → PaymentSplit Num → PaymentSplit Num
  partially_paid partial s = record s {
    recipients =
        if is_percentage s.split_type then map (adjust partial) s.recipients else s.recipients;
    total_amount = partial;
    metadata = record (s.metadata) {
      is_partial_payment = some true;
      original_amount = some partial;
    };
  }

  -- What follows the checks of `handlePartialPayment`.
  unfoldable pub reduce_split :
      PaymentSplit Num → Num → String → String → Action (World db) (PaymentSplit Num)
  reduce_split split partial performed_by performed_by_role = do
    let updated = partially_paid partial split
    save_split db updated
    audit db (record {
      split_id = split.split_id;
      distribution_id = none;
      milestone_id = none;
      action = split_created;
      performed_by = performed_by;
      performed_by_role = performed_by_role;
      old_state = AuditField.total_amount updated.total_amount ∷ [];
      new_state = AuditField.total_amount partial ∷ AuditField.is_partial_payment true ∷ [];
    })
    pure updated

  unfoldable pub handle_partial_payment :
      String → Num → String → String → Action (World db) (PaymentSplit Num)
  unfolding reduce_split
  handle_partial_payment split_id partial performed_by performed_by_role = do
    split ← get_split db split_id
    throw_if (not (same_status split.status SplitStatus.pending))
        (bad_request "Can only handle partial payments for pending splits")
    throw_if (le partial (of_ℕ 0) || lt split.total_amount partial)
        (bad_request "Invalid partial amount")
    reduce_split split partial performed_by performed_by_role

  -- The loop of `refundCompletedSplit`.
  unfoldable pub clawbacks :
      Num → Num → List (SplitDistribution Num) → List (RefundDistribution Num)
  clawbacks amount total [] = []
  clawbacks amount total (d ∷ ds) =
      let rest = clawbacks amount total ds in
      if is_completed d.status
      then record {
        distribution_id = d.distribution_id;
        recipient_address = d.recipient_address;
        original_amount = d.amount;
        refund_amount = div (mul amount d.amount) total;
        status = "PENDING_CLAWBACK";
      }
        ∷ rest
      else rest

  abbrev pub distributions_of : String → Action (World db) (List (SplitDistribution Num))
  distributions_of id = gets (λ w. db.distributions.find_by (of_split id) w.distributions)

  abbrev pub clawed_back :
      Num → String → List (RefundDistribution Num) → ℕ → PaymentSplit Num → PaymentSplit Num
  clawed_back amount reason refunds now s = record s {
    metadata = record (s.metadata) {
      refund_amount = some amount;
      refund_reason = some reason;
      refund_distributions = some refunds;
      refund_status = some "PENDING_MANUAL_PROCESSING";
      refunded_at = some now;
    };
  }

  unfoldable pub refund_completed_split :
      PaymentSplit Num → Num → String → String → String → ℕ → Action (World db) (PaymentSplit Num)
  unfolding clawbacks
  refund_completed_split split amount reason performed_by performed_by_role now = do
    distributions ← distributions_of split.split_id
    let refunds = clawbacks amount split.total_amount distributions
    let updated = clawed_back amount reason refunds now split
    save_split db updated
    audit db (record {
      split_id = split.split_id;
      distribution_id = none;
      milestone_id = none;
      action = split_cancelled;
      performed_by = performed_by;
      performed_by_role = performed_by_role;
      old_state = AuditField.status updated.status ∷ [];
      new_state =
          AuditField.refund_amount amount
          ∷ AuditField.reason reason
          ∷ AuditField.refund_distributions refunds
          ∷ [];
    })
    pure updated

  abbrev pub cancelled_by_refund : Num → String → ℕ → PaymentSplit Num → PaymentSplit Num
  cancelled_by_refund amount reason now s = record s {
    status = SplitStatus.cancelled;
    metadata = record (s.metadata) {
      refund_amount = some amount;
      refund_reason = some reason;
      refunded_at = some now;
    };
  }

  -- The rest of `refundSplit`, for a split that is neither cancelled nor completed.
  unfoldable pub refund_open_split :
      PaymentSplit Num → Num → String → String → String → ℕ → Action (World db) (PaymentSplit Num)
  refund_open_split split amount reason performed_by performed_by_role now = do
    let updated = cancelled_by_refund amount reason now split
    save_split db updated
    audit db (record {
      split_id = split.split_id;
      distribution_id = none;
      milestone_id = none;
      action = split_cancelled;
      performed_by = performed_by;
      performed_by_role = performed_by_role;
      old_state = AuditField.status split.status ∷ [];
      new_state =
          AuditField.status updated.status
          ∷ AuditField.refund_amount amount
          ∷ AuditField.reason reason
          ∷ [];
    })
    pure updated

  unfoldable pub refund_split :
      String → Num → String → String → String → ℕ → Action (World db) (PaymentSplit Num)
  unfolding refund_completed_split refund_open_split
  refund_split split_id amount reason performed_by performed_by_role now = do
    split ← get_split db split_id
    throw_if (same_status split.status SplitStatus.cancelled)
        (bad_request "Cannot refund a cancelled split")
    (if is_completed split.status
        then refund_completed_split split amount reason performed_by performed_by_role now
        else refund_open_split split amount reason performed_by performed_by_role now)

  abbrev pub refunded_distribution :
      Num → String → ℕ → SplitDistribution Num → SplitDistribution Num
  refunded_distribution amount reason now d = record d {
    status = SplitStatus.failed;
    error_message = some (str_append "Refunded: " reason);
    metadata = record (d.metadata) {
      refund_amount = some amount;
      refund_reason = some reason;
      refunded_at = some now;
    };
  }

  -- `if (split) { … }`
  unfoldable pub degrade : Option (PaymentSplit Num) → Action (World db) (Unit {0})
  degrade none = pure tt
  degrade (some s) =
      when (any is_failed_recipient s.recipients)
        (save_split db (record s { status = SplitStatus.partially_completed }))

  -- What follows the checks of `refundSpecificDistribution`.
  unfoldable pub refund_distribution :
      SplitDistribution Num
      → Num
      → String
      → String
      → String
      → ℕ
      → Action (World db) (SplitDistribution Num)
  unfolding degrade
  refund_distribution d amount reason performed_by performed_by_role now = do
    let updated = refunded_distribution amount reason now d
    save_distribution db updated
    split ← find_split db d.split_id
    degrade split
    audit db (record {
      split_id = d.split_id;
      distribution_id = some d.distribution_id;
      milestone_id = none;
      action = distribution_failed;
      performed_by = performed_by;
      performed_by_role = performed_by_role;
      old_state = AuditField.status d.status ∷ [];
      new_state =
          AuditField.status updated.status
          ∷ AuditField.refund_amount amount
          ∷ AuditField.reason reason
          ∷ [];
    })
    pure updated

  unfoldable pub refund_specific_distribution :
      String → Num → String → String → String → ℕ → Action (World db) (SplitDistribution Num)
  unfolding refund_distribution
  refund_specific_distribution distribution_id amount reason performed_by performed_by_role now = do
    d ← get_distribution db distribution_id
    throw_if (not (is_completed d.status)) (bad_request "Can only refund completed distributions")
    throw_if (lt d.amount amount) (bad_request "Refund amount cannot exceed distribution amount")
    refund_distribution d amount reason performed_by performed_by_role now

  -- The loop of `calculateRefundAmounts`, from the total so far.
  unfoldable pub refundable : Num → List (SplitDistribution Num) → Num × List (RecipientRefund Num)
  refundable total [] = (total, [])
  refundable total (d ∷ ds) =
      let entry : Num → RecipientRefund Num = λ amount. record {
        recipient_address = d.recipient_address;
        original_amount = d.amount;
        refundable_amount = amount;
        distribution_status = d.status;
      } in
      let next = if is_completed d.status then add total d.amount else total in
      let (sum, rest) = refundable next ds in
      (
        sum,
        if is_completed d.status
            then entry d.amount ∷ rest
            else (if same_status d.status SplitStatus.executing
                then entry (of_ℕ 0) ∷ rest
                else rest),
      )

  unfoldable pub calculate_refund_amounts :
      String → Action (World db) (Num × List (RecipientRefund Num))
  unfolding refundable
  calculate_refund_amounts split_id = do
    split ← get_split db split_id
    distributions ← distributions_of split_id
    pure (refundable (of_ℕ 0) distributions)
