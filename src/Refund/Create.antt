-- ===== src/Refund/Create.antt =====
-- `createRefund` of backend/src/refund/refund.service.ts.
use Prim.Native.String.{◌++◌ as str_append}
use paya.Prelude.{ℕ, ◌*◌, String, Bool, not, false, Option, none, some, [], ◌∷◌, str_eq, ◌&&◌}
use paya.Runtime.Action.{Action, bad_request, pure, throw_if, when, ◌>>=◌, ◌>>◌}
use paya.Runtime.Number.{Number, or_zero}
use paya.Refund.Types.{
  RefundStatus, RefundType, refund_created, Refund, RefundPolicy, CreateRefundDto, AuditField,
  Database, World,
}
use paya.Runtime.Text.{or_text}
use paya.Refund.State.{insert_refund, audit, get_merchant_policy}
use paya.Refund.Process.{process_refund}

-- `time` gives `new Date(s).getTime()`, which is NaN for a text that is no date.
module _ (num : Number) (time : String → num.Num) where
  open num use {Num, of_ℕ, sub, mul, div, max, lt, le}

  -- `daysSincePayment > policy.refundWindowDays`
  abbrev pub later_than : Num → Num → String → Bool
  later_than now window date = lt window (div (sub now (time date)) (of_ℕ (1000 * 60 * 60 * 24)))

  -- The check under `if (createRefundDto.paymentDate)`.
  unfoldable pub expired : Num → Num → Option String → Bool
  expired now window none = false
  expired now window (some date) = not (str_eq date "") && later_than now window date

module _ (num : Number) where
  open num use {Num, of_ℕ, sub, mul, div, max}

  -- Both arms of the conditional on `refundType` give the amount of the request.
  unfoldable pub refund_amount : CreateRefundDto Num → Num
  refund_amount dto = elim dto.refund_type [
    | RefundType.full ↦ or_zero num dto.partial_amount
    | RefundType.partial ↦ or_zero num dto.partial_amount
  ]

  unfoldable pub processing_fee : Num → RefundPolicy Num → Num
  processing_fee amount policy =
      max (div (mul amount policy.processing_fee_percentage) (of_ℕ 100)) policy.minimum_fee

  unfoldable pub new_refund : CreateRefundDto Num → String → String → RefundPolicy Num → Refund Num
  new_refund dto refund_id merchant_id policy =
      let fee = processing_fee (refund_amount dto) policy in
      record {
        refund_id = refund_id;
        payment_id = dto.payment_id;
        merchant_id = merchant_id;
        customer_id = or_text dto.customer_id "unknown";
        original_amount = or_zero num dto.partial_amount;
        refund_amount = refund_amount dto;
        refund_type = dto.refund_type;
        reason = dto.reason;
        reason_description = dto.reason_description;
        status = RefundStatus.pending;
        fee_amount = fee;
        net_amount = sub (refund_amount dto) fee;
        transaction_hash = none;
        failure_reason = none;
        processed_at = none;
        reversed_at = none;
      }

  -- `refundAmount <= policy.autoApproveThreshold && policy.autoProcess`
  unfoldable pub auto_approved : CreateRefundDto Num → RefundPolicy Num → Bool
  auto_approved dto policy =
      num.le (refund_amount dto) policy.auto_approve_threshold && policy.auto_process

-- What a call reads besides the tables: the results of `uuidv4()` for the policy, the refund and
-- the transaction, and the clock when the window is checked and when the refund is completed.
pub record Fresh (Num : Type 0) : Type 0 where
  pub policy_uuid : String
  pub refund_uuid : String
  pub transaction_uuid : String
  pub now : Num
  pub processed_at : ℕ

module _ {Num : Type 0} (db : Database Num) where
  -- The insert of the refund and its audit row.
  unfoldable pub record_refund : Refund Num → String → String → Action (World db) (Unit {0})
  record_refund refund performed_by performed_by_role = do
    insert_refund db refund
    audit db (record {
      refund_id = some refund.refund_id;
      dispute_id = none;
      action = refund_created;
      performed_by = performed_by;
      performed_by_role = performed_by_role;
      previous_state = [];
      new_state = AuditField.refund refund ∷ [];
      notes = str_append "Refund created for payment " refund.payment_id;
    })

  -- `await this.processRefund(…)`, whose result is dropped.
  unfoldable pub auto_process :
      Bool → String → String → String → Fresh Num → Action (World db) (Unit {0})
  auto_process approved refund_id by role fresh = when approved (
      process_refund db refund_id by role fresh.transaction_uuid fresh.processed_at >>= λ _.
      pure tt)

module _ (num : Number) (time : String → num.Num) (db : Database num.Num) where
  open num use {Num}

  unfoldable pub create_refund :
      CreateRefundDto Num → String → String → String → Fresh Num → Action (World db) (Refund Num)
  create_refund dto merchant_id performed_by performed_by_role fresh = do
    policy ← get_merchant_policy num db merchant_id fresh.policy_uuid
    throw_if (expired num time fresh.now policy.refund_window_days dto.payment_date)
        (bad_request "Refund window has expired")
    let refund_id = str_append "REF_" fresh.refund_uuid
    let refund = new_refund num dto refund_id merchant_id policy
    record_refund db refund performed_by performed_by_role
    auto_process db (auto_approved num dto policy) refund.refund_id performed_by performed_by_role
        fresh
    pure refund
