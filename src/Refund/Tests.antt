-- ===== src/Refund/Tests.antt =====
-- The theorems on refunds and disputes at concrete tables, and runs of the service.
use paya.Prelude.{
  ℕ, ◌+◌, ◌≤◌, String, Option, none, some, true, false, List, [], ◌∷◌, ◌≡◌, refl, str_eq,
  str_eq_iff, if◌then◌else◌,
}
use paya.Runtime.Action.{ok}
use paya.Runtime.ListTable.{list_repository}
use paya.Runtime.WholeNumber.{whole_number}
use paya.Runtime.Text.{String-set}
use paya.Refund.Types
use paya.Refund.Types.{customer_request}
use paya.Refund.Process.{process_refund}
use paya.Refund.State.{get_merchant_policy}
use paya.Refund.Create.{
  Fresh, expired, new_refund, refund_amount, processing_fee, auto_approved, record_refund,
  auto_process, create_refund,
}
use paya.Refund.Calls.{Call, run_all}
use paya.Refund.Payouts.{completions, completions-le}
use paya.Refund.Moves.{Kept}
use paya.Refund.Moves.Histories.{run_all-Keeps}

abbrev Num : Type 0
Num = Option ℕ

refund_set : IsSet (Types.Refund Num)
refund_set = hlevel String-set

dispute_set : IsSet (Types.Dispute Num)
dispute_set = hlevel String-set

policy_set : IsSet (Types.RefundPolicy Num)
policy_set = hlevel String-set

evidence_set : IsSet Types.Evidence
evidence_set = hlevel String-set

abbrev db : Types.Database Num
db = record {
  refunds = list_repository str_eq str_eq_iff (λ r. r.refund_id) refund_set;
  disputes = list_repository str_eq str_eq_iff (λ d. d.dispute_id) dispute_set;
  policies = list_repository str_eq str_eq_iff (λ p. p.policy_id) policy_set;
  evidence = list_repository str_eq str_eq_iff (λ e. e.evidence_id) evidence_set;
}

-- Times in milliseconds; the one text that is a date is "day 1".
abbrev time : String → Num
time s = if str_eq s "day 1" then some 86400000 else none

abbrev add_days : ℕ → ℕ → ℕ
add_days d n = d + n

abbrev dto : Types.CreateRefundDto Num
dto = record {
  payment_id = "pay";
  refund_type = Types.RefundType.partial;
  partial_amount = some (some 80);
  reason = customer_request;
  reason_description = none;
  customer_id = none;
  payment_date = some "day 1";
}

abbrev policy : Types.RefundPolicy Num
policy = record {
  policy_id = "POL_1";
  merchant_id = "shop";
  refund_window_days = some 30;
  processing_fee_percentage = some 5;
  minimum_fee = some 1;
  auto_approve_threshold = some 100;
  dispute_response_days = 14;
  chargeback_response_days = 90;
  require_approval = false;
  auto_process = true;
  is_active = true;
}

abbrev fresh : Fresh Num
fresh = record {
  policy_uuid = "2";
  refund_uuid = "1";
  transaction_uuid = "9";
  now = some 172800000;
  processed_at = 172800001;
}

abbrev refund : Types.Refund Num
refund = record {
  refund_id = "REF_1";
  payment_id = "pay";
  merchant_id = "shop";
  customer_id = "unknown";
  original_amount = some 80;
  refund_amount = some 80;
  refund_type = Types.RefundType.partial;
  reason = customer_request;
  reason_description = none;
  status = Types.RefundStatus.pending;
  fee_amount = some 4;
  net_amount = some 76;
  transaction_hash = none;
  failure_reason = none;
  processed_at = none;
  reversed_at = none;
}

abbrev dispute : Types.Dispute Num
dispute = record {
  dispute_id = "DSP_1";
  payment_id = "pay";
  refund_id = none;
  merchant_id = "shop";
  customer_id = "unknown";
  amount = some 80;
  reason = Types.DisputeReason.other;
  reason_description = none;
  status = Types.DisputeStatus.won;
  evidence_count = 2;
  due_date = 14;
  resolved_at = some 7;
  resolution_notes = none;
  chargeback_id = none;
  metadata = some (("a", "1") ∷ []);
}

abbrev reopening : Types.UpdateDisputeDto
reopening = record {
  status = some Types.DisputeStatus.opened;
  resolution_notes = none;
  chargeback_id = none;
  metadata = some (("a", "2") ∷ ("b", "3") ∷ []);
}

abbrev upload : Types.UploadEvidenceDto
upload = record {
  dispute_id = "DSP_1";
  evidence_type = Types.EvidenceType.image;
  file_name = "receipt";
  file_url = "url";
  file_size = 12;
  mime_type = none;
  description = none;
  is_public = none;
}

abbrev empty : Types.World db
empty = record { refunds = []; disputes = []; policies = policy ∷ []; evidence = []; audits = [] }

abbrev stored : Types.World db
stored = record empty { refunds = refund ∷ []; disputes = dispute ∷ [] }

abbrev requests : List (Call Num)
requests =
    Call.create dto "shop" "ann" "merchant" fresh
    ∷ Call.process "REF_1" "ann" "merchant" "9" 5
    ∷ Call.reverse "REF_1" "ann" "merchant" 6
    ∷ []

completions-le_example :
    completions "REF_1" (run_all whole_number time add_days db requests empty).audits ≤ 0 + 1
completions-le_example = completions-le whole_number time add_days db requests empty "REF_1"

run_all-Keeps_example :
    Kept
      (some refund)
      (db.refunds.find_one "REF_1" (run_all whole_number time add_days db requests stored).refunds)
run_all-Keeps_example = run_all-Keeps whole_number time add_days db requests stored "REF_1"

abbrev reversed_refund : Types.Refund Num
reversed_refund = record refund {
  status = Types.RefundStatus.reversed;
  transaction_hash = some "TX_9";
  processed_at = some 5;
}

abbrev after_reversal : Types.World db
after_reversal = record empty { refunds = reversed_refund ∷ [] }

abbrev week_dto : Types.CreateRefundDto Num
week_dto = record dto { payment_date = some "2024-W05" }

-- The refund of the example is approved by the policy and completed at once.
create_completes :
    let (r, w') = create_refund whole_number time db dto "shop" "ann" "merchant" fresh empty in
    (r ≡ ok refund)
    × (db.refunds.find_one "REF_1" w'.refunds
        ≡ some (record refund {
          status = Types.RefundStatus.completed;
          processed_at = some 172800001;
          transaction_hash = some "TX_9";
        }))
unfolding create_refund get_merchant_policy expired new_refund refund_amount processing_fee
    auto_approved record_refund auto_process process_refund
create_completes = (refl, refl)
