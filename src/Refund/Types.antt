-- ===== src/Refund/Types.antt =====
-- The entities and requests of backend/src/refund, over any type of amounts. The generated primary
-- keys, `createdAt`, `updatedAt`, columns that no handler writes and the `metadata` that is only
-- passed on are left out.
use paya.Prelude.{ℕ, Bool, String, Option, List, str_eq, ◌==◌}
use paya.Runtime.Repository.{Repository}

pub data RefundStatus : Type 0 where
  pending processing completed failed reversed : RefundStatus

pub data RefundReason : Type 0 where
  customer_request product_not_received product_defective wrong_item : RefundReason
  duplicate_payment fraudulent other : RefundReason

pub data RefundType : Type 0 where
  full partial : RefundType

pub data DisputeStatus : Type 0 where
  opened under_review evidence_required responding : DisputeStatus
  resolved closed won lost : DisputeStatus

pub data DisputeReason : Type 0 where
  product_not_received product_not_as_described unauthorized_transaction : DisputeReason
  duplicate_charge credit_not_processed other : DisputeReason

pub data EvidenceType : Type 0 where
  document image video text transaction_proof delivery_confirmation : EvidenceType
  communication other : EvidenceType

pub data AuditAction : Type 0 where
  refund_created refund_approved refund_processed refund_failed refund_reversed : AuditAction
  dispute_created dispute_updated dispute_resolved evidence_uploaded : AuditAction
  policy_updated fee_calculated : AuditAction

-- `===` on the members of an enum, by their position.
abbrev refund_rank : RefundStatus → ℕ
refund_rank RefundStatus.pending = 0
refund_rank RefundStatus.processing = 1
refund_rank RefundStatus.completed = 2
refund_rank RefundStatus.failed = 3
refund_rank RefundStatus.reversed = 4

abbrev pub same_status : RefundStatus → RefundStatus → Bool
same_status a b = refund_rank a == refund_rank b

pub record Refund (Num : Type 0) : Type 0 where
  pub refund_id : String
  pub payment_id : String
  pub merchant_id : String
  pub customer_id : String
  pub original_amount : Num
  pub refund_amount : Num
  pub refund_type : RefundType
  pub reason : RefundReason
  pub reason_description : Option String
  pub status : RefundStatus
  pub fee_amount : Num
  pub net_amount : Num
  pub transaction_hash : Option String
  pub failure_reason : Option String
  pub processed_at : Option ℕ
  pub reversed_at : Option ℕ

-- A JSON object: its keys, and the texts of their values.
abbrev pub Metadata : Type 0
Metadata = List (String × String)

pub record Dispute (Num : Type 0) : Type 0 where
  pub dispute_id : String
  pub payment_id : String
  pub refund_id : Option String
  pub merchant_id : String
  pub customer_id : String
  pub amount : Num
  pub reason : DisputeReason
  pub reason_description : Option String
  pub status : DisputeStatus
  pub evidence_count : ℕ
  pub due_date : ℕ
  pub resolved_at : Option ℕ
  pub resolution_notes : Option String
  pub chargeback_id : Option String
  pub metadata : Option Metadata

pub record RefundPolicy (Num : Type 0) : Type 0 where
  pub policy_id : String
  pub merchant_id : String
  pub refund_window_days : Num
  pub processing_fee_percentage : Num
  pub minimum_fee : Num
  pub auto_approve_threshold : Num
  pub dispute_response_days : ℕ
  pub chargeback_response_days : ℕ
  pub require_approval : Bool
  pub auto_process : Bool
  pub is_active : Bool

pub record Evidence : Type 0 where
  pub evidence_id : String
  pub dispute_id : String
  pub uploaded_by : String
  pub uploaded_by_role : String
  pub evidence_type : EvidenceType
  pub file_name : String
  pub file_url : String
  pub file_size : ℕ
  pub mime_type : Option String
  pub description : Option String
  pub is_public : Bool

-- A field of the JSON that an audit row keeps of the state before and after.
pub data AuditField (Num : Type 0) : Type 0 where
  refund : Refund Num → AuditField Num
  dispute : Dispute Num → AuditField Num
  status : RefundStatus → AuditField Num
  processed_at reversed_at : Option ℕ → AuditField Num
  transaction_hash failure_reason evidence_id file_name : String → AuditField Num

pub record RefundAudit (Num : Type 0) : Type 0 where
  pub refund_id : Option String
  pub dispute_id : Option String
  pub action : AuditAction
  pub performed_by : String
  pub performed_by_role : String
  pub previous_state : List (AuditField Num)
  pub new_state : List (AuditField Num)
  pub notes : String

pub record CreateRefundDto (Num : Type 0) : Type 0 where
  pub payment_id : String
  pub refund_type : RefundType
  pub partial_amount : Option Num
  pub reason : RefundReason
  pub reason_description : Option String
  pub customer_id : Option String
  pub payment_date : Option String

pub record CreateDisputeDto (Num : Type 0) : Type 0 where
  pub payment_id : String
  pub reason : DisputeReason
  pub reason_description : Option String
  pub customer_id : Option String
  pub refund_id : Option String
  pub amount : Option Num
  pub metadata : Option Metadata

pub record UpdateDisputeDto : Type 0 where
  pub status : Option DisputeStatus
  pub resolution_notes : Option String
  pub chargeback_id : Option String
  pub metadata : Option Metadata

pub record UploadEvidenceDto : Type 0 where
  pub dispute_id : String
  pub evidence_type : EvidenceType
  pub file_name : String
  pub file_url : String
  pub file_size : ℕ
  pub mime_type : Option String
  pub description : Option String
  pub is_public : Option Bool

-- The repositories of the service that rows are read from.
pub record Database (Num : Type 0) : Type 1 where
  pub refunds : Repository String (Refund Num) str_eq (λ r. r.refund_id)
  pub disputes : Repository String (Dispute Num) str_eq (λ d. d.dispute_id)
  pub policies : Repository String (RefundPolicy Num) str_eq (λ p. p.policy_id)
  pub evidence : Repository String Evidence str_eq (λ e. e.evidence_id)

-- What the service reads and writes: its tables, and the rows written to `refund_audit_trail`, the
-- newest first. The service only adds to the last.
pub record World {Num : Type 0} (db : Database Num) : Type 0 where
  pub refunds : db.refunds.Table
  pub disputes : db.disputes.Table
  pub policies : db.policies.Table
  pub evidence : db.evidence.Table
  pub audits : List (RefundAudit Num)
