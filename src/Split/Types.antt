-- ===== src/Split/Types.antt =====
-- The entities of backend/src/payment-split/entities, over any type of amounts. The generated
-- primary keys, `createdAt` and `updatedAt` are left out.
use paya.Prelude.{ℕ, Bool, String, Option, none, List, [], str_eq, ◌==◌, ◌&&◌}
use paya.Runtime.Repository.{Repository}

pub data SplitStatus : Type 0 where
  pending executing completed partially_completed failed cancelled : SplitStatus

pub data SplitType : Type 0 where
  percentage fixed_amount milestone : SplitType

pub data MilestoneStatus : Type 0 where
  pending triggered completed skipped : MilestoneStatus

-- `===` on the members of an enum, by their position.
abbrev split_rank : SplitStatus → ℕ
split_rank SplitStatus.pending = 0
split_rank SplitStatus.executing = 1
split_rank SplitStatus.completed = 2
split_rank SplitStatus.partially_completed = 3
split_rank SplitStatus.failed = 4
split_rank SplitStatus.cancelled = 5

-- The value of a member, as the messages quote it.
abbrev pub status_text : SplitStatus → String
status_text SplitStatus.pending = "PENDING"
status_text SplitStatus.executing = "EXECUTING"
status_text SplitStatus.completed = "COMPLETED"
status_text SplitStatus.partially_completed = "PARTIALLY_COMPLETED"
status_text SplitStatus.failed = "FAILED"
status_text SplitStatus.cancelled = "CANCELLED"

abbrev pub milestone_status_text : MilestoneStatus → String
milestone_status_text MilestoneStatus.pending = "PENDING"
milestone_status_text MilestoneStatus.triggered = "TRIGGERED"
milestone_status_text MilestoneStatus.completed = "COMPLETED"
milestone_status_text MilestoneStatus.skipped = "SKIPPED"

abbrev milestone_rank : MilestoneStatus → ℕ
milestone_rank MilestoneStatus.pending = 0
milestone_rank MilestoneStatus.triggered = 1
milestone_rank MilestoneStatus.completed = 2
milestone_rank MilestoneStatus.skipped = 3

abbrev pub same_status : SplitStatus → SplitStatus → Bool
same_status a b = split_rank a == split_rank b

abbrev pub same_milestone_status : MilestoneStatus → MilestoneStatus → Bool
same_milestone_status a b = milestone_rank a == milestone_rank b

pub data SplitAuditAction : Type 0 where
  split_created split_executed split_cancelled : SplitAuditAction
  distribution_started distribution_completed distribution_failed : SplitAuditAction
  milestone_triggered milestone_completed retry_initiated config_updated : SplitAuditAction

-- An element of `recipients` as the request gives it.
pub record RecipientDto (Num : Type 0) : Type 0 where
  pub address : String
  pub percentage : Option Num
  pub fixed_amount : Option Num
  pub split_type : SplitType

-- An element of the `recipients` column.
pub record Recipient (Num : Type 0) : Type 0 where
  pub address : String
  pub percentage : Option Num
  pub fixed_amount : Option Num
  pub split_type : SplitType
  pub distributed_amount : Num
  pub distribution_status : SplitStatus

-- An element of `refundDistributions`.
pub record RefundDistribution (Num : Type 0) : Type 0 where
  pub distribution_id : String
  pub recipient_address : String
  pub original_amount : Num
  pub refund_amount : Num
  pub status : String

-- The `metadata` column: the keys that the refunds write, and the others as texts.
pub record Metadata (Num : Type 0) : Type 0 where
  pub others : List (String × String)
  pub is_partial_payment : Option Bool
  pub original_amount : Option Num
  pub refund_amount : Option Num
  pub refund_reason : Option String
  pub refund_distributions : Option (List (RefundDistribution Num))
  pub refund_status : Option String
  pub refunded_at : Option ℕ

abbrev pub no_metadata : {Num : Type 0} → Metadata Num
no_metadata = record {
  others = [];
  is_partial_payment = none;
  original_amount = none;
  refund_amount = none;
  refund_reason = none;
  refund_distributions = none;
  refund_status = none;
  refunded_at = none;
}

pub record PaymentSplit (Num : Type 0) : Type 0 where
  pub split_id : String
  pub payment_id : String
  pub merchant_address : String
  pub total_amount : Num
  pub currency : String
  pub split_type : SplitType
  pub status : SplitStatus
  pub recipients : List (Recipient Num)
  pub retry_count : ℕ
  pub max_retries : ℕ
  pub executed_at : Option ℕ
  pub completed_at : Option ℕ
  pub metadata : Metadata Num

pub record SplitDistribution (Num : Type 0) : Type 0 where
  pub distribution_id : String
  pub split_id : String
  pub recipient_address : String
  pub amount : Num
  pub transaction_hash : Option String
  pub status : SplitStatus
  pub attempted_at : Option ℕ
  pub completed_at : Option ℕ
  pub error_message : Option String
  pub retry_count : ℕ
  pub metadata : Metadata Num

pub record MilestoneDto (Num : Type 0) : Type 0 where
  pub milestone_id : String
  pub description : String
  pub trigger_condition : String
  pub required_amount : Num

pub record SplitMilestone (Num : Type 0) : Type 0 where
  pub milestone_id : String
  pub split_id : String
  pub description : String
  pub trigger_condition : String
  pub required_amount : Num
  pub status : MilestoneStatus
  pub triggered_at : Option ℕ
  pub completed_at : Option ℕ
  pub triggered_by : Option String
  pub completed_by : Option String

pub record CreateSplitDto (Num : Type 0) : Type 0 where
  pub payment_id : String
  pub merchant_address : String
  pub total_amount : Num
  pub currency : String
  pub split_type : SplitType
  pub recipients : List (RecipientDto Num)
  pub milestones : Option (List (MilestoneDto Num))
  pub metadata : Metadata Num

pub record DistributeRecipientDto (Num : Type 0) : Type 0 where
  pub split_id : String
  pub recipient_address : String
  pub amount : Num
  pub distribution_id : String

-- A field of the JSON that an audit row keeps of the state before and after.
pub data AuditField (Num : Type 0) : Type 0 where
  split : PaymentSplit Num → AuditField Num
  distribution : SplitDistribution Num → AuditField Num
  status : SplitStatus → AuditField Num
  milestone_status : MilestoneStatus → AuditField Num
  executed_at triggered_at completed_at : Option ℕ → AuditField Num
  transaction_hash error_message : String → AuditField Num
  retry_count : ℕ → AuditField Num
  total_amount refund_amount : Num → AuditField Num
  is_partial_payment : Bool → AuditField Num
  reason : String → AuditField Num
  refund_distributions : List (RefundDistribution Num) → AuditField Num

pub record SplitAudit (Num : Type 0) : Type 0 where
  pub split_id : String
  pub distribution_id : Option String
  pub milestone_id : Option String
  pub action : SplitAuditAction
  pub performed_by : String
  pub performed_by_role : String
  pub old_state : List (AuditField Num)
  pub new_state : List (AuditField Num)

-- A milestone is looked up by its split and its own id.
abbrev pub same_pair : String × String → String × String → Bool
same_pair (a, b) (c, d) = str_eq a c && str_eq b d

abbrev pub milestone_key : {Num : Type 0} → SplitMilestone Num → String × String
milestone_key m = (m.split_id, m.milestone_id)

-- The three repositories of the service that rows are read from.
pub record Database (Num : Type 0) : Type 1 where
  pub splits : Repository String (PaymentSplit Num) str_eq (λ s. s.split_id)
  pub distributions : Repository String (SplitDistribution Num) str_eq (λ d. d.distribution_id)
  pub milestones : Repository (String × String) (SplitMilestone Num) same_pair milestone_key

-- What the service reads and writes: its tables, and the rows written to `split_audit`, the newest
-- first. The service only adds to the last.
pub record World {Num : Type 0} (db : Database Num) : Type 0 where
  pub splits : db.splits.Table
  pub distributions : db.distributions.Table
  pub milestones : db.milestones.Table
  pub audits : List (SplitAudit Num)
