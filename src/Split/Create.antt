-- ===== src/Split/Create.antt =====
-- `createSplit` of backend/src/payment-split/payment-split.service.ts.
use Prim.Native.String.{◌++◌ as str_append}
use paya.Prelude.{String, none, some, List, [], ◌∷◌, map}
use paya.Runtime.Action.{Action, pure, from_result, ◌>>◌}
use paya.Runtime.Number.{Number}
use paya.Split.Types.{
  SplitStatus, MilestoneStatus, split_created, RecipientDto, Recipient, PaymentSplit, MilestoneDto,
  SplitMilestone, CreateSplitDto, AuditField, Database, World,
}
use paya.Split.Validation.{validate_recipients}
use paya.Split.State.{insert_split, insert_milestone, audit}

module _ (num : Number) (db : Database num.Num) where
  open num use {Num, of_ℕ}

  unfoldable pub new_recipient : RecipientDto Num → Recipient Num
  new_recipient r = record {
    address = r.address;
    percentage = r.percentage;
    fixed_amount = r.fixed_amount;
    split_type = r.split_type;
    distributed_amount = of_ℕ 0;
    distribution_status = SplitStatus.pending;
  }

  unfoldable pub new_split : CreateSplitDto Num → String → PaymentSplit Num
  unfolding new_recipient
  new_split dto split_id = record {
    split_id = split_id;
    payment_id = dto.payment_id;
    merchant_address = dto.merchant_address;
    total_amount = dto.total_amount;
    currency = dto.currency;
    split_type = dto.split_type;
    status = SplitStatus.pending;
    recipients = map new_recipient dto.recipients;
    retry_count = 0;
    max_retries = 3;
    executed_at = none;
    completed_at = none;
    metadata = dto.metadata;
  }

  unfoldable pub new_milestone : String → MilestoneDto Num → SplitMilestone Num
  new_milestone split_id m = record {
    milestone_id = m.milestone_id;
    split_id = split_id;
    description = m.description;
    trigger_condition = m.trigger_condition;
    required_amount = m.required_amount;
    status = MilestoneStatus.pending;
    triggered_at = none;
    completed_at = none;
    triggered_by = none;
    completed_by = none;
  }

  -- The loop that saves a milestone for each element of `createSplitDto.milestones`.
  unfoldable pub create_milestones : String → List (MilestoneDto Num) → Action (World db) (Unit {0})
  create_milestones split_id [] = pure tt
  create_milestones split_id (m ∷ ms) =
      insert_milestone db (new_milestone split_id m) >> create_milestones split_id ms

  unfoldable pub milestones_of : CreateSplitDto Num → List (MilestoneDto Num)
  milestones_of dto = elim dto.milestones [ none ↦ [] | some ms ↦ ms ]

  -- `uuid` is what the second `uuidv4()` of the call returns, the one in `splitId`.
  unfoldable pub create_split :
      CreateSplitDto Num → String → String → String → Action (World db) (PaymentSplit Num)
  unfolding new_split create_milestones milestones_of
  create_split dto performed_by performed_by_role uuid = do
    from_result (validate_recipients num dto.recipients dto.split_type)
    let split_id = str_append "SPLIT_" uuid
    let split = new_split dto split_id
    insert_split db split
    create_milestones split_id (milestones_of dto)
    audit db (record {
      split_id = split_id;
      distribution_id = none;
      milestone_id = none;
      action = split_created;
      performed_by = performed_by;
      performed_by_role = performed_by_role;
      old_state = [];
      new_state = AuditField.split split ∷ [];
    })
    pure split
