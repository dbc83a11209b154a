-- ===== src/Split/Milestones.antt =====
-- `triggerMilestone` and `completeMilestone` of backend/src/payment-split/payment-split.service.ts.
use Prim.Native.String.{◌++◌ as str_append}
use paya.Prelude.{ℕ, Bool, not, String, some, none, [], ◌∷◌, str_eq, every}
use paya.Runtime.Action.{Action, bad_request, gets, pure, throw_if, when, ◌>>=◌, ◌>>◌}
use paya.Split.Types.{
  SplitStatus, MilestoneStatus, same_milestone_status, milestone_status_text, milestone_triggered,
  milestone_completed, SplitMilestone, AuditField, Database, World,
}
use paya.Split.State.{get_split, save_split, get_milestone, save_milestone, audit}

module _ {Num : Type 0} where
  abbrev pub has_milestone_status : MilestoneStatus → SplitMilestone Num → Bool
  has_milestone_status s m = same_milestone_status m.status s

  -- `{ where: { splitId } }`
  abbrev pub in_split : String → SplitMilestone Num → Bool
  in_split split_id m = str_eq m.split_id split_id

module _ {Num : Type 0} (db : Database Num) where
  -- The first three arguments are the fields of the `TriggerMilestoneDto`.
  unfoldable pub trigger_milestone :
      String → String → String → String → String → ℕ → Action (World db) (SplitMilestone Num)
  trigger_milestone split_id milestone_id triggerer performed_by performed_by_role now = do
    split ← get_split db split_id
    throw_if (not (str_eq split.merchant_address triggerer))
        (bad_request "Only merchant can trigger milestones")
    milestone ← get_milestone db split_id milestone_id
    throw_if (not (has_milestone_status MilestoneStatus.pending milestone)) (
        bad_request (
          str_append "Milestone is not in PENDING status. Current status: "
            (milestone_status_text milestone.status)))
    let updated = record milestone {
      status = MilestoneStatus.triggered;
      triggered_at = some now;
      triggered_by = some triggerer;
    }
    save_milestone db updated
    audit db (record {
      split_id = split_id;
      distribution_id = none;
      milestone_id = some milestone_id;
      action = milestone_triggered;
      performed_by = performed_by;
      performed_by_role = performed_by_role;
      old_state = AuditField.milestone_status milestone.status ∷ [];
      new_state =
          AuditField.milestone_status MilestoneStatus.triggered
          ∷ AuditField.triggered_at (some now)
          ∷ [];
    })
    pure updated

  -- `now` and `later` are the two readings of the clock, the second for the split.
  unfoldable pub complete_milestone :
      String → String → String → String → ℕ → ℕ → Action (World db) (SplitMilestone Num)
  complete_milestone split_id milestone_id performed_by performed_by_role now later = do
    split ← get_split db split_id
    throw_if (not (str_eq split.merchant_address performed_by))
        (bad_request "Only merchant can complete milestones")
    milestone ← get_milestone db split_id milestone_id
    throw_if (not (has_milestone_status MilestoneStatus.triggered milestone)) (
        bad_request (
          str_append "Milestone is not in TRIGGERED status. Current status: "
            (milestone_status_text milestone.status)))
    let updated = record milestone {
      status = MilestoneStatus.completed;
      completed_at = some now;
      completed_by = some performed_by;
    }
    save_milestone db updated
    milestones ← gets (λ w. db.milestones.find_by (in_split split_id) w.milestones)
    when (every (has_milestone_status MilestoneStatus.completed) milestones)
        (save_split db (record split { status = SplitStatus.completed; completed_at = some later }))
    audit db (record {
      split_id = split_id;
      distribution_id = none;
      milestone_id = some milestone_id;
      action = milestone_completed;
      performed_by = performed_by;
      performed_by_role = performed_by_role;
      old_state = AuditField.milestone_status milestone.status ∷ [];
      new_state =
          AuditField.milestone_status MilestoneStatus.completed
          ∷ AuditField.completed_at (some now)
          ∷ [];
    })
    pure updated
