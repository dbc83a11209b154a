-- ===== src/Split/Calls.antt =====
-- A request to `PaymentSplitService` that changes a split after its creation, as one step on the
-- service's tables: a throw writes nothing, and a return adds one row to the audit trail.
use paya.Prelude.{ℕ, ◌+◌, String, List, [], ◌∷◌, ◌≡◌, arith, length}
use paya.Runtime.Action.{Action, Result, ok, err, pure, ◌>>=◌}
use paya.Runtime.Number.{Number}
use paya.Split.Types.{
  Database, World, SplitAudit, SplitAuditAction, DistributeRecipientDto, split_executed,
  split_cancelled, retry_initiated, distribution_started, distribution_completed,
  distribution_failed, milestone_triggered, milestone_completed,
}
use paya.Split.Lifecycle.{execute_split, cancel_split, retry_failed_distributions}
use paya.Split.Distribute.{distribute_to_recipient, confirm_distribution, fail_distribution}
use paya.Split.Milestones.{trigger_milestone, complete_milestone}

pub data Call (Num : Type 0) : Type 0 where
  execute : String → String → String → String → ℕ → Call Num
  cancel : String → String → String → Call Num
  retry : String → String → String → Call Num
  distribute : DistributeRecipientDto Num → String → String → ℕ → Call Num
  confirm : String → String → ℕ → ℕ → Call Num
  fail : String → String → Call Num
  trigger : String → String → String → String → String → ℕ → Call Num
  complete : String → String → String → String → ℕ → ℕ → Call Num

module _ (num : Number) (db : Database num.Num) where
  open num use {Num}

  abbrev pub forget : {A : Type 0} → Action (World db) A → Action (World db) (Unit {0})
  forget m = m >>= λ _. pure tt

  unfoldable pub run : Call Num → Action (World db) (Unit {0})
  run (Call.execute id executor by role now) = forget (execute_split db id executor by role now)
  run (Call.cancel id canceller role) = forget (cancel_split db id canceller role)
  run (Call.retry id retryer role) = forget (retry_failed_distributions db id retryer role)
  run (Call.distribute dto by role now) = forget (distribute_to_recipient num db dto by role now)
  run (Call.confirm id hash now later) = forget (confirm_distribution num db id hash now later)
  run (Call.fail id message) = forget (fail_distribution num db id message)
  run (Call.trigger id m triggerer by role now) =
      forget (trigger_milestone db id m triggerer by role now)
  run (Call.complete id m by role now later) = forget (complete_milestone db id m by role now later)

  abbrev pub action_of : Call Num → SplitAuditAction
  action_of (Call.execute _ _ _ _ _) = split_executed
  action_of (Call.cancel _ _ _) = split_cancelled
  action_of (Call.retry _ _ _) = retry_initiated
  action_of (Call.distribute _ _ _ _) = distribution_started
  action_of (Call.confirm _ _ _ _) = distribution_completed
  action_of (Call.fail _ _) = distribution_failed
  action_of (Call.trigger _ _ _ _ _ _) = milestone_triggered
  action_of (Call.complete _ _ _ _ _ _) = milestone_completed

  -- One row on top of the old trail, which names the action.
  abbrev pub Extends : SplitAuditAction → List (SplitAudit Num) → List (SplitAudit Num) → Type 0
  Extends act old [] = ⊥
  Extends act old (a ∷ rest) = (rest ≡ old) × (a.action ≡ act)

  abbrev pub Audited : SplitAuditAction → World db → Result (Unit {0}) × World db → Type 0
  Audited act w (ok _, w') = Extends act w.audits w'.audits
  Audited act w (err _, w') = w' ≡ w

  -- A request here is a call of one of the eight handlers of payment-split.service.ts that work on a
  -- split that is stored, which excludes `createSplit`. One that throws leaves every table as it was.
  -- One that returns puts exactly one row
  -- on top of the audit trail, and this row names the action of the request.
  pub run-Audited : (c : Call Num) (w : World db) → Audited (action_of c) w (run c w)
  unfolding run execute_split cancel_split retry_failed_distributions distribute_to_recipient
      confirm_distribution fail_distribution trigger_milestone complete_milestone
  run-Audited (Call.execute id executor by role now) w = ground arith
  run-Audited _ w = ground arith

  unfoldable pub run_all : List (Call Num) → World db → World db
  run_all [] w = w
  run_all (c ∷ cs) w = run_all cs (run c w).1

  succeeds : Result (Unit {0}) → ℕ
  succeeds (ok _) = 1
  succeeds (err _) = 0

  unfoldable pub successes : List (Call Num) → World db → ℕ
  unfolding succeeds
  successes [] w = 0
  successes (c ∷ cs) w = succeeds (run c w).0 + successes cs (run c w).1

  length-run :
      (c : Call Num) (w : World db)
      → length (run c w).1.audits ≡ succeeds (run c w).0 + length w.audits
  unfolding succeeds
  length-run c w = let (r, w') = run c w in from_Audited r w' (run-Audited c w)
    where
      from_Audited :
          (r : Result (Unit {0})) (w' : World db)
          → Audited (action_of c) w (r, w')
          → length w'.audits ≡ succeeds r + length w.audits
      from_Audited (ok _) w' h = ground arith
      from_Audited (err _) w' h = ground arith

  pub length-run_all :
      (cs : List (Call Num)) (w : World db)
      → length (run_all cs w).audits ≡ successes cs w + length w.audits
  unfolding run_all successes
  length-run_all [] w = omega arith
  length-run_all (c ∷ cs) w = omega (arith, length-run c w, length-run_all cs (run c w).1)
