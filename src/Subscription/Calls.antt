-- ===== src/Subscription/Calls.antt =====
-- The requests and jobs that change the tables of `SubscriptionService`, as one type.
use paya.Prelude.{ℕ, String, Bool, Option, List, [], ◌∷◌}
use paya.Runtime.Calendar.{Calendar}
use paya.Runtime.Number.{Number}
use paya.Subscription.Types.{CreateSubscriptionDto, UpdateSubscriptionDto, Database, World}
use paya.Subscription.Create.{create_subscription}
use paya.Subscription.Changes.{
  Change, update_subscription, cancel_subscription, pause_subscription, resume_subscription,
}
use paya.Subscription.Billing.{
  process_subscription_payment, handle_trial_end, handle_payment_failure, handle_payment_success,
}

pub data Call : Type 0 where
  create : String → CreateSubscriptionDto → String → ℕ → ℕ → Call
  update : String → String → UpdateSubscriptionDto → Change → Call
  cancel : String → String → Bool → ℕ → Call
  pause : String → String → Option ℕ → ℕ → ℕ → Call
  resume : String → String → Option ℕ → ℕ → ℕ → Call
  pay : String → String → ℕ → Call
  trial_end : String → ℕ → ℕ → Call
  failure : String → ℕ → Call
  success : String → ℕ → Call

module _ (num : Number) (calendar : Calendar) (db : Database num.Num) where
  unfoldable pub run : Call → World db → World db
  run (Call.create merchant dto uuid now later) w =
      (create_subscription calendar db merchant dto uuid now later w).1
  run (Call.update id merchant dto change) w =
      (update_subscription num db id merchant dto change w).1
  run (Call.cancel id merchant at_period_end now) w =
      (cancel_subscription db id merchant at_period_end now w).1
  run (Call.pause id merchant at now later) w = (pause_subscription db id merchant at now later w).1
  run (Call.resume id merchant at now later) w =
      (resume_subscription db calendar id merchant at now later w).1
  run (Call.pay id uuid now) w = (process_subscription_payment db calendar id uuid now w).1
  run (Call.trial_end id now later) w = (handle_trial_end db calendar id now later w).1
  run (Call.failure id now) w = (handle_payment_failure db id now w).1
  run (Call.success id now) w = (handle_payment_success db id now w).1

  unfoldable pub run_all : List Call → World db → World db
  run_all [] w = w
  run_all (c ∷ cs) w = run_all cs (run c w)
