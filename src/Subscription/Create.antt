-- ===== src/Subscription/Create.antt =====
-- `createSubscription` of backend/src/subscription/subscription.service.ts.
use paya.Prelude.{ℕ, suc, ◌+◌, ◌*◌, String, Bool, true, false, not, Option, none, some, str_eq}
use paya.Runtime.Action.{Action, bad_request, pure, throw_if, ◌>>=◌, ◌>>◌}
use paya.Runtime.Calendar.{Calendar}
use paya.Subscription.Types.{
  SubscriptionStatus, PlanStatus, Subscription, SubscriptionPlan, CreateSubscriptionDto, Database,
  World,
}
use paya.Subscription.State.{
  get_plan, insert_subscription, schedule_next_payment, schedule_trial_end, send_event,
}
use paya.Subscription.Plans.{next_billing_date}

abbrev pub is_active : PlanStatus → Bool
is_active PlanStatus.active = true
is_active _ = false

-- The days of `plan.trialPeriodDays`, if `trialPeriod && plan.trialPeriodDays`.
abbrev pub trial_days : Bool → Option ℕ → Option ℕ
trial_days true (some (suc n)) = some (suc n)
trial_days _ _ = none

module _ {Num : Type 0} (calendar : Calendar) where
  -- `now` is the first `new Date()`.
  abbrev pub new_subscription :
      CreateSubscriptionDto → String → String → ℕ → SubscriptionPlan Num → Subscription Num
  new_subscription dto merchant_id uuid now plan =
      let without_trial : Subscription Num = record {
        subscription_id = uuid;
        merchant_id = merchant_id;
        customer_id = dto.customer_id;
        customer_email = dto.customer_email;
        plan_id = plan.plan_id;
        status = SubscriptionStatus.active;
        current_amount = plan.amount;
        currency = plan.currency;
        trial_start = none;
        trial_end = none;
        current_period_start = now;
        current_period_end = next_billing_date calendar now plan.billing_interval;
        cancel_at_period_end = dto.cancel_at_period_end;
        cancel_at = none;
        canceled_at = none;
        paused_at = none;
        resume_at = none;
        billing_cycle_count = 0;
        failed_payment_count = 0;
        last_payment_at = none;
        next_payment_at = some (next_billing_date calendar now plan.billing_interval);
      } in
      elim (trial_days dto.trial_period plan.trial_period_days) [
        | none ↦ without_trial
        | some days ↦
            let trial_end = now + days * 86400000 in
            record without_trial {
              status = SubscriptionStatus.trialing;
              trial_start = some now;
              trial_end = some trial_end;
              current_period_start = trial_end;
              current_period_end = next_billing_date calendar trial_end plan.billing_interval;
              next_payment_at = some (next_billing_date calendar trial_end plan.billing_interval);
            }
      ]

  module _ (db : Database Num) where
    -- `if (status === ACTIVE) … else …`, where only a trial has an end.
    abbrev pub schedule_first : Subscription Num → ℕ → Action (World db) (Unit {0})
    schedule_first s now = elim s.trial_end [
      | none ↦ schedule_next_payment db s.subscription_id s.current_period_end now
      | some date ↦ schedule_trial_end db s.subscription_id date now
    ]

    -- `later` is the `Date.now()` of the scheduler.
    unfoldable pub create_subscription :
        String → CreateSubscriptionDto → String → ℕ → ℕ → Action (World db) (Subscription Num)
    create_subscription merchant_id dto uuid now later = do
      plan ← get_plan db dto.plan_id
      throw_if (not (str_eq plan.merchant_id merchant_id))
          (bad_request "Plan does not belong to this merchant")
      throw_if (not (is_active plan.status)) (bad_request "Plan is not active")
      let s = new_subscription dto merchant_id uuid now plan
      insert_subscription db s
      schedule_first s later
      send_event db "subscription.created" s
      pure s
