-- ===== src/Subscription/Billing.antt =====
-- `processSubscriptionPayment`, `handleTrialEnd`, `handlePaymentFailure` and `handlePaymentSuccess`
-- of backend/src/subscription/subscription.service.ts. The arguments of type ℕ are the values of
-- `new Date()` and `Date.now()`, in the order of their use.
use paya.Prelude.{ℕ, ◌+◌, String, Bool, false, some, ◌||◌, get_or, leb, if◌then◌else◌}
use paya.Runtime.Action.{Action, bad_request, pure, throw_if, when, ◌>>=◌, ◌>>◌}
use paya.Runtime.Calendar.{Calendar}
use paya.Subscription.Types.{
  SubscriptionStatus, same_status, Subscription, SubscriptionPlan, SubscriptionInvoice, Database,
  World,
}
use paya.Subscription.State.{
  get_subscription, loaded_plan, save_subscription, schedule_next_payment, send_event,
}
use paya.Subscription.Plans.{next_billing_date}
use paya.Subscription.Invoices.{create_recurring_invoice}
use paya.Subscription.Changes.{cancel_subscription, restarted}

module _ {Num : Type 0} where
  abbrev pub is_inactive : Subscription Num → Bool
  is_inactive s =
      same_status s.status SubscriptionStatus.cancelled
      || same_status s.status SubscriptionStatus.paused

  -- The next cycle, which begins where the last one ends.
  abbrev pub next_cycle : Calendar → SubscriptionPlan Num → Subscription Num → Subscription Num
  next_cycle calendar plan s =
      let end = next_billing_date calendar s.current_period_end plan.billing_interval in
      record s {
        billing_cycle_count = s.billing_cycle_count + 1;
        current_period_start = s.current_period_end;
        current_period_end = end;
        next_payment_at = some end;
      }

module _ {Num : Type 0} (db : Database Num) where
  -- `if (subscription.cancelAtPeriodEnd) … else …`
  abbrev pub cancel_or_schedule : String → Subscription Num → ℕ → Action (World db) (Unit {0})
  cancel_or_schedule id s now =
      if s.cancel_at_period_end
      then cancel_subscription db id s.merchant_id false now >> pure tt
      else schedule_next_payment db id s.current_period_end now

  unfoldable pub process_subscription_payment :
      Calendar → String → String → ℕ → Action (World db) (SubscriptionInvoice Num)
  process_subscription_payment calendar id uuid now = do
    s ← get_subscription db id
    throw_if (is_inactive s) (bad_request "Cannot process payment for inactive subscription")
    plan ← loaded_plan db s
    invoice ← create_recurring_invoice db s plan uuid
    let next = next_cycle calendar plan s
    save_subscription db next
    cancel_or_schedule id next now
    pure invoice

  -- What follows the early return.
  abbrev pub end_trial : Calendar → String → Subscription Num → ℕ → ℕ → Action (World db) (Unit {0})
  end_trial calendar id s now later = do
    plan ← loaded_plan db s
    let updated = restarted calendar (get_or s.trial_end now) plan s
    save_subscription db updated
    schedule_next_payment db id updated.current_period_end later
    send_event db "subscription.trial_ended" updated

  unfoldable pub handle_trial_end : Calendar → String → ℕ → ℕ → Action (World db) (Unit {0})
  handle_trial_end calendar id now later = do
    s ← get_subscription db id
    when (same_status s.status SubscriptionStatus.trialing) (end_trial calendar id s now later)

  unfoldable pub handle_payment_failure : String → ℕ → Action (World db) (Unit {0})
  handle_payment_failure id now = do
    s ← get_subscription db id
    let failed = record s {
      failed_payment_count = s.failed_payment_count + 1;
      status = SubscriptionStatus.past_due;
    }
    plan ← loaded_plan db s
    save_subscription db failed
    send_event db "subscription.payment_failed" failed
    when (leb plan.max_retry_attempts failed.failed_payment_count)
        (cancel_subscription db id s.merchant_id false now >> pure tt)

  unfoldable pub handle_payment_success : String → ℕ → Action (World db) (Unit {0})
  handle_payment_success id now = do
    s ← get_subscription db id
    let paid = record s {
      failed_payment_count = 0;
      last_payment_at = some now;
      status =
          if same_status s.status SubscriptionStatus.past_due
          then SubscriptionStatus.active
          else s.status;
    }
    save_subscription db paid
    send_event db "subscription.payment_succeeded" paid
