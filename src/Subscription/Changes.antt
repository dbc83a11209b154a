-- ===== src/Subscription/Changes.antt =====
-- `updateSubscription`, `changePlan`, `cancelSubscription`, `pauseSubscription` and
-- `resumeSubscription` of backend/src/subscription/subscription.service.ts, and the job that resumes.
-- The arguments of type ℕ are the values of `new Date()` and `Date.now()`, in the order of their use.
use paya.Prelude.{
  ℕ, String, Bool, true, false, not, Option, none, some, ◌&&◌, ◌||◌, str_eq, get_or, if◌then◌else◌,
}
use paya.Runtime.Action.{Action, bad_request, pure, throw_if, when, ◌>>=◌, ◌>>◌}
use paya.Runtime.Calendar.{Calendar}
use paya.Runtime.Number.{Number}
use paya.Subscription.Types.{
  SubscriptionStatus, same_status, Subscription, SubscriptionPlan, UpdateSubscriptionDto, Database,
  World,
}
use paya.Subscription.State.{
  get_subscription, loaded_plan, get_plan, save_subscription, schedule_next_payment,
  schedule_resume, cancel_scheduled_payments, send_event,
}
use paya.Subscription.Plans.{next_billing_date, get_days_between, calculate_proration}
use paya.Subscription.Invoices.{create_proration_invoice}

-- What a plan change reads besides the tables: `new Date()`, the id of an invoice, and its
-- `Date.now()`.
pub record Change : Type 0 where
  pub now : ℕ
  pub uuid : String
  pub invoice_now : ℕ

module _ (num : Number) (db : Database num.Num) where
  open num use {Num, of_ℕ, lt}

  abbrev pub prorated_amount :
      Subscription Num → SubscriptionPlan Num → SubscriptionPlan Num → ℕ → Num
  prorated_amount s old_plan new_plan now =
      let is_upgrade = lt old_plan.amount new_plan.amount in
      let days_in_period = of_ℕ (get_days_between s.current_period_start s.current_period_end) in
      let days_remaining = of_ℕ (get_days_between now s.current_period_end) in
      if old_plan.prorate_on_upgrade && is_upgrade
      then calculate_proration num old_plan.amount new_plan.amount days_in_period days_remaining
          true
      else if old_plan.prorate_on_downgrade && not is_upgrade
      then calculate_proration num old_plan.amount new_plan.amount days_in_period days_remaining
          false
      else of_ℕ 0

  -- `if (proratedAmount > 0) …`
  abbrev pub invoice_proration :
      Subscription Num
      → SubscriptionPlan Num
      → SubscriptionPlan Num
      → Change
      → Action (World db) (Unit {0})
  invoice_proration s old_plan new_plan change =
      let amount = prorated_amount s old_plan new_plan change.now in
      when (lt (of_ℕ 0) amount) (
        create_proration_invoice num db s old_plan new_plan amount change.uuid change.invoice_now
        >> pure tt)

  -- Returns the subscription as it is changed in memory.
  unfoldable pub change_plan :
      Subscription Num → String → Change → Action (World db) (Subscription Num)
  change_plan s new_plan_id change = do
    old_plan ← loaded_plan db s
    new_plan ← get_plan db new_plan_id
    invoice_proration s old_plan new_plan change
    pure (record s {
      plan_id = new_plan_id;
      current_amount = new_plan.amount;
      currency = new_plan.currency;
    })

  -- `if (planId && planId !== subscription.planId) …`
  abbrev pub change_if_other :
      Option String → Subscription Num → Change → Action (World db) (Subscription Num)
  change_if_other none s change = pure s
  change_if_other (some id) s change =
      if str_eq id "" || str_eq id s.plan_id then pure s else change_plan s id change

  unfoldable pub update_subscription :
      String → String → UpdateSubscriptionDto → Change → Action (World db) (Subscription Num)
  update_subscription id merchant_id dto change = do
    s ← get_subscription db id
    throw_if (not (str_eq s.merchant_id merchant_id))
        (bad_request "You do not have permission to update this subscription")
    changed ← change_if_other dto.plan_id s change
    let updated = record changed {
      cancel_at_period_end = get_or dto.cancel_at_period_end changed.cancel_at_period_end;
      status = get_or dto.status changed.status;
    }
    save_subscription db updated
    send_event db "subscription.updated" updated
    pure updated

module _ {Num : Type 0} where
  abbrev pub paused : Subscription Num → Option ℕ → ℕ → Subscription Num
  paused s resume_at now = record s {
    status = SubscriptionStatus.paused;
    paused_at = some now;
    resume_at = elim resume_at [ none ↦ s.resume_at | some date ↦ some date ];
  }

  -- The period that begins at `date`.
  abbrev pub restarted : Calendar → ℕ → SubscriptionPlan Num → Subscription Num → Subscription Num
  restarted calendar date plan s =
      let end = next_billing_date calendar date plan.billing_interval in
      record s {
        status = SubscriptionStatus.active;
        current_period_start = date;
        current_period_end = end;
        next_payment_at = some end;
      }

module _ {Num : Type 0} (db : Database Num) where
  -- The two ways to cancel, up to the save.
  abbrev pub cancel_now_or_later :
      String → Bool → ℕ → Subscription Num → Action (World db) (Subscription Num)
  cancel_now_or_later id true now s =
      pure (record s { cancel_at_period_end = true; cancel_at = some s.current_period_end })
  cancel_now_or_later id false now s = do
    cancel_scheduled_payments db id
    pure (record s { status = SubscriptionStatus.cancelled; canceled_at = some now })

  unfoldable pub cancel_subscription :
      String → String → Bool → ℕ → Action (World db) (Subscription Num)
  cancel_subscription id merchant_id at_period_end now = do
    s ← get_subscription db id
    throw_if (not (str_eq s.merchant_id merchant_id))
        (bad_request "You do not have permission to cancel this subscription")
    throw_if (same_status s.status SubscriptionStatus.cancelled)
        (bad_request "Subscription is already cancelled")
    updated ← cancel_now_or_later id at_period_end now s
    save_subscription db updated
    send_event db "subscription.cancelled" updated
    pure updated

  -- `if (resumeAt) …`
  abbrev pub schedule_resume_at : String → Option ℕ → ℕ → Action (World db) (Unit {0})
  schedule_resume_at id none later = pure tt
  schedule_resume_at id (some date) later = schedule_resume db id date later

  unfoldable pub pause_subscription :
      String → String → Option ℕ → ℕ → ℕ → Action (World db) (Subscription Num)
  pause_subscription id merchant_id resume_at now later = do
    s ← get_subscription db id
    throw_if (not (str_eq s.merchant_id merchant_id))
        (bad_request "You do not have permission to pause this subscription")
    throw_if (same_status s.status SubscriptionStatus.paused)
        (bad_request "Subscription is already paused")
    throw_if (same_status s.status SubscriptionStatus.cancelled)
        (bad_request "Cannot pause a cancelled subscription")
    let updated = paused s resume_at now
    schedule_resume_at id resume_at later
    cancel_scheduled_payments db id
    save_subscription db updated
    send_event db "subscription.paused" updated
    pure updated

  unfoldable pub resume_subscription :
      Calendar → String → String → Option ℕ → ℕ → ℕ → Action (World db) (Subscription Num)
  resume_subscription calendar id merchant_id resume_at now later = do
    s ← get_subscription db id
    throw_if (not (str_eq s.merchant_id merchant_id))
        (bad_request "You do not have permission to resume this subscription")
    throw_if (not (same_status s.status SubscriptionStatus.paused))
        (bad_request "Subscription is not paused")
    plan ← loaded_plan db s
    let updated = record (restarted calendar (get_or resume_at now) plan s) { resume_at = none }
    save_subscription db updated
    schedule_next_payment db id updated.current_period_end later
    send_event db "subscription.resumed" updated
    pure updated

  -- `ResumeProcessor.handleResume` of backend/src/subscription/subscription.processor.ts.
  unfoldable pub handle_resume : Calendar → String → ℕ → ℕ → Action (World db) (Subscription Num)
  handle_resume calendar id now later = resume_subscription calendar id "system" none now later
