-- ===== src/Subscription/Payments.antt =====
-- How a payment ends, and what failed payments lead to.
use paya.Prelude.{
  ◌+◌, ◌||◌, Bool, sym, ◌∙◌, ℕ, String, true, false, none, some, List, ◌≡◌, refl, arith, str_eq_iff,
  keep, if◌then◌else◌, Bool-cases, Option-cases, inl, inr,
}
use paya.Runtime.Action.{Result, ok, err, not_found, bad_request, query_failed}
use paya.Runtime.Calendar.{Calendar}
use paya.Subscription.Types.{
  same_status, SubscriptionStatus, Subscription, SubscriptionPlan, SubscriptionInvoice, Job,
  Database, World,
}
use paya.Subscription.Plans.{next_billing_date}
use paya.Subscription.State.{schedule, other_job}
use paya.Subscription.Invoices.{recurring_invoice, create_recurring_invoice}
use paya.Subscription.Changes.{cancel_subscription}
use paya.Subscription.Billing.{is_inactive, next_cycle, process_subscription_payment}
use paya.Subscription.Periods.{find, find_invoice}

module _ {Num : Type 0} (db : Database Num) where
  -- The statuses that no payment is processed for.
  abbrev pub is_stopped : SubscriptionStatus → Bool
  is_stopped SubscriptionStatus.cancelled = true
  is_stopped SubscriptionStatus.paused = true
  is_stopped _ = false

  -- One billing interval on: the new period begins where the old one ends.
  abbrev pub one_period_on : Calendar → SubscriptionPlan Num → Subscription Num → Subscription Num
  one_period_on calendar plan s = record s {
    billing_cycle_count = s.billing_cycle_count + 1;
    current_period_start = s.current_period_end;
    current_period_end = next_billing_date calendar s.current_period_end plan.billing_interval;
    next_payment_at = some (next_billing_date calendar s.current_period_end plan.billing_interval);
  }

  -- The subscription after a payment, and the jobs.
  abbrev pub after_cycle : Subscription Num → ℕ → Subscription Num
  after_cycle next now =
      if next.cancel_at_period_end
      then record next { status = SubscriptionStatus.cancelled; canceled_at = some now }
      else next

  abbrev pub jobs_after : String → Subscription Num → ℕ → List Job → List Job
  jobs_after id next now jobs =
      if next.cancel_at_period_end
      then keep (other_job id) jobs
      else schedule id next.current_period_end now jobs

  pub record Billed (calendar : Calendar) (id uuid : String) (now : ℕ) (w : World db)
      (s : Subscription Num) (end : Result (SubscriptionInvoice Num) × World db) : Type 0 where
    pub plan : SubscriptionPlan Num
    pub its_plan : plan ≡ db.plan_of s.plan_id w.plans
    pub returned : end.0 ≡ ok (recurring_invoice s plan uuid)
    pub invoiced : find_invoice db uuid end.1 ≡ some (recurring_invoice s plan uuid)
    pub renewed : find db id end.1 ≡ some (after_cycle (one_period_on calendar plan s) now)
    pub jobs : end.1.payment_jobs ≡ jobs_after id (one_period_on calendar plan s) now w.payment_jobs

  pub data Paid (calendar : Calendar) (id uuid : String) (now : ℕ) (w : World db)
      (end : Result (SubscriptionInvoice Num) × World db) : Type 0 where
    lost :
        find db id w ≡ none
        → end ≡ (err (not_found "Subscription not found"), w)
        → Paid calendar id uuid now w end
    inactive :
        (s : Subscription Num)
        → find db id w ≡ some s
        → is_stopped s.status ≡ true
        → end ≡ (err (bad_request "Cannot process payment for inactive subscription"), w)
        → Paid calendar id uuid now w end
    refused :
        (s : Subscription Num)
        → find db id w ≡ some s
        → is_stopped s.status ≡ false
        → end ≡ (err query_failed, w)
        → Paid calendar id uuid now w end
    billed :
        (s : Subscription Num)
        → find db id w ≡ some s
        → is_stopped s.status ≡ false
        → Billed calendar id uuid now w s end
        → Paid calendar id uuid now w end

  same_status-is_stopped :
      (t : SubscriptionStatus)
      → (same_status t SubscriptionStatus.cancelled || same_status t SubscriptionStatus.paused)
        ≡ is_stopped t
  same_status-is_stopped SubscriptionStatus.active = refl
  same_status-is_stopped SubscriptionStatus.trialing = refl
  same_status-is_stopped SubscriptionStatus.past_due = refl
  same_status-is_stopped SubscriptionStatus.cancelled = refl
  same_status-is_stopped SubscriptionStatus.paused = refl
  same_status-is_stopped SubscriptionStatus.completed = refl

  abbrev paying :
      Calendar → String → String → ℕ → World db → Result (SubscriptionInvoice Num) × World db
  paying calendar id uuid now w = process_subscription_payment db calendar id uuid now w

  process-Billed :
      (calendar : Calendar) (id uuid : String) (now : ℕ) (w : World db) (s : Subscription Num)
      (t : db.invoices.Table)
      → find db id w ≡ some s
      → is_inactive s ≡ false
      → db.invoices.insert (recurring_invoice s (db.plan_of s.plan_id w.plans) uuid) w.invoices
        ≡ some t
      → Billed calendar id uuid now w s (paying calendar id uuid now w)
  unfolding process_subscription_payment create_recurring_invoice cancel_subscription
  process-Billed calendar id uuid now w s t found live stored =
      let plan = db.plan_of s.plan_id w.plans in
      let next = next_cycle calendar plan s in
      let invoice = recurring_invoice s plan uuid in
      let key = db.subscriptions.key-find_one id s w.subscriptions found in
      let saved = db.subscriptions.save next w.subscriptions in
      let gone : Subscription Num = record next {
        status = SubscriptionStatus.cancelled;
        canceled_at = some now;
      } in
      let reload = db.subscriptions.find_one-save id next w.subscriptions in
      let own = str_eq_iff s.merchant_id s.merchant_id in
      let again = db.subscriptions.find_one-save id gone saved in
      let kept = db.invoices.find_one-insert uuid invoice w.invoices t stored in
      record {
        plan = plan;
        its_plan = refl;
        returned = ground (arith, found, live, stored, key, reload, own);
        invoiced =
            ground (arith, found, live, stored, key, reload, own, kept, str_eq_iff uuid uuid);
        renewed = ground (arith, found, live, stored, key, reload, own, again);
        jobs = ground (arith, found, live, stored, key, reload, own);
      }

  -- How `processSubscriptionPayment` ends. It throws and changes nothing for a subscription that is
  -- not stored, or is CANCELLED or PAUSED, or if the invoice is refused. Else it returns and stores
  -- the invoice for the current period, and the next period begins where that one ends; a
  -- subscription that is to end with its period is CANCELLED, and the waiting payments are removed,
  -- and any other has a payment scheduled at the end of its new period, if that lies ahead.
  pub process-Paid :
      (calendar : Calendar) (id uuid : String) (now : ℕ) (w : World db)
      → Paid calendar id uuid now w (process_subscription_payment db calendar id uuid now w)
  unfolding process_subscription_payment create_recurring_invoice
  process-Paid calendar id uuid now w = elim (Option-cases (find db id w)) [
    | inl none_found ↦ lost none_found (ground (arith, none_found))
    | inr (s, found) ↦ elim (Bool-cases (is_inactive s)) [
      | inl stopped ↦
          inactive s found (sym (same_status-is_stopped s.status) ∙ stopped)
            (ground (arith, found, stopped))
      | inr live ↦
          let invoice = recurring_invoice s (db.plan_of s.plan_id w.plans) uuid in
          elim (Option-cases (db.invoices.insert invoice w.invoices)) [
            | inl denied ↦
                refused s found (sym (same_status-is_stopped s.status) ∙ live)
                  (ground (arith, found, live, denied))
            | inr (t, stored) ↦
                billed s found (sym (same_status-is_stopped s.status) ∙ live)
                  (process-Billed calendar id uuid now w s t found live stored)
          ]
    ]
  ]
