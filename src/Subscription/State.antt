-- ===== src/Subscription/State.antt =====
-- The reads and writes of `SubscriptionService`, `getPlan`, the scheduler of
-- backend/src/subscription/subscription-scheduler.service.ts and the sending of events. An error of a
-- queue is not modelled.
use paya.Prelude.{
  ℕ, ◌-◌, String, Bool, not, List, ◌∷◌, ltb, keep, str_eq, if◌then◌else◌, none, some,
}
use paya.Runtime.Action.{Action, ok, err, not_found, query_failed, gets, or_throw, modify, ◌>>=◌}
use paya.Subscription.Types.{
  Subscription, SubscriptionPlan, SubscriptionInvoice, Job, Database, World,
}

-- `add` of a job at `date`, if it lies ahead of `now`.
abbrev pub schedule : String → ℕ → ℕ → List Job → List Job
schedule id date now jobs =
    if ltb now date then record { subscription_id = id; delay = date - now } ∷ jobs else jobs

abbrev pub other_job : String → Job → Bool
other_job id job = not (str_eq job.subscription_id id)

module _ {Num : Type 0} (db : Database Num) where
  abbrev pub get_subscription : String → Action (World db) (Subscription Num)
  get_subscription id = do
    found ← gets (λ w. db.subscriptions.find_one id w.subscriptions)
    or_throw found (not_found "Subscription not found")

  -- `subscription.plan`, as `getSubscription` loads it.
  abbrev pub loaded_plan : Subscription Num → Action (World db) (SubscriptionPlan Num)
  loaded_plan s = gets (λ w. db.plan_of s.plan_id w.plans)

  abbrev pub get_plan : String → Action (World db) (SubscriptionPlan Num)
  get_plan id = do
    found ← gets (λ w. db.plans.find_one id w.plans)
    or_throw found (not_found "Subscription plan not found")

  abbrev pub save_subscription : Subscription Num → Action (World db) (Unit {0})
  save_subscription s =
      modify (λ w. record w { subscriptions = db.subscriptions.save s w.subscriptions })

  abbrev pub insert_subscription : Subscription Num → Action (World db) (Unit {0})
  insert_subscription s w = elim (db.subscriptions.insert s w.subscriptions) [
    | none ↦ (err query_failed, w)
    | some t ↦ (ok tt, record w { subscriptions = t })
  ]

  abbrev pub insert_invoice : SubscriptionInvoice Num → Action (World db) (SubscriptionInvoice Num)
  insert_invoice i w = elim (db.invoices.insert i w.invoices) [
    | none ↦ (err query_failed, w)
    | some t ↦ (ok i, record w { invoices = t })
  ]

  -- `now` is `Date.now()`.
  abbrev pub schedule_next_payment : String → ℕ → ℕ → Action (World db) (Unit {0})
  schedule_next_payment id date now =
      modify (λ w. record w { payment_jobs = schedule id date now w.payment_jobs })

  abbrev pub schedule_trial_end : String → ℕ → ℕ → Action (World db) (Unit {0})
  schedule_trial_end id date now =
      modify (λ w. record w { trial_jobs = schedule id date now w.trial_jobs })

  abbrev pub schedule_resume : String → ℕ → ℕ → Action (World db) (Unit {0})
  schedule_resume id date now =
      modify (λ w. record w { resume_jobs = schedule id date now w.resume_jobs })

  abbrev pub cancel_scheduled_payments : String → Action (World db) (Unit {0})
  cancel_scheduled_payments id =
      modify (λ w. record w { payment_jobs = keep (other_job id) w.payment_jobs })

  abbrev pub send_event : String → Subscription Num → Action (World db) (Unit {0})
  send_event event_type s = modify (λ w. record w { sent = (event_type, s) ∷ w.sent })
