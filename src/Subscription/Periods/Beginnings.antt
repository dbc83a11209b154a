-- ===== src/Subscription/Periods/Beginnings.antt =====
-- The handlers that begin a period: a new subscription, a resumption, the end of a trial.
use paya.Prelude.{
  ℕ, ◌≤◌, String, Option, none, some, ◌≡◌, refl, arith, ◌+◌, ◌*◌, str_eq, str_eq_iff, get_or,
  Bool-cases, Option-cases, inl, inr,
}
use paya.Runtime.Calendar.{Calendar}
use paya.Subscription.Types.{Subscription, SubscriptionPlan, CreateSubscriptionDto, Database, World}
use paya.Subscription.Plans.{next_billing_date, next_billing_date-lt}
use paya.Subscription.Create.{trial_days, new_subscription, create_subscription}
use paya.Subscription.Changes.{restarted, resume_subscription}
use paya.Subscription.Billing.{handle_trial_end}
use paya.Subscription.Periods.{Valid, Advance, Advance-refl, find, Quiet, save-Advance}

module _ {Num : Type 0} (db : Database Num) where
  -- A period that begins at `date`, which is not before the current one.
  Advance-restarted :
      (calendar : Calendar) (date : ℕ) (plan : SubscriptionPlan Num) (s s' : Subscription Num)
      → s.current_period_start ≤ date
      → s'.current_period_start ≡ date
      → s'.current_period_end ≡ next_billing_date calendar date plan.billing_interval
      → s'.next_payment_at ≡ some s'.current_period_end
      → Advance (some s) (some s')
  Advance-restarted calendar date plan s s' h e f g = λ v. (
    omega (arith, h, e),
    record {
      forward = omega (arith, e, f, next_billing_date-lt calendar date plan.billing_interval);
      next = g;
    },
  )

  pub resume-Quiet :
      (calendar : Calendar) (id merchant : String) (at : Option ℕ) (now later : ℕ) (w : World db)
      → ((s : Subscription Num) → find db id w ≡ some s → s.current_period_start ≤ get_or at now)
      → Quiet db w (resume_subscription db calendar id merchant at now later w).1
  unfolding resume_subscription
  resume-Quiet calendar id merchant at now later w forward = record {
    rows = λ j. elim (Option-cases (find db id w)) [
      | inl lost ↦ ground (arith, lost, Advance-refl (find db j w))
      | inr (s, found) ↦
          let date = get_or at now in
          let plan = db.plan_of s.plan_id w.plans in
          let s' : Subscription Num = record (restarted calendar date plan s) {
            resume_at = none;
          } in
          ground (
            arith,
            found,
            Advance-refl (find db j w),
            save-Advance db id s s' w.subscriptions found refl
                (Advance-restarted calendar date plan s s' (forward s found) refl refl refl) j,
          )
    ];
    same = ground arith;
  }

  pub trial_end-Quiet :
      (calendar : Calendar) (id : String) (now later : ℕ) (w : World db)
      → ((s : Subscription Num)
          → find db id w ≡ some s
          → s.current_period_start ≤ get_or s.trial_end now)
      → Quiet db w (handle_trial_end db calendar id now later w).1
  unfolding handle_trial_end
  trial_end-Quiet calendar id now later w forward = record {
    rows = λ j. elim (Option-cases (find db id w)) [
      | inl lost ↦ ground (arith, lost, Advance-refl (find db j w))
      | inr (s, found) ↦
          let date = get_or s.trial_end now in
          let plan = db.plan_of s.plan_id w.plans in
          let s' = restarted calendar date plan s in
          ground (
            arith,
            found,
            Advance-refl (find db j w),
            save-Advance db id s s' w.subscriptions found refl
                (Advance-restarted calendar date plan s s' (forward s found) refl refl refl) j,
          )
    ];
    same = ground arith;
  }

  insert-Advance :
      (s : Subscription Num) (t u : db.subscriptions.Table)
      → db.subscriptions.insert s t ≡ some u
      → Valid s
      → (j : String) → Advance (db.subscriptions.find_one j t) (db.subscriptions.find_one j u)
  insert-Advance s t u e v j = elim (Bool-cases (str_eq s.subscription_id j)) [
    | inl hit ↦
        let fresh : db.subscriptions.find_one j t ≡ none =
          ground
            (arith, hit, db.subscriptions.insert-fresh s t u e, str_eq_iff s.subscription_id j) in
        rw (db.subscriptions.find_one-insert j s t u e, hit, fresh) v
    | inr miss ↦
        rw (db.subscriptions.find_one-insert j s t u e, miss)
          (Advance-refl (db.subscriptions.find_one j t))
  ]

  new-Valid :
      (calendar : Calendar) (dto : CreateSubscriptionDto) (merchant uuid : String) (now : ℕ)
      (plan : SubscriptionPlan Num)
      → Valid (new_subscription calendar dto merchant uuid now plan)
  new-Valid calendar dto merchant uuid now plan =
      elim (Option-cases (trial_days dto.trial_period plan.trial_period_days)) [
        | inl untried ↦
            rw (new_subscription, untried)
              (record {
                forward = next_billing_date-lt calendar now plan.billing_interval;
                next = refl;
              })
        | inr (days, tried) ↦
            rw (new_subscription, tried)
              (record {
                forward =
                    next_billing_date-lt calendar (now + days * 86400000) plan.billing_interval;
                next = refl;
              })
      ]

  pub create-Quiet :
      (calendar : Calendar) (merchant : String) (dto : CreateSubscriptionDto) (uuid : String)
      (now later : ℕ) (w : World db)
      → Quiet db w (create_subscription calendar db merchant dto uuid now later w).1
  unfolding create_subscription
  create-Quiet calendar merchant dto uuid now later w =
      elim (Option-cases (db.plans.find_one dto.plan_id w.plans)) [
        | inl lost ↦ record {
          rows = λ j. ground (arith, lost, Advance-refl (find db j w));
          same = ground (arith, lost);
        }
        | inr (plan, found) ↦
            let s = new_subscription calendar dto merchant uuid now plan in
            elim (Option-cases (db.subscriptions.insert s w.subscriptions)) [
              | inl refused ↦ record {
                rows = λ j. ground (arith, found, refused, Advance-refl (find db j w));
                same = ground (arith, found, refused);
              }
              | inr (t, stored) ↦ record {
                rows = λ j. ground (
                  arith,
                  found,
                  stored,
                  Advance-refl (find db j w),
                  insert-Advance s w.subscriptions t stored
                      (new-Valid calendar dto merchant uuid now plan) j,
                );
                same = ground (arith, found, stored);
              }
            ]
      ]
