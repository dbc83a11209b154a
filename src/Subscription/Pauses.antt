-- ===== src/Subscription/Pauses.antt =====
-- What a pause and a resumption leave.
use paya.Prelude.{
  ℕ, String, true, false, Option, none, some, ◌≡◌, refl, ap, arith, str_eq, str_eq_iff, get_or,
  keep,
}
use paya.Runtime.Action.{err, bad_request}
use paya.Runtime.Calendar.{Calendar}
use paya.Subscription.Types.{SubscriptionStatus, same_status, Subscription, Database, World}
use paya.Subscription.State.{schedule, other_job}
use paya.Subscription.Plans.{next_billing_date}
use paya.Subscription.Changes.{
  paused, restarted, pause_subscription, resume_subscription, handle_resume,
}
use paya.Subscription.Periods.{find}

module _ {Num : Type 0} (db : Database Num) (calendar : Calendar) where
  pub record Resumed (id : String) (date paused_at later : ℕ) (w : World db) (s : Subscription Num)
      (w' : World db) : Type 0 where
    pub end : ℕ
    pub its_end :
        end ≡ next_billing_date calendar date (db.plan_of s.plan_id w.plans).billing_interval
    pub stored :
        find db id w'
        ≡ some (record s {
          status = SubscriptionStatus.active;
          paused_at = some paused_at;
          resume_at = none;
          current_period_start = date;
          current_period_end = end;
          next_payment_at = some end;
        })
    pub jobs : w'.payment_jobs ≡ schedule id end later (keep (other_job id) w.payment_jobs)
    pub invoices : w'.invoices ≡ w.invoices

  resume-Resumed :
      (id : String) (at : Option ℕ) (now later : ℕ) (w : World db) (s : Subscription Num)
      (paused_at : ℕ)
      → find db id w ≡ some s
      → same_status s.status SubscriptionStatus.paused ≡ true
      → s.paused_at ≡ some paused_at
      → let date = get_or at now in
        let w' = (resume_subscription db calendar id s.merchant_id at now later w).1 in
        let end = next_billing_date calendar date (db.plan_of s.plan_id w.plans).billing_interval in
        (find db id w'
          ≡ some (record s {
            status = SubscriptionStatus.active;
            paused_at = some paused_at;
            resume_at = none;
            current_period_start = date;
            current_period_end = end;
            next_payment_at = some end;
          }))
        × ((w'.payment_jobs ≡ schedule id end later w.payment_jobs) × (w'.invoices ≡ w.invoices))
  unfolding resume_subscription
  resume-Resumed id at now later w s paused_at found asleep since =
      let date = get_or at now in
      let woken : Subscription Num =
        record (restarted calendar date (db.plan_of s.plan_id w.plans) s) { resume_at = none } in
      let own = str_eq_iff s.merchant_id s.merchant_id in
      let key = db.subscriptions.key-find_one id s w.subscriptions found in
      let reload = db.subscriptions.find_one-save id woken w.subscriptions in
      (
        ground (arith, found, asleep, own, key, reload, since),
        (ground (arith, found, asleep, own), ground (arith, found, asleep, own)),
      )

  pause-paused :
      (id : String) (at : Option ℕ) (now later : ℕ) (w : World db) (s : Subscription Num)
      → find db id w ≡ some s
      → same_status s.status SubscriptionStatus.paused ≡ false
      → same_status s.status SubscriptionStatus.cancelled ≡ false
      → let w' = (pause_subscription db id s.merchant_id at now later w).1 in
        (find db id w' ≡ some (paused s at now))
        × ((w'.payment_jobs ≡ keep (other_job id) w.payment_jobs)
            × ((w'.invoices ≡ w.invoices) × (w'.plans ≡ w.plans)))
  unfolding pause_subscription
  pause-paused id at now later w s found awake live =
      let own = str_eq_iff s.merchant_id s.merchant_id in
      let key = db.subscriptions.key-find_one id s w.subscriptions found in
      let reload = db.subscriptions.find_one-save id (paused s at now) w.subscriptions in
      (
        ground (arith, found, awake, live, own, key, reload),
        (
          ground (arith, found, awake, live, own),
          (ground (arith, found, awake, live, own), ground (arith, found, awake, live, own)),
        ),
      )

  -- A subscription that is neither PAUSED nor CANCELLED, and which its merchant pauses and then
  -- resumes, is ACTIVE, with everything as before but for a new period from the date of the
  -- resumption on, `pausedAt` and `resumeAt`. The payments that waited are replaced by one at the
  -- end of the new period, if that lies ahead, and no invoice is written.
  pub pause-resume :
      (id : String) (pause_at resume_at : Option ℕ) (now now' again later : ℕ) (w : World db)
      (s : Subscription Num)
      → find db id w ≡ some s
      → same_status s.status SubscriptionStatus.paused ≡ false
      → same_status s.status SubscriptionStatus.cancelled ≡ false
      → Resumed id
          (get_or resume_at again)
          now
          later
          w
          s
          (resume_subscription db calendar id s.merchant_id resume_at again later
            (pause_subscription db id s.merchant_id pause_at now now' w).1).1
  pause-resume id pause_at resume_at now now' again later w s found awake live =
      let w1 = (pause_subscription db id s.merchant_id pause_at now now' w).1 in
      let p = pause-paused id pause_at now now' w s found awake live in
      let r =
        resume-Resumed id resume_at again later w1 (paused s pause_at now) now p.0 refl refl in
      let date = get_or resume_at again in
      record {
        end = next_billing_date calendar date (db.plan_of s.plan_id w1.plans).billing_interval;
        its_end =
            ap (λ t. next_billing_date calendar date (db.plan_of s.plan_id t).billing_interval)
              p.1.1.1;
        stored = r.0;
        jobs = cc (r.1.0, p.1.0);
        invoices = cc (r.1.1, p.1.1.0);
      }

  -- The job that a pause with a date for its end schedules does not resume the subscription. It runs
  -- as the merchant "system", so, for a subscription of any other merchant, it throws, and leaves the
  -- subscription PAUSED.
  pub pause-handle_resume :
      (id : String) (date now now' again later : ℕ) (w : World db) (s : Subscription Num)
      → find db id w ≡ some s
      → same_status s.status SubscriptionStatus.paused ≡ false
      → same_status s.status SubscriptionStatus.cancelled ≡ false
      → str_eq s.merchant_id "system" ≡ false
      → let w1 = (pause_subscription db id s.merchant_id (some date) now now' w).1 in
        let end = handle_resume db calendar id again later w1 in
        (end ≡ (err (bad_request "You do not have permission to resume this subscription"), w1))
        × (find db id end.1 ≡ some (paused s (some date) now))
  unfolding pause_subscription resume_subscription handle_resume
  pause-handle_resume id date now now' again later w s found awake live other =
      let rest = paused s (some date) now in
      let own = str_eq_iff s.merchant_id s.merchant_id in
      let key = db.subscriptions.key-find_one id s w.subscriptions found in
      let reload = db.subscriptions.find_one-save id rest w.subscriptions in
      (
        ground (arith, found, awake, live, other, own, key, reload),
        ground (arith, found, awake, live, other, own, key, reload),
      )
