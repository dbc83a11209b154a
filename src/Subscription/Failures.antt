-- ===== src/Subscription/Failures.antt =====
-- What failed payments lead to.
use paya.Prelude.{
  ℕ, ◌+◌, String, some, List, [], ◌∷◌, ◌≡◌, refl, arith, str_eq_iff, leb, keep, keep-keep, ◌≤◌, ◌∙◌,
  length, if◌then◌else◌, Bool-cases, inl, inr,
}
use paya.Subscription.Types.{SubscriptionStatus, Subscription, Job, Database, World}
use paya.Subscription.State.{other_job}
use paya.Subscription.Changes.{cancel_subscription}
use paya.Subscription.Billing.{handle_payment_failure}
use paya.Subscription.Periods.{find}

module _ {Num : Type 0} (db : Database Num) where
  -- `handlePaymentFailure` once per entry of a list of times.
  pub failures : String → List ℕ → World db → World db
  failures id [] w = w
  failures id (now ∷ times) w = failures id times (handle_payment_failure db id now w).1

  -- The row and the jobs of a subscription after `count` failures in a row, of which `limit` are too
  -- many.
  pub record Failed (id : String) (s : Subscription Num) (limit count : ℕ) (before : List Job)
      (w : World db) : Type 0 where
    pub row : Subscription Num
    pub stored : find db id w ≡ some row
    pub counted : row.failed_payment_count ≡ count
    pub same_plan : row.plan_id ≡ s.plan_id
    pub same_period : row.current_period_end ≡ s.current_period_end
    pub status :
        row.status
        ≡ (if leb limit count then SubscriptionStatus.cancelled else SubscriptionStatus.past_due)
    pub jobs : w.payment_jobs ≡ (if leb limit count then keep (other_job id) before else before)

  failure-Failed :
      (id : String) (now : ℕ) (w : World db) (s : Subscription Num)
      → find db id w ≡ some s
      → Failed id s
          (db.plan_of s.plan_id w.plans).max_retry_attempts
          (s.failed_payment_count + 1)
          w.payment_jobs
          (handle_payment_failure db id now w).1
  unfolding handle_payment_failure cancel_subscription
  failure-Failed id now w s found =
      let s' : Subscription Num = record s {
        failed_payment_count = s.failed_payment_count + 1;
        status = SubscriptionStatus.past_due;
      } in
      let gone : Subscription Num = record s' {
        status = SubscriptionStatus.cancelled;
        canceled_at = some now;
      } in
      let limit = (db.plan_of s.plan_id w.plans).max_retry_attempts in
      let key = db.subscriptions.key-find_one id s w.subscriptions found in
      let saved = db.subscriptions.save s' w.subscriptions in
      let reload = db.subscriptions.find_one-save id s' w.subscriptions in
      let again = db.subscriptions.find_one-save id gone saved in
      let own = str_eq_iff s.merchant_id s.merchant_id in
      elim (Bool-cases (leb limit (s.failed_payment_count + 1))) [
        | inl over ↦ record {
          row = gone;
          stored = ground (arith, found, key, reload, again, own, over);
          counted = refl;
          same_plan = refl;
          same_period = refl;
          status = ground (arith, over);
          jobs = ground (arith, found, key, reload, again, own, over);
        }
        | inr under ↦ record {
          row = s';
          stored = ground (arith, found, key, reload, under);
          counted = refl;
          same_plan = refl;
          same_period = refl;
          status = ground (arith, under);
          jobs = ground (arith, found, key, reload, under);
        }
      ]

  failure-plans :
      (id : String) (now : ℕ) (w : World db)
      → (handle_payment_failure db id now w).1.plans ≡ w.plans
  unfolding handle_payment_failure cancel_subscription
  failure-plans id now w = ground arith

  Failed-trans :
      (id : String) (s : Subscription Num) (limit limit' c d d' : ℕ) (jobs : List Job)
      (u w : World db) (f : Failed id s limit c jobs u)
      → c ≤ d
      → limit' ≡ limit
      → d' ≡ d
      → Failed id f.row limit' d' u.payment_jobs w
      → Failed id s limit d jobs w
  Failed-trans id s limit limit' c d d' jobs u w f le e h g = record {
    row = g.row;
    stored = g.stored;
    counted = g.counted ∙ h;
    same_plan = cc (g.same_plan, f.same_plan);
    same_period = cc (g.same_period, f.same_period);
    status = ground (arith, g.status, e, h);
    jobs = ground (arith, g.jobs, f.jobs, le, e, h, keep-keep (other_job id) jobs);
  }

  -- Failed payments end a subscription: whatever its status, after one or more failures in a row it
  -- is CANCELLED and none of its payments waits, if its failures since the last success, counting
  -- these, are at least the `maxRetryAttempts` of its plan, and else it is PAST_DUE and its payments
  -- wait as before. Its plan and its period stay.
  pub failures-Failed :
      (id : String) (now : ℕ) (times : List ℕ) (w : World db) (s : Subscription Num)
      → find db id w ≡ some s
      → Failed id s
          (db.plan_of s.plan_id w.plans).max_retry_attempts
          (s.failed_payment_count + length (now ∷ times))
          w.payment_jobs
          (failures id (now ∷ times) w)
  unfolding failures
  failures-Failed id now [] w s found = failure-Failed id now w s found
  failures-Failed id now (next ∷ times) w s found =
      let limit = (db.plan_of s.plan_id w.plans).max_retry_attempts in
      let u = (handle_payment_failure db id now w).1 in
      let f = failure-Failed id now w s found in
      let g = failures-Failed id next times u f.row f.stored in
      let same : (db.plan_of f.row.plan_id u.plans).max_retry_attempts ≡ limit =
        cc (f.same_plan, failure-plans id now w) in
      Failed-trans id s limit (db.plan_of f.row.plan_id u.plans).max_retry_attempts
        (s.failed_payment_count + 1) (s.failed_payment_count + length (now ∷ next ∷ times))
        (f.row.failed_payment_count + length (next ∷ times)) w.payment_jobs u
        (failures id (next ∷ times) u) f (omega arith) same (omega (arith, f.counted)) g
