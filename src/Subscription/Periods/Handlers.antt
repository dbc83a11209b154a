-- ===== src/Subscription/Periods/Handlers.antt =====
-- Each handler keeps the periods of the subscriptions in order.
use paya.Prelude.{
  ℕ, String, Bool, true, false, Option, some, refl, arith, ◌+◌, ◌∷◌, if◌then◌else◌, Option-cases,
  inl, inr,
}
use paya.Subscription.Types.{SubscriptionStatus, same_status, Subscription, Database, World}
use paya.Subscription.Changes.{paused, cancel_subscription, pause_subscription}
use paya.Subscription.Billing.{handle_payment_failure, handle_payment_success}
use paya.Subscription.Periods.{Advance-refl, Advance-same, find, Quiet, Quiet-trans, save-Advance}

module _ {Num : Type 0} (db : Database Num) where
  pub success-Quiet :
      (id : String) (now : ℕ) (w : World db) → Quiet db w (handle_payment_success db id now w).1
  unfolding handle_payment_success
  success-Quiet id now w = record {
    rows = λ j. elim (Option-cases (find db id w)) [
      | inl lost ↦ ground (arith, lost, Advance-refl (find db j w))
      | inr (s, found) ↦
          let s' : Subscription Num = record s {
            failed_payment_count = 0;
            last_payment_at = some now;
            status =
                if same_status s.status SubscriptionStatus.past_due
                then SubscriptionStatus.active
                else s.status;
          } in
          ground (
            arith,
            found,
            save-Advance db id s s' w.subscriptions found refl (Advance-same s s' refl refl refl) j,
          )
    ];
    same = ground arith;
  }

  cancelled : Subscription Num → Bool → ℕ → Subscription Num
  cancelled s true now = record s {
    cancel_at_period_end = true;
    cancel_at = some s.current_period_end;
  }
  cancelled s false now = record s { status = SubscriptionStatus.cancelled; canceled_at = some now }

  pub cancel-Quiet :
      (id merchant : String) (at_period_end : Bool) (now : ℕ) (w : World db)
      → Quiet db w (cancel_subscription db id merchant at_period_end now w).1
  unfolding cancel_subscription cancelled
  cancel-Quiet id merchant at_period_end now w = record {
    rows = λ j. elim (Option-cases (find db id w)) [
      | inl lost ↦ ground (arith, lost, Advance-refl (find db j w))
      | inr (s, found) ↦
          let s' = cancelled s at_period_end now in
          ground (
            arith,
            found,
            Advance-refl (find db j w),
            save-Advance db id s s' w.subscriptions found (ground arith)
                (Advance-same s s' (ground arith) (ground arith) (ground arith)) j,
          )
    ];
    same = ground arith;
  }

  pub pause-Quiet :
      (id merchant : String) (at : Option ℕ) (now later : ℕ) (w : World db)
      → Quiet db w (pause_subscription db id merchant at now later w).1
  unfolding pause_subscription
  pause-Quiet id merchant at now later w = record {
    rows = λ j. elim (Option-cases (find db id w)) [
      | inl lost ↦ ground (arith, lost, Advance-refl (find db j w))
      | inr (s, found) ↦
          let s' = paused s at now in
          ground (
            arith,
            found,
            Advance-refl (find db j w),
            save-Advance db id s s' w.subscriptions found refl (Advance-same s s' refl refl refl) j,
          )
    ];
    same = ground arith;
  }

  pub failure-Quiet :
      (id : String) (now : ℕ) (w : World db) → Quiet db w (handle_payment_failure db id now w).1
  unfolding handle_payment_failure
  failure-Quiet id now w = elim (Option-cases (find db id w)) [
    | inl lost ↦ record {
      rows = λ j. ground (arith, lost, Advance-refl (find db j w));
      same = ground (arith, lost);
    }
    | inr (s, found) ↦
        let s' : Subscription Num = record s {
          failed_payment_count = s.failed_payment_count + 1;
          status = SubscriptionStatus.past_due;
        } in
        let saved : World db = record w {
          subscriptions = db.subscriptions.save s' w.subscriptions;
          sent = ("subscription.payment_failed", s') ∷ w.sent;
        } in
        let first : Quiet db w saved = record {
          rows =
              save-Advance db id s s' w.subscriptions found refl (Advance-same s s' refl refl refl);
          same = refl;
        } in
        let both =
          Quiet-trans db w saved (cancel_subscription db id s.merchant_id false now saved).1 first
            (cancel-Quiet id s.merchant_id false now saved) in
        record {
          rows = λ j. ground (arith, found, first.rows j, both.rows j);
          same = ground (arith, found, both.same);
        }
  ]
