-- ===== src/Subscription/Periods/Invoicing.antt =====
-- The handlers that write invoices: payments and changes of plan.
use paya.Prelude.{
  ℕ, String, true, false, none, some, ◌≡◌, refl, ap, ◌∙◌, sym, subst, arith, str_eq_iff, Bool-cases,
  Option-cases, inl, inr,
}
use paya.Runtime.Calendar.{Calendar}
use paya.Subscription.Types.{Subscription, Database, World}
use paya.Subscription.Plans.{next_billing_date-lt}
use paya.Subscription.Invoices.{recurring_invoice, create_recurring_invoice}
use paya.Subscription.Billing.{
  next_cycle, is_inactive, cancel_or_schedule, process_subscription_payment,
}
use paya.Subscription.Periods.{
  Advance-refl, find, Quiet, Quiet-refl, Lawful, Lawful-Quiet, Lawful-of_Quiet, for_period,
  save-Advance,
}
use paya.Subscription.Periods.Handlers.{cancel-Quiet}

module _ {Num : Type 0} (db : Database Num) (calendar : Calendar) where
  cancel_or_schedule-Quiet :
      (id : String) (s : Subscription Num) (now : ℕ) (w : World db)
      → Quiet db w (cancel_or_schedule db id s now w).1
  cancel_or_schedule-Quiet id s now w = elim (Bool-cases s.cancel_at_period_end) [
    | inl ends ↦
        let q = cancel-Quiet db id s.merchant_id false now w in
        record { rows = λ j. ground (arith, ends, q.rows j); same = ground (arith, ends, q.same) }
    | inr goes ↦ record {
      rows = λ j. ground (arith, goes, Advance-refl (find db j w));
      same = ground (arith, goes);
    }
  ]

  -- A payment, up to the next cycle.
  abbrev pub billed : Subscription Num → db.invoices.Table → World db → World db
  billed s t w =
      let plan = db.plan_of s.plan_id w.plans in
      record w {
        invoices = t;
        subscriptions = db.subscriptions.save (next_cycle calendar plan s) w.subscriptions;
      }

  billed-Lawful :
      (id uuid : String) (s : Subscription Num) (t : db.invoices.Table) (w : World db)
      → find db id w ≡ some s
      → db.invoices.insert (recurring_invoice s (db.plan_of s.plan_id w.plans) uuid) w.invoices
        ≡ some t
      → Lawful db w (billed s t w)
  billed-Lawful id uuid s t w found stored =
      let plan = db.plan_of s.plan_id w.plans in
      let s' = next_cycle calendar plan s in
      let same_id : s.subscription_id ≡ id =
        (str_eq_iff s.subscription_id id).0
          (db.subscriptions.key-find_one id s w.subscriptions found) in
      record {
        rows = save-Advance db id s s' w.subscriptions found refl (λ v.
            let next = next_billing_date-lt calendar s.current_period_end plan.billing_interval in
            (omega (arith, v.forward), record { forward = next; next = refl }));
        bills =
            for_period (recurring_invoice s plan uuid) s stored refl
              (ap (λ j. find db j w) same_id ∙ found)
              (λ v. ground (
                arith,
                db.subscriptions.find_one-save s.subscription_id s' w.subscriptions,
                str_eq_iff s.subscription_id s.subscription_id,
                v.forward,
                next_billing_date-lt calendar s.current_period_end plan.billing_interval,
              ));
      }

  abbrev pub pay : String → String → ℕ → World db → World db
  pay id uuid now w = (process_subscription_payment db calendar id uuid now w).1

  pub pay-lost :
      (id uuid : String) (now : ℕ) (w : World db) → find db id w ≡ none → pay id uuid now w ≡ w
  unfolding process_subscription_payment
  pay-lost id uuid now w lost = ground (arith, lost)

  pub pay-inactive :
      (id uuid : String) (now : ℕ) (w : World db) (s : Subscription Num)
      → find db id w ≡ some s
      → is_inactive s ≡ true
      → pay id uuid now w ≡ w
  unfolding process_subscription_payment
  pay-inactive id uuid now w s found inactive = ground (arith, found, inactive)

  pub pay-refused :
      (id uuid : String) (now : ℕ) (w : World db) (s : Subscription Num)
      → find db id w ≡ some s
      → db.invoices.insert (recurring_invoice s (db.plan_of s.plan_id w.plans) uuid) w.invoices
        ≡ none
      → pay id uuid now w ≡ w
  unfolding process_subscription_payment create_recurring_invoice
  pay-refused id uuid now w s found refused = ground (arith, found, refused)

  pub pay-billed :
      (id uuid : String) (now : ℕ) (w : World db) (s : Subscription Num) (t : db.invoices.Table)
      → find db id w ≡ some s
      → is_inactive s ≡ false
      → db.invoices.insert (recurring_invoice s (db.plan_of s.plan_id w.plans) uuid) w.invoices
        ≡ some t
      → pay id uuid now w
        ≡ (cancel_or_schedule db id
            (next_cycle calendar (db.plan_of s.plan_id w.plans) s)
            now
            (billed s t w)).1
  unfolding process_subscription_payment create_recurring_invoice
  pay-billed id uuid now w s t found live stored = ground (arith, found, live, stored)

  unchanged-Lawful : (w w' : World db) → w' ≡ w → Lawful db w w'
  unchanged-Lawful w w' e = subst (Lawful db w) (sym e) (Lawful-of_Quiet db w w (Quiet-refl db w))

  pub process-Lawful : (id uuid : String) (now : ℕ) (w : World db) → Lawful db w (pay id uuid now w)
  process-Lawful id uuid now w = elim (Option-cases (find db id w)) [
    | inl lost ↦ unchanged-Lawful w (pay id uuid now w) (pay-lost id uuid now w lost)
    | inr (s, found) ↦
        let plan = db.plan_of s.plan_id w.plans in
        elim (Option-cases (db.invoices.insert (recurring_invoice s plan uuid) w.invoices)) [
          | inl refused ↦
              unchanged-Lawful w (pay id uuid now w) (pay-refused id uuid now w s found refused)
          | inr (t, stored) ↦ elim (Bool-cases (is_inactive s)) [
            | inl inactive ↦
                unchanged-Lawful w (pay id uuid now w) (pay-inactive id uuid now w s found inactive)
            | inr live ↦
                let next = next_cycle calendar plan s in
                subst (Lawful db w) (sym (pay-billed id uuid now w s t found live stored)) (
                  Lawful-Quiet db w (billed s t w)
                    (cancel_or_schedule db id next now (billed s t w)).1
                    (billed-Lawful id uuid s t w found stored)
                    (cancel_or_schedule-Quiet id next now (billed s t w)))
          ]
        ]
  ]
