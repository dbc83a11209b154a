-- ===== src/Subscription/Periods/PlanChanges.antt =====
-- A change of plan writes at most one invoice, which is for no period.
use paya.Prelude.{
  String, Option, none, some, ◌≡◌, refl, subst, sym, ◌∷◌, arith, str_eq, ◌||◌, get_or, Bool-cases,
  Option-cases, inl, inr,
}
use paya.Runtime.Action.{Result, ok, err, Result-cases}
use paya.Runtime.Number.{Number}
use paya.Subscription.Types.{Subscription, UpdateSubscriptionDto, Database, World}
use paya.Subscription.Invoices.{create_proration_invoice, proration_invoice}
use paya.Subscription.Changes.{
  Change, prorated_amount, change_plan, change_if_other, update_subscription,
}
use paya.Subscription.Periods.{
  Advance-refl, Advance-same, find, Quiet, Lawful-Quiet, Bills, no_invoice, without_period, Lawful,
  save-Advance,
}

module _ {Num : Type 0} (db : Database Num) where
  record SamePeriod (s s' : Subscription Num) : Type 0 where
    same_id : s'.subscription_id ≡ s.subscription_id
    same_start : s'.current_period_start ≡ s.current_period_start
    same_end : s'.current_period_end ≡ s.current_period_end
    same_next : s'.next_payment_at ≡ s.next_payment_at

  SamePeriod-of : Subscription Num → Result (Subscription Num) → Type 0
  SamePeriod-of s (err e) = Unit
  SamePeriod-of s (ok s') = SamePeriod s s'

  -- What a plan change leaves in memory and in the tables.
  record Planned (s : Subscription Num) (w : World db) (end : Result (Subscription Num) × World db)
      : Type 0 where
    subscriptions : end.1.subscriptions ≡ w.subscriptions
    bills : Bills db w end.1
    kept : SamePeriod-of s end.0

module _ (num : Number) (db : Database num.Num) where
  open num use {Num, of_ℕ, lt}

  change-Planned :
      (s : Subscription Num) (plan_id : String) (change : Change) (w : World db)
      → Planned db s w (change_plan num db s plan_id change w)
  unfolding change_plan create_proration_invoice SamePeriod-of
  change-Planned s plan_id change w = elim (Option-cases (db.plans.find_one plan_id w.plans)) [
    | inl lost ↦ record {
      subscriptions = ground (arith, lost);
      bills = no_invoice (ground (arith, lost));
      kept = ground (arith, lost);
    }
    | inr (new, found) ↦
        let old = db.plan_of s.plan_id w.plans in
        let amount = prorated_amount num db s old new change.now in
        elim (Bool-cases (lt (of_ℕ 0) amount)) [
          | inr free ↦ record {
            subscriptions = ground (arith, found, free);
            bills = no_invoice (ground (arith, found, free));
            kept = ground (arith, found, free);
          }
          | inl charged ↦
              let i = proration_invoice num s old new amount change.uuid change.invoice_now in
              elim (Option-cases (db.invoices.insert i w.invoices)) [
                | inl refused ↦ record {
                  subscriptions = ground (arith, found, charged, refused);
                  bills = no_invoice (ground (arith, found, charged, refused));
                  kept = ground (arith, found, charged, refused);
                }
                | inr (t, stored) ↦ record {
                  subscriptions = ground (arith, found, charged, stored);
                  bills = without_period i (ground (arith, found, charged, stored)) refl;
                  kept = ground (arith, found, charged, stored);
                }
              ]
        ]
  ]

  stay-Planned :
      (s : Subscription Num) (w : World db) (end : Result (Subscription Num) × World db)
      → end ≡ (ok s, w)
      → Planned db s w end
  unfolding SamePeriod-of
  stay-Planned s w end e = subst (Planned db s w) (sym e) (record {
    subscriptions = refl;
    bills = no_invoice refl;
    kept = record { same_id = refl; same_start = refl; same_end = refl; same_next = refl };
  })

  maybe-Planned :
      (plan_id : Option String) (s : Subscription Num) (change : Change) (w : World db)
      → Planned db s w (change_if_other num db plan_id s change w)
  maybe-Planned none s change w = stay-Planned s w (ok s, w) refl
  maybe-Planned (some id) s change w = elim (Bool-cases (str_eq id "" || str_eq id s.plan_id)) [
    | inl same ↦
        stay-Planned s w (change_if_other num db (some id) s change w) (ground (arith, same))
    | inr other ↦
        let e : change_if_other num db (some id) s change w ≡ change_plan num db s id change w =
          ground (arith, other) in
        subst (Planned db s w) (sym e) (change-Planned s id change w)
  ]

  tables-Lawful :
      (s : Subscription Num) (w : World db) (end : Result (Subscription Num) × World db)
      → Planned db s w end
      → Lawful db w end.1
  tables-Lawful s w end p = record {
    rows = λ j. rw p.subscriptions (Advance-refl (find db j w));
    bills = p.bills;
  }

  -- The save that follows a plan change.
  saved-Quiet :
      (id : String) (s s' u : Subscription Num) (w : World db)
      (end : Result (Subscription Num) × World db) (w' : World db)
      → find db id w ≡ some s
      → Planned db s w end
      → end.0 ≡ ok s'
      → SamePeriod db s' u
      → w'.subscriptions ≡ db.subscriptions.save u end.1.subscriptions
      → w'.invoices ≡ end.1.invoices
      → Quiet db end.1 w'
  unfolding SamePeriod-of
  saved-Quiet id s s' u w end w' found p changed q e f =
      let k : SamePeriod db s s' = subst (SamePeriod-of db s) changed p.kept in
      record {
        rows = λ j. rw e (
            save-Advance db id s u end.1.subscriptions (rw p.subscriptions found)
              (cc (k.same_id, q.same_id))
              (Advance-same s u (cc (k.same_start, q.same_start)) (cc (k.same_end, q.same_end))
                (cc (k.same_next, q.same_next)))
              j);
        same = f;
      }

  pub update-Lawful :
      (id merchant : String) (dto : UpdateSubscriptionDto) (change : Change) (w : World db)
      → Lawful db w (update_subscription num db id merchant dto change w).1
  unfolding update_subscription
  update-Lawful id merchant dto change w = elim (Option-cases (find db id w)) [
    | inl lost ↦ record {
      rows = λ j. ground (arith, lost, Advance-refl (find db j w));
      bills = no_invoice (ground (arith, lost));
    }
    | inr (s, found) ↦ elim (Bool-cases (str_eq s.merchant_id merchant)) [
      | inr foreign ↦ record {
        rows = λ j. ground (arith, found, foreign, Advance-refl (find db j w));
        bills = no_invoice (ground (arith, found, foreign));
      }
      | inl own ↦
          let planned = maybe-Planned dto.plan_id s change w in
          elim (Result-cases (change_if_other num db dto.plan_id s change w).0) [
            | inl (e, stopped) ↦
                subst (Lawful db w) (sym (ground (arith, found, own, stopped)))
                  (tables-Lawful s w (change_if_other num db dto.plan_id s change w) planned)
            | inr (s', changed) ↦
                let end = change_if_other num db dto.plan_id s change w in
                let u : Subscription Num = record s' {
                  cancel_at_period_end = get_or dto.cancel_at_period_end s'.cancel_at_period_end;
                  status = get_or dto.status s'.status;
                } in
                let w' : World db = record (end.1) {
                  subscriptions = db.subscriptions.save u end.1.subscriptions;
                  sent = ("subscription.updated", u) ∷ end.1.sent;
                } in
                subst (Lawful db w) (sym (ground (arith, found, own, changed))) (
                  Lawful-Quiet db w end.1 w' (tables-Lawful s w end planned) (
                    saved-Quiet id s s' u w end w' found planned changed
                      (record {
                        same_id = refl;
                        same_start = refl;
                        same_end = refl;
                        same_next = refl;
                      })
                      refl refl))
          ]
    ]
  ]
