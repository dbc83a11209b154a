-- ===== src/Subscription/Periods.antt =====
-- What a request may do to the periods of the subscriptions and to the invoices for periods.
pub mod Handlers
pub mod Beginnings
pub mod Invoicing
pub mod PlanChanges
pub mod Soundness
pub mod Histories
use paya.Prelude.{
  ℕ, ◌≤◌, ◌<◌, String, Bool, true, false, Option, none, some, List, [], ◌∷◌, ◌≡◌, refl, arith,
  str_eq, str_eq_iff, leb, ◌||◌, if◌then◌else◌, Bool-cases, Option-cases, inl, inr,
}
use paya.Subscription.Types.{Subscription, SubscriptionInvoice, LineItem, Database, World}

pub record Period : Type 0 where
  pub first : ℕ
  pub last : ℕ

abbrev item_period : Option ℕ → Option ℕ → Option Period
item_period (some first) (some last) = some (record { first = first; last = last })
item_period _ _ = none

module _ {Num : Type 0} where
  -- The period that the first line of an invoice is for, if it names one.
  abbrev pub line_period : List (LineItem Num) → Option Period
  line_period [] = none
  line_period (item ∷ items) = item_period item.period_start item.period_end

  abbrev pub period : SubscriptionInvoice Num → Option Period
  period i = line_period i.line_items

  abbrev pub current : Subscription Num → Period
  current s = record { first = s.current_period_start; last = s.current_period_end }

  pub record Valid (s : Subscription Num) : Type 0 where
    pub forward : s.current_period_start < s.current_period_end
    pub next : s.next_payment_at ≡ some s.current_period_end

  -- A row before and after a request.
  abbrev pub Advance : Option (Subscription Num) → Option (Subscription Num) → Type 0
  Advance none none = Unit
  Advance none (some s') = Valid s'
  Advance (some s) none = ⊥
  Advance (some s) (some s') =
      Valid s → (s.current_period_start ≤ s'.current_period_start) × Valid s'

  pub Advance-refl : (found : Option (Subscription Num)) → Advance found found
  Advance-refl none = tt
  Advance-refl (some s) = λ v. (omega arith, v)

  pub Advance-trans : (a b c : Option (Subscription Num)) → Advance a b → Advance b c → Advance a c
  Advance-trans none none c h k = k
  Advance-trans none (some s) none h k = absurd k
  Advance-trans none (some s) (some t) h k = (k h).1
  Advance-trans (some r) none c h k = absurd h
  Advance-trans (some r) (some s) none h k = absurd k
  Advance-trans (some r) (some s) (some t) h k =
      λ v. let (le, v') = h v in (omega (arith, le, (k v').0), (k v').1)

  -- The period stays.
  pub Advance-same :
      (s s' : Subscription Num)
      → s'.current_period_start ≡ s.current_period_start
      → s'.current_period_end ≡ s.current_period_end
      → s'.next_payment_at ≡ s.next_payment_at
      → Advance (some s) (some s')
  Advance-same s s' e f g = λ v. (omega (arith, e), ground (arith, v.forward, v.next, e, f, g))

  -- The subscription is stored, and its period is in order and begins at `n` or later.
  abbrev pub Reached : ℕ → Option (Subscription Num) → Type 0
  Reached n none = ⊥
  Reached n (some s) = (n ≤ s.current_period_start) × Valid s

  pub Reached-Advance :
      (n : ℕ) (a b : Option (Subscription Num)) → Reached n a → Advance a b → Reached n b
  Reached-Advance n none b h k = absurd h
  Reached-Advance n (some s) none h k = absurd k
  Reached-Advance n (some s) (some t) h k = (omega (arith, h.0, (k h.1).0), (k h.1).1)

module _ {Num : Type 0} (db : Database Num) where
  abbrev pub find : String → World db → Option (Subscription Num)
  find j w = db.subscriptions.find_one j w.subscriptions

  abbrev pub find_invoice : String → World db → Option (SubscriptionInvoice Num)
  find_invoice k w = db.invoices.find_one k w.invoices

  -- The invoices that a request adds: at most one, and if it is for a period, then for the current
  -- one of its subscription, which ends.
  pub data Bills (w w' : World db) : Type 0 where
    no_invoice : w'.invoices ≡ w.invoices → Bills w w'
    without_period :
        (i : SubscriptionInvoice Num)
        → db.invoices.insert i w.invoices ≡ some w'.invoices
        → period i ≡ none
        → Bills w w'
    for_period :
        (i : SubscriptionInvoice Num) (s : Subscription Num)
        → db.invoices.insert i w.invoices ≡ some w'.invoices
        → period i ≡ some (current s)
        → find i.subscription_id w ≡ some s
        → (Valid s → Reached s.current_period_end (find i.subscription_id w'))
        → Bills w w'

  pub record Lawful (w w' : World db) : Type 0 where
    pub rows : (j : String) → Advance (find j w) (find j w')
    pub bills : Bills w w'

  -- A step without an invoice.
  pub record Quiet (w w' : World db) : Type 0 where
    pub rows : (j : String) → Advance (find j w) (find j w')
    pub same : w'.invoices ≡ w.invoices

  pub Lawful-of_Quiet : (w w' : World db) → Quiet w w' → Lawful w w'
  Lawful-of_Quiet w w' q = record { rows = q.rows; bills = no_invoice q.same }

  pub Quiet-refl : (w : World db) → Quiet w w
  Quiet-refl w = record { rows = λ j. Advance-refl (find j w); same = refl }

  pub Quiet-trans : (u v w : World db) → Quiet u v → Quiet v w → Quiet u w
  Quiet-trans u v w p q = record {
    rows = λ j. Advance-trans (find j u) (find j v) (find j w) (p.rows j) (q.rows j);
    same = cc (p.same, q.same);
  }

  Bills-Quiet : (u v w : World db) → Bills u v → Quiet v w → Bills u w
  Bills-Quiet u v w (no_invoice e) q = no_invoice (cc (e, q.same))
  Bills-Quiet u v w (without_period i e p) q = without_period i (cc (e, q.same)) p
  Bills-Quiet u v w (for_period i s e p f r) q = for_period i s (cc (e, q.same)) p f (λ x.
      Reached-Advance s.current_period_end (find i.subscription_id v) (find i.subscription_id w)
        (r x) (q.rows i.subscription_id))

  pub Lawful-Quiet : (u v w : World db) → Lawful u v → Quiet v w → Lawful u w
  Lawful-Quiet u v w p q = record {
    rows = λ j. Advance-trans (find j u) (find j v) (find j w) (p.rows j) (q.rows j);
    bills = Bills-Quiet u v w p.bills q;
  }

  -- A row that is saved in the place of `s`.
  pub save-Advance :
      (id : String) (s s' : Subscription Num) (t : db.subscriptions.Table)
      → db.subscriptions.find_one id t ≡ some s
      → s'.subscription_id ≡ s.subscription_id
      → Advance (some s) (some s')
      → (j : String)
      → Advance
          (db.subscriptions.find_one j t)
          (db.subscriptions.find_one j (db.subscriptions.save s' t))
  save-Advance id s s' t found same a j = elim (Bool-cases (str_eq s'.subscription_id j)) [
    | inl hit ↦
        let e : db.subscriptions.find_one j t ≡ some s = ground (
          arith,
          found,
          hit,
          same,
          db.subscriptions.key-find_one id s t found,
          str_eq_iff s.subscription_id id,
          str_eq_iff s'.subscription_id j,
        ) in
        rw (db.subscriptions.find_one-save j s' t, hit, e) a
    | inr miss ↦
        rw (db.subscriptions.find_one-save j s' t, miss)
          (Advance-refl (db.subscriptions.find_one j t))
  ]
