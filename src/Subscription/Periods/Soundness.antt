-- ===== src/Subscription/Periods/Soundness.antt =====
-- No time is billed twice, as an invariant, and one step keeps it.
use paya.Prelude.{
  ◌≤◌, String, Bool, true, false, Option, none, some, ◌≡◌, subst, sym, ap, ◌∙◌, arith, str_eq,
  str_eq_iff, leb, ◌||◌, Bool-cases, Option-cases, inl, inr, ◌⊎◌,
}
use paya.Subscription.Types.{Subscription, SubscriptionInvoice, Database, World}
use paya.Subscription.Periods.{
  Period, period, current, Valid, Advance, Reached, Reached-Advance, find, find_invoice, Bills,
  no_invoice, without_period, for_period, Lawful,
}

-- One period ends before the other begins.
abbrev pub apart : Period → Period → Bool
apart p q = leb p.last q.first || leb q.last p.first

module _ {Num : Type 0} (db : Database Num) where
  -- The period of every subscription is in order and ends with its next payment. An invoice for a
  -- period is for one that has ended by the start of the current one, and two invoices of one
  -- subscription are for periods that do not overlap.
  pub record Sound (w : World db) : Type 0 where
    pub valid : (j : String) (s : Subscription Num) → find db j w ≡ some s → Valid s
    pub ended :
        (k : String) (i : SubscriptionInvoice Num) (p : Period)
        → find_invoice db k w ≡ some i
        → period i ≡ some p
        → Reached p.last (find db i.subscription_id w)
    pub disjoint :
        (k l : String) (a b : SubscriptionInvoice Num) (p q : Period)
        → find_invoice db k w ≡ some a
        → find_invoice db l w ≡ some b
        → str_eq k l ≡ false
        → a.subscription_id ≡ b.subscription_id
        → period a ≡ some p
        → period b ≡ some q
        → apart p q ≡ true

  -- The id of the invoice for a period that a step adds.
  added_id : {w w' : World db} → Bills db w w' → Option String
  added_id (no_invoice e) = none
  added_id (without_period i e p) = none
  added_id (for_period i s e p f r) = some i.invoice_id

  -- An invoice for a period that a step adds.
  record Added {w w' : World db} (bills : Bills db w w') (k : String) (i : SubscriptionInvoice Num)
      : Type 0 where
    id : added_id bills ≡ some k
    of : Subscription Num
    its_period : period i ≡ some (current of)
    its_subscription : find db i.subscription_id w ≡ some of
    reached : Valid of → Reached of.current_period_end (find db i.subscription_id w')

  -- Where an invoice of the next world comes from.
  invoice-cases :
      {w w' : World db} (bills : Bills db w w') (k : String) (i : SubscriptionInvoice Num)
      (p : Period)
      → find_invoice db k w' ≡ some i
      → period i ≡ some p
      → (find_invoice db k w ≡ some i) ⊎ Added bills k i
  unfolding added_id
  invoice-cases {w} {w'} (no_invoice e) k i p found q = inl (rw e at found)
  invoice-cases {w} {w'} (without_period n e none_p) k i p found q =
      elim (Bool-cases (str_eq n.invoice_id k)) [
        | inl hit ↦
            let same : n ≡ i =
              ground
                (arith, found, hit, db.invoices.find_one-insert k n w.invoices w'.invoices e) in
            let its : period n ≡ some p = subst (λ x. period x ≡ some p) (sym same) q in
            absurd (ground (arith, none_p, its))
        | inr miss ↦
            inl (
              ground (arith, found, miss, db.invoices.find_one-insert k n w.invoices w'.invoices e))
      ]
  invoice-cases {w} {w'} (for_period n s e np f r) k i p found q =
      elim (Bool-cases (str_eq n.invoice_id k)) [
        | inl hit ↦
            let same : n ≡ i =
              ground
                (arith, found, hit, db.invoices.find_one-insert k n w.invoices w'.invoices e) in
            let new : Added (for_period n s e np f r) k n = record {
              id = ap some ((str_eq_iff n.invoice_id k).0 hit);
              of = s;
              its_period = np;
              its_subscription = f;
              reached = r;
            } in
            inr (subst (Added (for_period n s e np f r) k) same new)
        | inr miss ↦
            inl (
              ground (arith, found, miss, db.invoices.find_one-insert k n w.invoices w'.invoices e))
      ]

  rows-Lawful :
      (w w' : World db)
      → Sound w
      → Lawful db w w'
      → (j : String) (s : Subscription Num) → find db j w' ≡ some s
      → Valid s
  rows-Lawful w w' sound step j s found = elim (Option-cases (find db j w)) [
    | inl new ↦ let a : Advance none (some s) = rw (new, found) at (step.rows j) in a
    | inr (r, old) ↦
        let a : Advance (some r) (some s) = rw (old, found) at (step.rows j) in
        (a (sound.valid j r old)).1
  ]

  ended-Lawful :
      (w w' : World db)
      → Sound w
      → Lawful db w w'
      → (k : String) (i : SubscriptionInvoice Num) (p : Period) → find_invoice db k w' ≡ some i
      → period i ≡ some p
      → Reached p.last (find db i.subscription_id w')
  ended-Lawful w w' sound step k i p found q = elim (invoice-cases step.bills k i p found q) [
    | inl old ↦
        Reached-Advance p.last (find db i.subscription_id w) (find db i.subscription_id w')
          (sound.ended k i p old q) (step.rows i.subscription_id)
    | inr new ↦
        let same : current new.of ≡ p = ground (arith, new.its_period, q) in
        subst (λ x. Reached x.last (find db i.subscription_id w')) same
          (new.reached (sound.valid i.subscription_id new.of new.its_subscription))
  ]

  -- The period of an older invoice ends before that of a new one begins.
  older-apart :
      (w : World db)
      → Sound w
      → (k : String) (a b : SubscriptionInvoice Num) (p q : Period) (s : Subscription Num)
      → find_invoice db k w ≡ some a
      → period a ≡ some p
      → a.subscription_id ≡ b.subscription_id
      → period b ≡ some q
      → period b ≡ some (current s)
      → find db b.subscription_id w ≡ some s
      → p.last ≤ q.first
  older-apart w sound k a b p q s found pa same pb new its =
      let here : find db a.subscription_id w ≡ some s = ap (λ j. find db j w) same ∙ its in
      let r : Reached p.last (some s) = rw here at (sound.ended k a p found pa) in
      let e : current s ≡ q = ground (arith, new, pb) in omega (arith, r.0, ap (λ x. x.first) e)

  disjoint-Lawful :
      (w w' : World db)
      → Sound w
      → Lawful db w w'
      → (k l : String) (a b : SubscriptionInvoice Num) (p q : Period)
      → find_invoice db k w' ≡ some a
      → find_invoice db l w' ≡ some b
      → str_eq k l ≡ false
      → a.subscription_id ≡ b.subscription_id
      → period a ≡ some p
      → period b ≡ some q
      → apart p q ≡ true
  disjoint-Lawful w w' sound step k l a b p q fa fb ne same pa pb =
      elim (invoice-cases step.bills k a p fa pa) [
        | inl old_a ↦ elim (invoice-cases step.bills l b q fb pb) [
          | inl old_b ↦ sound.disjoint k l a b p q old_a old_b ne same pa pb
          | inr new ↦ ground (
            arith,
            older-apart w sound k a b p q new.of old_a pa same pb new.its_period
                new.its_subscription,
          )
        ]
        | inr new ↦ elim (invoice-cases step.bills l b q fb pb) [
          | inl old_b ↦ ground (
            arith,
            older-apart w sound l b a q p new.of old_b pb (sym same) pa new.its_period
                new.its_subscription,
          )
          | inr newer ↦ absurd (ground (arith, new.id, newer.id, ne, str_eq_iff k l))
        ]
      ]

  pub Sound-Lawful : (w w' : World db) → Sound w → Lawful db w w' → Sound w'
  Sound-Lawful w w' sound step = record {
    valid = rows-Lawful w w' sound step;
    ended = ended-Lawful w w' sound step;
    disjoint = disjoint-Lawful w w' sound step;
  }
