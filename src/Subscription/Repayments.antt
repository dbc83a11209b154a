-- ===== src/Subscription/Repayments.antt =====
-- How often an invoice is refunded.
use paya.Prelude.{
  ℕ, ◌+◌, ◌≤◌, String, Bool, true, false, Option, none, some, List, [], ◌∷◌, ◌≡◌, refl, ap, sym,
  arith, str_eq, str_eq_iff, ◌&&◌, if◌then◌else◌, Option-cases, inl, inr,
}
use paya.Runtime.Action.{is_ok}
use paya.Subscription.Types.{
  InvoiceStatus, same_invoice_status, SubscriptionInvoice, Database, World,
}
use paya.Subscription.Periods.{find_invoice}
use paya.Subscription.InvoiceStates.{
  InvoiceCall, mark_as_processing, mark_as_paid, mark_as_failed, void_invoice, refund_invoice,
  run_invoice,
}

abbrev names_refund : String → InvoiceCall → Bool
names_refund k (InvoiceCall.refund id reason now) = str_eq id k
names_refund k _ = false

abbrev names_payment : String → InvoiceCall → Bool
names_payment k (InvoiceCall.paid id hash now) = str_eq id k
names_payment k _ = false

module _ {Num : Type 0} where
  abbrev pub is_paid : Option (SubscriptionInvoice Num) → ℕ
  is_paid none = 0
  is_paid (some i) = if same_invoice_status i.status InvoiceStatus.paid then 1 else 0

module _ {Num : Type 0} (db : Database Num) where
  -- How many calls of a list that `test` accepts return.
  unfoldable pub returned : (InvoiceCall → Bool) → List InvoiceCall → World db → ℕ
  returned test [] w = 0
  returned test (c ∷ cs) w =
      let (r, w') = run_invoice db c w in (if test c && is_ok r then 1 else 0) + returned test cs w'

  abbrev pub refunds : String → List InvoiceCall → World db → ℕ
  refunds k = returned (names_refund k)

  abbrev pub payments : String → List InvoiceCall → World db → ℕ
  payments k = returned (names_payment k)

  -- The row of `k` when the row `i` of `id` is replaced.
  saved :
      (k id : String) (i i' : SubscriptionInvoice Num) (w : World db)
      → find_invoice db id w ≡ some i
      → i'.invoice_id ≡ i.invoice_id
      → is_paid (db.invoices.find_one k (db.invoices.save i' w.invoices))
        ≡ (if str_eq id k then is_paid (some i') else is_paid (find_invoice db k w))
  saved k id i i' w found same = ground (
    arith,
    found,
    same,
    db.invoices.key-find_one id i w.invoices found,
    db.invoices.find_one-save k i' w.invoices,
    str_eq_iff i.invoice_id id,
  )

  found-paid :
      (k id : String) (w : World db)
      → str_eq id k ≡ true
      → is_paid (find_invoice db k w) ≡ is_paid (find_invoice db id w)
  found-paid k id w hit = ap (λ x. is_paid (find_invoice db x w)) (sym ((str_eq_iff id k).0 hit))

  step :
      (k : String) (c : InvoiceCall) (w : World db)
      → let (r, w') = run_invoice db c w in
        (if names_refund k c && is_ok r then 1 else 0) + is_paid (find_invoice db k w')
        ≤ (if names_payment k c && is_ok r then 1 else 0) + is_paid (find_invoice db k w)
  unfolding run_invoice mark_as_processing mark_as_paid mark_as_failed void_invoice refund_invoice
  step k (InvoiceCall.processing id) w = elim (Option-cases (find_invoice db id w)) [
    | inl lost ↦ ground (arith, lost)
    | inr (i, found) ↦
        let i' : SubscriptionInvoice Num = record i { status = InvoiceStatus.processing } in
        ground (arith, found, saved k id i i' w found refl)
  ]
  step k (InvoiceCall.paid id hash now) w = elim (Option-cases (find_invoice db id w)) [
    | inl lost ↦ ground (arith, lost)
    | inr (i, found) ↦
        let i' : SubscriptionInvoice Num = record i {
          status = InvoiceStatus.paid;
          paid_at = some now;
          transaction_hash = some hash;
          retry_count = 0;
          next_retry_at = none;
        } in
        ground (arith, found, saved k id i i' w found refl)
  ]
  step k (InvoiceCall.failed id message now later) w = elim (Option-cases (find_invoice db id w)) [
    | inl lost ↦ ground (arith, lost)
    | inr (i, found) ↦
        let i' : SubscriptionInvoice Num = record i {
          status = InvoiceStatus.failed;
          failed_at = some now;
          error_message = some message;
          retry_count = i.retry_count + 1;
          next_retry_at = some (later + 86400000);
        } in
        ground (arith, found, saved k id i i' w found refl)
  ]
  step k (InvoiceCall.void id reason now) w = elim (Option-cases (find_invoice db id w)) [
    | inl lost ↦ ground (arith, lost)
    | inr (i, found) ↦
        let i' : SubscriptionInvoice Num = record i {
          status = InvoiceStatus.void;
          voided_at = some now;
          void_reason = reason;
        } in
        ground (arith, found, saved k id i i' w found refl)
  ]
  step k (InvoiceCall.refund id reason now) w = elim (Option-cases (find_invoice db id w)) [
    | inl lost ↦ ground (arith, lost)
    | inr (i, found) ↦
        let i' : SubscriptionInvoice Num = record i {
          status = InvoiceStatus.refunded;
          refunded_at = some now;
          refund_reason = reason;
        } in
        ground (arith, found, saved k id i i' w found refl, found-paid k id w)
  ]

  -- Over any list of operations on invoices, an invoice is refunded at most as often as it is marked
  -- as paid, and once more if it was PAID before.
  pub refunds-le :
      (k : String) (cs : List InvoiceCall) (w : World db)
      → refunds k cs w ≤ payments k cs w + is_paid (find_invoice db k w)
  unfolding returned
  refunds-le k [] w = omega arith
  refunds-le k (c ∷ cs) w = omega (arith, step k c w, refunds-le k cs (run_invoice db c w).1)
