-- ===== src/Subscription/InvoiceStates.antt =====
-- The operations of backend/src/subscription/subscription-invoice.service.ts on stored invoices. The
-- arguments of type ℕ are the values of `new Date()` and `Date.now()`, in the order of their use.
use paya.Prelude.{ℕ, ◌+◌, String, not, Option, none, some, ◌||◌}
use paya.Runtime.Action.{
  Action, not_found, bad_request, pure, gets, or_throw, modify, throw_if, ◌>>=◌, ◌>>◌,
}
use paya.Subscription.Types.{
  InvoiceStatus, same_invoice_status, SubscriptionInvoice, Database, World,
}

-- The five operations as one type.
pub data InvoiceCall : Type 0 where
  processing : String → InvoiceCall
  paid : String → String → ℕ → InvoiceCall
  failed : String → String → ℕ → ℕ → InvoiceCall
  void : String → Option String → ℕ → InvoiceCall
  refund : String → Option String → ℕ → InvoiceCall

module _ {Num : Type 0} (db : Database Num) where
  abbrev pub get_invoice : String → Action (World db) (SubscriptionInvoice Num)
  get_invoice id = do
    found ← gets (λ w. db.invoices.find_one id w.invoices)
    or_throw found (not_found "Invoice not found")

  -- `return this.invoiceRepository.save(invoice)`
  abbrev pub save_invoice : SubscriptionInvoice Num → Action (World db) (SubscriptionInvoice Num)
  save_invoice i = modify (λ w. record w { invoices = db.invoices.save i w.invoices }) >> pure i

  unfoldable pub mark_as_processing : String → Action (World db) (SubscriptionInvoice Num)
  mark_as_processing id = do
    invoice ← get_invoice id
    throw_if (not (same_invoice_status invoice.status InvoiceStatus.pending))
        (bad_request "Invoice is not in pending status")
    save_invoice (record invoice { status = InvoiceStatus.processing })

  unfoldable pub mark_as_paid : String → String → ℕ → Action (World db) (SubscriptionInvoice Num)
  mark_as_paid id transaction_hash now = do
    invoice ← get_invoice id
    save_invoice (record invoice {
      status = InvoiceStatus.paid;
      paid_at = some now;
      transaction_hash = some transaction_hash;
      retry_count = 0;
      next_retry_at = none;
    })

  unfoldable pub mark_as_failed :
      String → String → ℕ → ℕ → Action (World db) (SubscriptionInvoice Num)
  mark_as_failed id error_message now later = do
    invoice ← get_invoice id
    save_invoice (record invoice {
      status = InvoiceStatus.failed;
      failed_at = some now;
      error_message = some error_message;
      retry_count = invoice.retry_count + 1;
      next_retry_at = some (later + 86400000);
    })

  unfoldable pub void_invoice :
      String → Option String → ℕ → Action (World db) (SubscriptionInvoice Num)
  void_invoice id reason now = do
    invoice ← get_invoice id
    throw_if
        (same_invoice_status invoice.status InvoiceStatus.paid
          || same_invoice_status invoice.status InvoiceStatus.refunded)
        (bad_request "Cannot void a paid or refunded invoice")
    save_invoice
        (record invoice { status = InvoiceStatus.void; voided_at = some now; void_reason = reason })

  unfoldable pub refund_invoice :
      String → Option String → ℕ → Action (World db) (SubscriptionInvoice Num)
  refund_invoice id reason now = do
    invoice ← get_invoice id
    throw_if (not (same_invoice_status invoice.status InvoiceStatus.paid))
        (bad_request "Can only refund paid invoices")
    save_invoice (record invoice {
      status = InvoiceStatus.refunded;
      refunded_at = some now;
      refund_reason = reason;
    })

  unfoldable pub run_invoice : InvoiceCall → Action (World db) (SubscriptionInvoice Num)
  run_invoice (InvoiceCall.processing id) = mark_as_processing id
  run_invoice (InvoiceCall.paid id hash now) = mark_as_paid id hash now
  run_invoice (InvoiceCall.failed id message now later) = mark_as_failed id message now later
  run_invoice (InvoiceCall.void id reason now) = void_invoice id reason now
  run_invoice (InvoiceCall.refund id reason now) = refund_invoice id reason now
