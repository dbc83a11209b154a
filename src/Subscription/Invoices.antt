-- ===== src/Subscription/Invoices.antt =====
-- `createRecurringInvoice` and `createProrationInvoice` of
-- backend/src/subscription/subscription-invoice.service.ts.
use Prim.Native.String.{◌++◌ as str_append}
use paya.Prelude.{ℕ, ◌+◌, String, none, some, [], ◌∷◌}
use paya.Runtime.Action.{Action}
use paya.Runtime.Number.{Number}
use paya.Subscription.Types.{
  BillingInterval, InvoiceStatus, InvoiceType, Subscription, SubscriptionPlan, LineItem,
  ProrationDetails, SubscriptionInvoice, Database, World,
}
use paya.Subscription.State.{insert_invoice}

abbrev interval_text : BillingInterval → String
interval_text BillingInterval.daily = "DAILY"
interval_text BillingInterval.weekly = "WEEKLY"
interval_text BillingInterval.monthly = "MONTHLY"
interval_text BillingInterval.yearly = "YEARLY"

module _ {Num : Type 0} where
  abbrev pub recurring_invoice :
      Subscription Num → SubscriptionPlan Num → String → SubscriptionInvoice Num
  recurring_invoice s plan uuid =
      let item : LineItem Num = record {
        description =
            str_append plan.name
              (str_append " - " (str_append (interval_text plan.billing_interval) " subscription"));
        quantity = 1;
        unit_price = s.current_amount;
        amount = s.current_amount;
        period_start = some s.current_period_start;
        period_end = some s.current_period_end;
      } in
      record {
        invoice_id = uuid;
        subscription_id = s.subscription_id;
        merchant_id = s.merchant_id;
        customer_id = s.customer_id;
        plan_id = s.plan_id;
        status = InvoiceStatus.pending;
        invoice_type = InvoiceType.recurring;
        subtotal = s.current_amount;
        total = s.current_amount;
        currency = s.currency;
        due_date = s.current_period_end;
        line_items = item ∷ [];
        proration_details = none;
        billing_cycle = some (s.billing_cycle_count + 1);
        void_reason = none;
        refund_reason = none;
        paid_at = none;
        failed_at = none;
        voided_at = none;
        refunded_at = none;
        retry_count = 0;
        next_retry_at = none;
        error_message = none;
        transaction_hash = none;
      }

  unfoldable pub create_recurring_invoice :
      (db : Database Num)
      → Subscription Num
      → SubscriptionPlan Num
      → String
      → Action (World db) (SubscriptionInvoice Num)
  create_recurring_invoice db s plan uuid = insert_invoice db (recurring_invoice s plan uuid)

module _ (num : Number) where
  open num use {Num, div}

  -- `now` is `Date.now()`.
  abbrev pub proration_invoice :
      Subscription Num
      → SubscriptionPlan Num
      → SubscriptionPlan Num
      → Num
      → String
      → ℕ
      → SubscriptionInvoice Num
  proration_invoice s old_plan new_plan prorated_amount uuid now =
      let item : LineItem Num = record {
        description =
            str_append "Plan change: " (
              str_append old_plan.name (str_append " → " (str_append new_plan.name " (prorated)")));
        quantity = 1;
        unit_price = prorated_amount;
        amount = prorated_amount;
        period_start = none;
        period_end = none;
      } in
      let details : ProrationDetails Num = record {
        previous_plan_id = old_plan.plan_id;
        new_plan_id = new_plan.plan_id;
        proration_ratio = div prorated_amount new_plan.amount;
        prorated_amount = prorated_amount;
      } in
      record {
        invoice_id = uuid;
        subscription_id = s.subscription_id;
        merchant_id = s.merchant_id;
        customer_id = s.customer_id;
        plan_id = new_plan.plan_id;
        status = InvoiceStatus.pending;
        invoice_type = InvoiceType.proration;
        subtotal = prorated_amount;
        total = prorated_amount;
        currency = s.currency;
        due_date = now + 86400000;
        line_items = item ∷ [];
        proration_details = some details;
        billing_cycle = none;
        void_reason = none;
        refund_reason = none;
        paid_at = none;
        failed_at = none;
        voided_at = none;
        refunded_at = none;
        retry_count = 0;
        next_retry_at = none;
        error_message = none;
        transaction_hash = none;
      }

  unfoldable pub create_proration_invoice :
      (db : Database Num)
      → Subscription Num
      → SubscriptionPlan Num
      → SubscriptionPlan Num
      → Num
      → String
      → ℕ
      → Action (World db) (SubscriptionInvoice Num)
  create_proration_invoice db s old_plan new_plan prorated_amount uuid now =
      insert_invoice db (proration_invoice s old_plan new_plan prorated_amount uuid now)
