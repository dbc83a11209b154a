-- ===== src/Subscription/Tests.antt =====
-- The theorems on subscriptions at concrete tables, and runs of the service.
use paya.Prelude.{
  ℕ, ◌≤◌, ◌+◌, Option, none, some, true, false, List, [], ◌∷◌, ◌≡◌, refl, str_eq, str_eq_iff, arith,
  get_or,
}
use paya.Runtime.Calendar.{even_calendar}
use paya.Runtime.ListTable.{list_repository, lookup}
use paya.Runtime.WholeNumber.{whole_number}
use paya.Runtime.Text.{String-set}
use paya.Subscription.Types
use paya.Subscription.Plans.{calculate_next_billing_date}
use paya.Subscription.Create.{create_subscription}
use paya.Subscription.Changes.{pause_subscription, resume_subscription}
use paya.Subscription.Billing.{process_subscription_payment, handle_payment_failure}
use paya.Subscription.Invoices.{recurring_invoice, create_recurring_invoice}
use paya.Subscription.InvoiceStates.{
  InvoiceCall, run_invoice, mark_as_paid, void_invoice, refund_invoice,
}
use paya.Subscription.Repayments.{returned, refunds, payments, is_paid, refunds-le}
use paya.Subscription.Calls.{Call, run, run_all}
use paya.Subscription.Periods.{find_invoice}
use paya.Subscription.Periods.Soundness.{Sound}
use paya.Subscription.Periods.Histories.{Forwards, run_all-Sound}
use paya.Subscription.Payments.{Paid, process-Paid}
use paya.Subscription.Failures.{Failed, failures, failures-Failed}
use paya.Subscription.Pauses.{Resumed, pause-resume}

abbrev Num : Type 0
Num = Option ℕ

subscription_set : IsSet (Types.Subscription Num)
subscription_set = hlevel String-set

plan_set : IsSet (Types.SubscriptionPlan Num)
plan_set = hlevel String-set

invoice_set : IsSet (Types.SubscriptionInvoice Num)
invoice_set = hlevel String-set

abbrev plan : Types.SubscriptionPlan Num
plan = record {
  plan_id = "basic";
  merchant_id = "shop";
  name = "Basic";
  amount = some 10;
  currency = "XLM";
  billing_interval = Types.BillingInterval.daily;
  trial_period_days = none;
  max_retry_attempts = 2;
  prorate_on_upgrade = true;
  prorate_on_downgrade = true;
  status = Types.PlanStatus.active;
}

abbrev db : Types.Database Num
db = record {
  subscriptions = list_repository str_eq str_eq_iff (λ s. s.subscription_id) subscription_set;
  plans = list_repository str_eq str_eq_iff (λ p. p.plan_id) plan_set;
  invoices = list_repository str_eq str_eq_iff (λ i. i.invoice_id) invoice_set;
  plan_of = λ id t. get_or (lookup str_eq str_eq_iff (λ p. p.plan_id) plan_set id t) plan;
}

abbrev subscription : Types.Subscription Num
subscription = record {
  subscription_id = "s1";
  merchant_id = "shop";
  customer_id = "ann";
  customer_email = "ann@example.org";
  plan_id = "basic";
  status = Types.SubscriptionStatus.active;
  current_amount = some 10;
  currency = "XLM";
  trial_start = none;
  trial_end = none;
  current_period_start = 100;
  current_period_end = 200;
  cancel_at_period_end = false;
  cancel_at = none;
  canceled_at = none;
  paused_at = none;
  resume_at = none;
  billing_cycle_count = 0;
  failed_payment_count = 0;
  last_payment_at = none;
  next_payment_at = some 200;
}

abbrev empty : Types.World db
empty = record {
  subscriptions = [];
  plans = plan ∷ [];
  invoices = [];
  payment_jobs = [];
  trial_jobs = [];
  resume_jobs = [];
  sent = [];
}

abbrev world : Types.World db
world = record empty { subscriptions = subscription ∷ [] }

empty-Sound : Sound db empty
empty-Sound = record {
  valid = λ j s h. absurd (ground (arith, h));
  ended = λ k i p h q. absurd (ground (arith, h));
  disjoint = λ k l a b p q h g ne same pa pb. absurd (ground (arith, h));
}

abbrev dto : Types.CreateSubscriptionDto
dto = record {
  plan_id = "basic";
  customer_id = "ann";
  customer_email = "ann@example.org";
  trial_period = false;
  cancel_at_period_end = false;
}

abbrev history : List Call
history =
    Call.create "shop" dto "s1" 100 101
    ∷ Call.pause "s1" "shop" none 500 501
    ∷ Call.resume "s1" "shop" (some 900) 600 601
    ∷ Call.pay "s1" "i1" 700
    ∷ Call.failure "s1" 800
    ∷ []

history-Forwards : Forwards whole_number even_calendar db history empty
unfolding run create_subscription pause_subscription calculate_next_billing_date
history-Forwards = (tt, (tt, (λ s found. ground (arith, found), (tt, (tt, tt)))))

run_all-Sound_example : Sound db (run_all whole_number even_calendar db history empty)
run_all-Sound_example =
    run_all-Sound whole_number even_calendar db history empty empty-Sound history-Forwards

process-Paid_example :
    Paid db even_calendar "s1" "i1" 150 world
      (process_subscription_payment db even_calendar "s1" "i1" 150 world)
process-Paid_example = process-Paid db even_calendar "s1" "i1" 150 world

failures-Failed_example :
    Failed db "s1" subscription 2 2 [] (failures db "s1" (300 ∷ 400 ∷ []) world)
failures-Failed_example = failures-Failed db "s1" 300 (400 ∷ []) world subscription refl

pause-resume_example :
    Resumed db even_calendar "s1" 500 400 501 world subscription
      (resume_subscription db even_calendar "s1" "shop" none 500 501
        (pause_subscription db "s1" "shop" (some 450) 400 401 world).1).1
pause-resume_example =
    pause-resume db even_calendar "s1" (some 450) none 400 401 500 501 world subscription refl refl
      refl

abbrev invoice : Types.SubscriptionInvoice Num
invoice = record (recurring_invoice subscription plan "i1") { status = Types.InvoiceStatus.paid }

abbrev billed_world : Types.World db
billed_world = record world { invoices = invoice ∷ [] }

abbrev invoice_calls : List InvoiceCall
invoice_calls =
    InvoiceCall.refund "i1" none 300
    ∷ InvoiceCall.void "i1" none 301
    ∷ InvoiceCall.paid "i1" "hash" 302
    ∷ InvoiceCall.refund "i1" (some "again") 303
    ∷ []

refunds-le_example :
    refunds db "i1" invoice_calls billed_world
    ≤ payments db "i1" invoice_calls billed_world + is_paid (find_invoice db "i1" billed_world)
refunds-le_example = refunds-le db "i1" invoice_calls billed_world

refunded_twice : refunds db "i1" invoice_calls billed_world ≡ 2
unfolding returned run_invoice mark_as_paid void_invoice refund_invoice
refunded_twice = refl

-- The resumed period is billed, from its start to its end.
abbrev due : Option (Types.SubscriptionInvoice Num) → ℕ × ℕ
due none = (0, 0)
due (some i) = (i.due_date, get_or i.billing_cycle 0)

billed_after_resume :
    due (find_invoice db "i1" (run_all whole_number even_calendar db history empty)) ≡ (86400900, 1)
unfolding run run_all create_subscription pause_subscription resume_subscription
    process_subscription_payment create_recurring_invoice handle_payment_failure
    calculate_next_billing_date
billed_after_resume = refl
