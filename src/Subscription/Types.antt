-- ===== src/Subscription/Types.antt =====
-- The entities and requests of backend/src/subscription, over any type of amounts. The generated
-- primary keys, `createdAt`, `updatedAt`, columns that no handler reads or writes, and `metadata` and
-- `customFields`, which are only passed on, are left out. Texts of dates in requests are taken as the
-- dates that they name.
use paya.Prelude.{ℕ, Bool, String, Option, List, str_eq, ◌==◌}
use paya.Runtime.Repository.{Repository}

pub data SubscriptionStatus : Type 0 where
  active trialing past_due cancelled paused completed : SubscriptionStatus

pub data BillingInterval : Type 0 where
  daily weekly monthly yearly : BillingInterval

pub data PlanStatus : Type 0 where
  active inactive archived : PlanStatus

pub data InvoiceStatus : Type 0 where
  draft pending processing paid failed void refunded : InvoiceStatus

pub data InvoiceType : Type 0 where
  recurring proration usage_based one_time : InvoiceType

-- `===` on the members of an enum, by their position.
abbrev status_rank : SubscriptionStatus → ℕ
status_rank SubscriptionStatus.active = 0
status_rank SubscriptionStatus.trialing = 1
status_rank SubscriptionStatus.past_due = 2
status_rank SubscriptionStatus.cancelled = 3
status_rank SubscriptionStatus.paused = 4
status_rank SubscriptionStatus.completed = 5

abbrev invoice_rank : InvoiceStatus → ℕ
invoice_rank InvoiceStatus.draft = 0
invoice_rank InvoiceStatus.pending = 1
invoice_rank InvoiceStatus.processing = 2
invoice_rank InvoiceStatus.paid = 3
invoice_rank InvoiceStatus.failed = 4
invoice_rank InvoiceStatus.void = 5
invoice_rank InvoiceStatus.refunded = 6

abbrev pub same_invoice_status : InvoiceStatus → InvoiceStatus → Bool
same_invoice_status a b = invoice_rank a == invoice_rank b

abbrev pub same_status : SubscriptionStatus → SubscriptionStatus → Bool
same_status a b = status_rank a == status_rank b

pub record Subscription (Num : Type 0) : Type 0 where
  pub subscription_id : String
  pub merchant_id : String
  pub customer_id : String
  pub customer_email : String
  pub plan_id : String
  pub status : SubscriptionStatus
  pub current_amount : Num
  pub currency : String
  pub trial_start : Option ℕ
  pub trial_end : Option ℕ
  pub current_period_start : ℕ
  pub current_period_end : ℕ
  pub cancel_at_period_end : Bool
  pub cancel_at : Option ℕ
  pub canceled_at : Option ℕ
  pub paused_at : Option ℕ
  pub resume_at : Option ℕ
  pub billing_cycle_count : ℕ
  pub failed_payment_count : ℕ
  pub last_payment_at : Option ℕ
  pub next_payment_at : Option ℕ

pub record SubscriptionPlan (Num : Type 0) : Type 0 where
  pub plan_id : String
  pub merchant_id : String
  pub name : String
  pub amount : Num
  pub currency : String
  pub billing_interval : BillingInterval
  pub trial_period_days : Option ℕ
  pub max_retry_attempts : ℕ
  pub prorate_on_upgrade : Bool
  pub prorate_on_downgrade : Bool
  pub status : PlanStatus

pub record LineItem (Num : Type 0) : Type 0 where
  pub description : String
  pub quantity : ℕ
  pub unit_price : Num
  pub amount : Num
  pub period_start : Option ℕ
  pub period_end : Option ℕ

pub record ProrationDetails (Num : Type 0) : Type 0 where
  pub previous_plan_id : String
  pub new_plan_id : String
  pub proration_ratio : Num
  pub prorated_amount : Num

-- `billing_cycle`, `void_reason` and `refund_reason` are the fields of the `metadata` of an invoice.
pub record SubscriptionInvoice (Num : Type 0) : Type 0 where
  pub invoice_id : String
  pub subscription_id : String
  pub merchant_id : String
  pub customer_id : String
  pub plan_id : String
  pub status : InvoiceStatus
  pub invoice_type : InvoiceType
  pub subtotal : Num
  pub total : Num
  pub currency : String
  pub due_date : ℕ
  pub line_items : List (LineItem Num)
  pub proration_details : Option (ProrationDetails Num)
  pub billing_cycle : Option ℕ
  pub void_reason : Option String
  pub refund_reason : Option String
  pub paid_at : Option ℕ
  pub failed_at : Option ℕ
  pub voided_at : Option ℕ
  pub refunded_at : Option ℕ
  pub retry_count : ℕ
  pub next_retry_at : Option ℕ
  pub error_message : Option String
  pub transaction_hash : Option String

-- `planId`, `customerId`, `customerEmail`, `trialPeriod`, `cancelAtPeriodEnd`
pub record CreateSubscriptionDto : Type 0 where
  pub plan_id : String
  pub customer_id : String
  pub customer_email : String
  pub trial_period : Bool
  pub cancel_at_period_end : Bool

pub record UpdateSubscriptionDto : Type 0 where
  pub plan_id : Option String
  pub status : Option SubscriptionStatus
  pub cancel_at_period_end : Option Bool

-- A job of a queue that is waiting or delayed.
pub record Job : Type 0 where
  pub subscription_id : String
  pub delay : ℕ

-- `plan_of` is the row that `relations: ['plan']` loads for a `planId`: a foreign key keeps it from
-- being missing.
pub record Database (Num : Type 0) : Type 1 where
  pub subscriptions : Repository String (Subscription Num) str_eq (λ s. s.subscription_id)
  pub plans : Repository String (SubscriptionPlan Num) str_eq (λ p. p.plan_id)
  pub invoices : Repository String (SubscriptionInvoice Num) str_eq (λ i. i.invoice_id)
  pub plan_of : String → plans.Table → SubscriptionPlan Num

-- The tables, the three queues of the scheduler, and the events that were sent, the newest first.
pub record World {Num : Type 0} (db : Database Num) : Type 0 where
  pub subscriptions : db.subscriptions.Table
  pub plans : db.plans.Table
  pub invoices : db.invoices.Table
  pub payment_jobs : List Job
  pub trial_jobs : List Job
  pub resume_jobs : List Job
  pub sent : List (String × Subscription Num)
