-- ===== src/Subscription.antt =====
-- backend/src/subscription: subscriptions, their billing and their plans.
pub mod Types
pub mod State
pub mod Plans
pub mod Invoices
pub mod InvoiceStates
pub mod Repayments
pub mod Create
pub mod Changes
pub mod Billing
pub mod Calls
pub mod Periods
pub mod Payments
pub mod Failures
pub mod Pauses
mod Tests
