-- ===== src/Split.antt =====
-- Payment splits: backend/src/payment-split.
pub mod Types
pub mod Validation
pub mod State
pub mod Create
pub mod Lifecycle
pub mod Distribute
pub mod Milestones
pub mod Calls
pub mod Moves
pub mod Outcomes
pub mod DistributionOutcomes
pub mod Creation
pub mod Refunds
mod Tests
mod RefundTests
