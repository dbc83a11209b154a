-- ===== src/Refund.antt =====
-- Refunds and disputes: backend/src/refund.
pub mod Types
pub mod State
pub mod Process
pub mod Create
pub mod Disputes
pub mod Calls
pub mod Payouts
pub mod Moves
pub mod Outcomes
pub mod DisputeOutcomes
mod Tests
