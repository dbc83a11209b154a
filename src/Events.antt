-- ===== src/Events.antt =====
-- The event store: backend/src/event-sourcing/services/event-store.service.ts.
pub mod Types
pub mod Append
pub mod Versions
pub mod Interleaving
pub mod Sequential
pub mod Batches
pub mod Read
pub mod Snapshots
pub mod Subscribe
pub mod Replay
pub mod Examples
mod Tests
mod ReplayTests
mod SnapshotTests
