-- ===== src/Webhook.antt =====
-- Webhook delivery: backend/src/webhook.
pub mod RateLimit
pub mod Bursts
pub mod Types
pub mod Delivery
pub mod Settlement
pub mod Queue
pub mod Service
pub mod Requeues
pub mod Triggers
pub mod Replays
mod Tests
mod QueueTests
mod ServiceTests
