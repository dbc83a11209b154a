-- ===== src/Auth.antt =====
-- backend/src/auth: accounts, and the refresh and reset tokens of auth.service.ts.
pub mod Types
pub mod Service
pub mod Sessions
pub mod Resets
pub mod Revocations
pub mod Keeping
pub mod Histories
pub mod Tests
