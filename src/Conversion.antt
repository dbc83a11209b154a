-- ===== src/Conversion.antt =====
-- The conversion engine, backend/src/conversion-engine: the entity, risk management, and the service
-- that creates, executes, retries and cancels conversions over the services it calls.
pub mod Types
pub mod Risk
pub mod Services
pub mod Execution
pub mod Service
mod Tests
