-- ===== src/Api.antt =====
-- services/api/src/lib.rs: the service in front of the store.
pub mod Shape
pub mod Records
pub mod Access
pub mod Limiter
mod Tests
