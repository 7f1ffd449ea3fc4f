-- ===== src/Kernel.antt =====
-- packages/security-kernel/crates/kernel-core.
pub mod Error
pub mod Limits
pub mod Evidence
pub mod Crypto
pub mod Auth
pub mod AccountState
pub mod Manifest
pub mod Generator
pub mod Recovery
pub mod Record
pub mod Secret
pub mod Session
pub mod Unlock
mod Tests
