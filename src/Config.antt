-- ===== src/Config.antt =====
-- packages/config/src: the settings of the services, the authorization plans, and the bootstrap plan.
pub mod Int
pub mod Map
pub mod Value
pub mod Generated
pub mod Resolved
pub mod Roles
pub mod Bootstrap
pub mod Tests
