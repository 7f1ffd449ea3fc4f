-- ===== src/Storage.antt =====
-- packages/storage.
pub mod Port
pub mod Assoc
pub mod Memory
pub mod Interface
pub mod Sql
pub mod Sqlite
pub mod Postgres
