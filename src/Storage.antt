-- ===== src/Storage.antt =====
-- src/traust_contracts/v1/storage/store.py and the SQL under storage/v1 that it runs.
pub mod Identity
pub mod Sql
pub mod Db
pub mod Exec
pub mod Values
pub mod Project
pub mod Store
