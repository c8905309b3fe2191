-- ===== src/Storage/Store.antt =====
-- The methods of `Store` in v1/storage/store.py.
mod Defs
mod Valid
mod Preserve
mod Same
mod Body
pub mod Ingest
pub mod Retry
pub mod Registry
pub mod Registered
pub mod Keyed
pub mod Written
pub mod Reads
pub mod ReadOnly
pub mod RoundTrip
pub mod Found
pub mod Bootstrap
pub mod Migrated
unfoldable pub use Defs.*
pub use Valid.*
