-- ===== src/Storage/Db.antt =====
-- The tables that storage/v1/sqlite/schema declares and the statements of storage/v1/*/queries that
-- store.py executes on them. A timestamp is the reading of the clock that it was written at.
mod Rows
mod Statements
mod Registry
pub mod Lookups
unfoldable pub use Rows.*
unfoldable pub use Statements.*
unfoldable pub use Registry.*
