-- ===== src/Storage/Sql.antt =====
-- v1/sql.py and v1/storage/sql.py: the order of the bootstrap files, the statements of a file, and
-- the migration files between two revisions.
mod Defs
pub mod Names
pub mod Order
pub mod Statements
unfoldable pub use Defs.*
