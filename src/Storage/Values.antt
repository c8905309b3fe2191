-- ===== src/Storage/Values.antt =====
-- store.py: the conversions between JSON values and column values.
mod Defs
pub mod Laws
unfoldable pub use Defs.*
