-- ===== src/Process.antt =====
-- What the scripts of the repository share: processes that a machine runs for them.
mod Defs
mod Rules
unfoldable pub use Defs.*
pub use Rules.*
