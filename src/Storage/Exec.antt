-- ===== src/Storage/Exec.antt =====
-- store.py: the connection and its transactions. A method is an action that may raise; the
-- connection comes back beside the exception too.
mod Defs
pub mod Frame
pub mod Triples
pub mod Keeps
pub mod Atomic
pub mod Total
unfoldable pub use Defs.*
