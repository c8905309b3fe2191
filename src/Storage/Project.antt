-- ===== src/Storage/Project.antt =====
-- store.py: `_project`, which writes an artifact's rows into the projection tables.
pub mod Columns
mod OneRow
mod Simple
mod Layers
mod Verifications
mod Threats
mod Dispatch
pub mod Frame
pub mod Appends
unfoldable pub use OneRow.*
unfoldable pub use Simple.*
unfoldable pub use Layers.*
unfoldable pub use Verifications.*
unfoldable pub use Threats.*
unfoldable pub use Dispatch.*
