-- ===== src/Storage/Identity.antt =====
-- store.py: the binding dataclass, the checks of caller strings, and the bytes of a binding's
-- identity, over which `binding_id` takes a SHA-256.
pub mod Utf8
pub mod Injective
pub mod References
mod Defs
unfoldable pub use Defs.*
