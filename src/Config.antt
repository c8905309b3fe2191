-- ===== src/Config.antt =====
-- src/traust_contracts/config.py: the corpus stanza, and the scopes that its trees resolve to.
mod Slug
mod Corpus
mod Gathered
mod Scopes
mod Registered
mod Dashes
unfoldable pub use Slug.*
unfoldable pub use Corpus.*
unfoldable pub use Dashes.*
pub use Registered.*
pub use Scopes.*
