-- ===== src/Downstream.antt =====
-- ci/bump_downstream.py: the chain of pins from traust-contracts to the repositories downstream.
mod Pins
mod Urls
mod Host
mod Repo
mod Bumper
mod Reconcile
mod Commands
mod Keys
mod Refill
mod Repin
mod Lazy
mod Entry
mod Named
mod Unnamed
mod Pinned
mod Rules
mod Quiet
mod Tested
mod Gated
mod Tracking
mod Reconciled
unfoldable pub use Pins.*
unfoldable pub use Urls.*
unfoldable pub use Host.*
unfoldable pub use Repo.*
unfoldable pub use Bumper.*
unfoldable pub use Reconcile.*
unfoldable pub use Commands.*
unfoldable pub use Keys.{has_quote}
unfoldable pub use Rules.{ready, gated, no_failed_test}
unfoldable pub use Named.{is_name}
pub use Rules.{Clean, Ended, Post}
pub use Repin.{IsValue}
pub use Pinned.{pin_in-pin_source}
pub use Gated.{Exits, cmd_chain-Exits, cmd_bump-Exits}
pub use Tracking.*
pub use Reconciled.*
