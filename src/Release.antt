-- ===== src/Release.antt =====
-- src/release.py: versions, and the steps from a version to a pushed tag.
mod Version
mod Repo
mod Commands
mod Tags
mod Sound
pub mod Order
mod Bumps
mod Tagging
mod Builds
mod Released
unfoldable pub use Version.*
unfoldable pub use Repo.*
unfoldable pub use Commands.*
unfoldable pub use Tags.*
pub use Sound.*
pub use Order.*
pub use Bumps.*
pub use Tagging.*
pub use Released.*
