-- ===== src/Gates.antt =====
-- ci/gates.py: the conventional-commit lint, and the bump that a range of commits asks for.
mod Subjects
mod Bump
mod Mr
pub mod Strongest
pub mod Judged
pub mod Checked
pub mod RoundTrip
unfoldable pub use Subjects.*
unfoldable pub use Bump.*
unfoldable pub use Mr.*
