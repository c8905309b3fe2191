-- ===== src/RiskRating.antt =====
-- src/traust_contracts/v1/risk_rating.py: the OWASP Risk Rating Methodology's arithmetic.
mod Defs
mod Document
pub mod Levels
pub mod Agreement
unfoldable pub use Defs.*
unfoldable pub use Document.*
