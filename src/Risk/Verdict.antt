-- ===== src/Risk/Verdict.antt =====
-- The algebra of verdicts (risk/verdict.py).
mod Defs
pub mod Order
pub mod Compose
pub mod Bound
unfoldable pub use Defs.*
