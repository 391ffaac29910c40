-- ===== src/Risk/Rules.antt =====
-- The six limits (risk/rules/) and the mode gate of risk/guard.py.
mod Defs
pub mod Laws
unfoldable pub use Defs.*
