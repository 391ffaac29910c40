-- ===== src/Risk/Config.antt =====
-- The validated configuration of the risk circuit (risk/config.py).
mod Defs
pub mod Laws
unfoldable pub use Defs.*
