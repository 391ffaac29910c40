-- ===== src/Risk/Tracker.antt =====
-- The equity tracker (risk/context.py): running peak, drawdown, profit of the day.
mod Defs
pub mod Peak
unfoldable pub use Defs.*
