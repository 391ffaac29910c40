-- ===== src/Quality/Invariants.antt =====
-- The invariants of market events (quality/invariants.py).
mod Defs
pub mod Candles
pub mod Books
unfoldable pub use Defs.*
