-- ===== src/Ingest/Candles.antt =====
-- The release of closed candles (ingest/candles.py).
mod Defs
pub mod Drain
unfoldable pub use Defs.*
