-- ===== src/Ingest/Gap.antt =====
-- The status of a gap in the data (ingest/gap_detector.py).
mod Defs
pub mod Life
pub mod Store
pub mod Resolve
pub mod Detector
pub mod Trades
pub mod Holes
unfoldable pub use Defs.*
