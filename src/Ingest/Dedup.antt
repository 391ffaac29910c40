-- ===== src/Ingest/Dedup.antt =====
-- The deduplication of market events (ingest/dedup.py).
mod Defs
pub mod Kept
unfoldable pub use Defs.*
