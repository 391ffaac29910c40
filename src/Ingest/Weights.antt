-- ===== src/Ingest/Weights.antt =====
-- The weights of requests (ingest/ratelimit.py).
mod Defs
pub mod Range
unfoldable pub use Defs.*
