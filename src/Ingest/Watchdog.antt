-- ===== src/Ingest/Watchdog.antt =====
-- The watchdog over the frames of a connection (ingest/reconnect.py).
mod Defs
pub mod Silence
unfoldable pub use Defs.*
