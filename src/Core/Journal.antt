-- ===== src/Core/Journal.antt =====
-- The hash chain of core/journal.py.
mod Defs
pub mod Chain
unfoldable pub use Defs.*
