-- ===== src/Features/Window.antt =====
-- The ring buffer and the guarded array (features/window.py).
mod Defs
pub mod Guarded
pub mod History
unfoldable pub use Defs.*
