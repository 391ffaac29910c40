-- ===== src/Sizing/Hysteresis.antt =====
-- The gate between the signal and the side of the position (sizing/hysteresis.py).
mod Defs
pub mod Band
unfoldable pub use Defs.*
