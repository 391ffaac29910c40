-- ===== src/Sizing.antt =====
-- Position sizing: the hysteresis of the signal (sizing/).
pub mod Hysteresis
mod Examples
