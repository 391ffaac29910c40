-- ===== src/Risk/State.antt =====
-- The state machine NORMAL, WARNING, COOLDOWN, HALTED (risk/state.py).
mod Defs
pub mod Latch
pub mod Dwell
pub mod Release
pub mod Kappa
unfoldable pub use Defs.*
