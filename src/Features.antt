-- ===== src/Features.antt =====
-- The window of bars that the detectors read (features/).
pub mod Window
mod Examples
