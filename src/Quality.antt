-- ===== src/Quality.antt =====
-- The quality of the data (quality/).
pub mod Invariants
mod Examples
