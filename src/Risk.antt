-- ===== src/Risk.antt =====
-- The risk circuit (risk/): the kill switch, the equity tracker, the state machine, the verdicts, the
-- rules and the guard.
pub mod KillSwitch
pub mod Tracker
pub mod Config
pub mod State
pub mod Verdict
pub mod Context
pub mod Margin
pub mod Rules
pub mod Journal
pub mod Guard
mod Examples
mod Runs
