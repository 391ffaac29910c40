-- ===== src/Execution/Costs.antt =====
-- The cost of an execution and the schedule of the funding (execution/cost_model.py).
mod Defs
mod Funding
pub mod Schedule
pub mod Next
unfoldable pub use Defs.*
unfoldable pub use Funding.*
