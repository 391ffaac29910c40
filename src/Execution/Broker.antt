-- ===== src/Execution/Broker.antt =====
-- The simulated broker (execution/paper_broker.py).
mod State
mod Submit
mod Fill
mod Walk
mod Path
mod Bar
pub mod Again
pub mod Limits
pub mod Room
pub mod Cancel
pub mod Live
pub mod Fuel
pub mod Kept
pub mod Origin
pub mod Dated
pub mod Steps
pub mod Calls
unfoldable pub use State.*
unfoldable pub use Submit.*
unfoldable pub use Fill.*
unfoldable pub use Walk.*
unfoldable pub use Path.*
unfoldable pub use Bar.*
