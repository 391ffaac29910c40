-- ===== src/Execution/Portfolio.antt =====
-- The account of the perpetual futures (execution/portfolio.py).
mod State
mod Fills
mod Values
pub mod Runs
pub mod Priced
unfoldable pub use State.*
unfoldable pub use Fills.*
unfoldable pub use Values.*
