-- ===== src/Execution/Router.antt =====
-- The router of orders (execution/router.py).
mod Defs
pub mod Once
pub mod Recovery
unfoldable pub use Defs.*
