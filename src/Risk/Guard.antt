-- ===== src/Risk/Guard.antt =====
-- The guard: the chain of rules, the journal and the kill switch (risk/guard.py).
mod Defs
pub mod Journal
pub mod Approval
unfoldable pub use Defs.*
