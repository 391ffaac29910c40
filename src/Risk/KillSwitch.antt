-- ===== src/Risk/KillSwitch.antt =====
-- The latching kill switch (risk/killswitch.py) and the shape of its audit records (risk/journal.py).
mod Defs
pub mod Laws
unfoldable pub use Defs.*
