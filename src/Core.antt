-- ===== src/Core.antt =====
-- The package core: enumerations, values, the clock and the hash-chained journal.
pub mod Enums
pub mod Value
pub mod Float
pub mod Clock
pub mod Journal
mod Examples
pub mod Dto
