-- ===== src/Ingest.antt =====
-- The intake of market data: the watchdog of a connection, the status of a gap, the weights of
-- requests, and the release of candles (ingest/).
pub mod Watchdog
pub mod Gap
pub mod Weights
pub mod Candles
pub mod Dedup
mod Examples
mod CandleRuns
