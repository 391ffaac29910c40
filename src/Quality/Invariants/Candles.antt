-- ===== src/Quality/Invariants/Candles.antt =====
-- The second check of a candle against the first: what `Candle` refuses, and what is left to check.
use fuzz_helm.Base.{Bool}
use fuzz_helm.Decimal.{Decimal}
use fuzz_helm.Decimal
