-- ===== src/Ingest/Examples.antt =====
-- A gap that is filled, a silent connection, and requests.
use fuzz_helm.Base.{
  ok, false, ◌==◌, Result, ◌>>=◌, ℕ, ◌≡◌, ◌↔◌, refl, true, Option, none, some, List, [], ◌∷◌, got,
  got-eq, IsOk,
}
use fuzz_helm.Base.Int.{pos, ◌+ℤ◌, ◌-ℤ◌}
use fuzz_helm.Core.Enums.{Stream, GapStatus, GapDetectorKind}
use fuzz_helm.Ingest.Gap.{GapRecord, transition}
use fuzz_helm.Ingest.Gap.Life.{Move, moves}
use fuzz_helm.Ingest.Gap.Store.{GapStore, lookup, resolve}
use fuzz_helm.Ingest.Gap.Resolve.{resolve-filled}
use fuzz_helm.Ingest.Gap.Trades.{Trade, TradeDetector, on_trade}
use fuzz_helm.Decimal.{d1}
use fuzz_helm.Ingest.Watchdog.{HeartbeatWatchdog, poll, deadline_ns}
use fuzz_helm.Ingest.Watchdog.Silence.{polls}
use fuzz_helm.Ingest.Weights.{klines_weight, request_weight}

abbrev found : GapRecord
found = record {
  gap_id = 1;
  instrument = "BTCUSDT";
  stream = Stream.trades;
  detector = GapDetectorKind.seq;
  ts_lo_ns = pos 1;
  ts_hi_ns = pos 2;
  expected_count = 3;
  status = GapStatus.open_gap;
  filled_rows = 0;
  attempts = 0;
  seq_lo = some (pos 10);
  seq_hi = some (pos 12);
  tf = none;
  detected_at_ns = pos 3;
  closed_at_ns = none;
  exchange_ns = none;
}

abbrev to : GapStatus → Option ℕ → Move
to s filled = record { status = s; at = pos 9; filled = filled; count_attempt = true }

abbrev fill : List Move
fill = to GapStatus.filling none ∷ to GapStatus.partial (some 2) ∷ to GapStatus.filled (some 3) ∷ []

abbrev filled : GapRecord
filled = record found { status = GapStatus.filled }

again_ok : IsOk (moves filled (to GapStatus.filled none ∷ []))
unfolding transition
again_ok = tt

-- A connection that is silent twice fires once.
abbrev watched : HeartbeatWatchdog
watched = record { timeout_ns = 10; last_ns = some (pos 5); fires = 0; armed = true }

silent : (polls watched (pos 20 ∷ pos 30 ∷ [])).fires ≡ 1
unfolding polls poll deadline_ns ◌+ℤ◌
silent = refl

abbrev code : ℕ
code = 1009

small_ok : IsOk (klines_weight (pos 100))
unfolding klines_weight
small_ok = tt

large_ok : IsOk (klines_weight (pos 1500))
unfolding klines_weight
large_ok = tt

trades_ok : IsOk (request_weight "/fapi/v1/aggTrades" [])
unfolding request_weight
trades_ok = tt

-- A store with one gap, of which one key is still missing after an attempt.
abbrev asked : GapRecord
asked = record found { status = GapStatus.filling; attempts = 1 }

abbrev store : GapStore
store = record {
  instrument = "BTCUSDT";
  latest_ns = none;
  gaps = (1, asked) ∷ [];
  missing = (1, pos 12 ∷ []) ∷ [];
  owner = record { stream = Stream.trades; key = pos 12; gap_id = 1 } ∷ [];
  next_id = 2;
  late_fills = 2;
}

asked_found : lookup store.gaps 1 ≡ ok asked
unfolding lookup
asked_found = refl

missing_found : lookup store.missing 1 ≡ ok (pos 12 ∷ [])
unfolding lookup
missing_found = refl

resolve_ok : IsOk (resolve store 1 (pos 9))
unfolding resolve transition
resolve_ok = tt

resolve-filled_example :
    (lookup (got (resolve store 1 (pos 9)) resolve_ok).1.gaps 1
      ≡ ok (got (resolve store 1 (pos 9)) resolve_ok).0)
    × ((j : ℕ)
        → (1 == j) ≡ false
        → lookup (got (resolve store 1 (pos 9)) resolve_ok).1.gaps j ≡ lookup store.gaps j)
    × (((got (resolve store 1 (pos 9)) resolve_ok).0.status ≡ GapStatus.filled)
        ↔ (pos 12 ∷ [] ≡ []))
    × ((got (resolve store 1 (pos 9)) resolve_ok).0.filled_rows ≡ 2)
resolve-filled_example =
    resolve-filled store 1 (pos 9) asked (pos 12 ∷ []) asked_found missing_found
      (got-eq _ resolve_ok)

-- The greatest trade seen is 12.
abbrev seen : TradeDetector
seen = record {
  detector = record {
    store = record store { latest_ns = some (pos 100) };
    tf = "1m";
    tf_ns = 60;
    grace_ns = 2;
    max_reorder_ids = 50;
    k_lo = none;
    k_closed = [];
    pending = [];
    stale_klines = 0;
    kline_minutes_settled = 0;
  };
  t_max = some (pos 12);
  t_max_ts = pos 100;
  healed_holes = 0;
  duplicate_trades = 0;
}

abbrev trade : ℕ → Trade
trade id = record {
  instrument = "BTCUSDT";
  venue = "BINANCE";
  agg_id = pos id;
  first_trade_id = none;
  last_trade_id = none;
  price = d1;
  qty = d1;
  is_buyer_maker = true;
  ts_event_ns = pos 101;
  ts_ingest_ns = pos 102;
  event_uid = "t";
}

abbrev reordered : Result (List GapRecord × TradeDetector)
reordered = do
  (a, s) ← on_trade seen (trade 15) (pos 102)
  (b, r) ← on_trade s (trade 14) (pos 102)
  on_trade r (trade 13) (pos 102)

reordered_ok : IsOk reordered
unfolding on_trade ◌+ℤ◌ ◌-ℤ◌
reordered_ok = tt

-- The hole heals.
healed : (got reordered reordered_ok).1.healed_holes ≡ 1
unfolding on_trade ◌+ℤ◌ ◌-ℤ◌
healed = refl
