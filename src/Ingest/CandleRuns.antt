-- ===== src/Ingest/CandleRuns.antt =====
-- Candles that arrive out of order, or never.
use fuzz_helm.Base.{ℕ, ◌+◌, ◌≡◌, refl, true, false, none, some, [], ◌∷◌, length, arith}
use fuzz_helm.Base.Int.{ℤ, pos, ◌+ℤ◌, ◌-ℤ◌}
use fuzz_helm.Decimal.{d1}
use fuzz_helm.Core.Dto.{Candle, Src}
use fuzz_helm.Ingest.Candles.{CandleAggregator, candle_at, has_key, drain, offer, skip, flush}
use fuzz_helm.Ingest.Candles.Drain.{drain-ends}

abbrev candle : ℕ → Candle
candle minute = record {
  instrument = "BTCUSDT";
  venue = "BINANCE";
  tf = "1m";
  open_time_ns = pos minute;
  close_time_ns = pos (minute + 59);
  o = d1;
  h = d1;
  l = d1;
  c = d1;
  volume = d1;
  quote_volume = d1;
  trades_count = 1;
  vwap = none;
  is_closed = true;
  is_synthetic = true;
  src = Src.ws;
  ts_event_ns = pos (minute + 60);
  ts_ingest_ns = pos (minute + 61);
  event_uid = "c";
}

-- The minute 0 is expected; 60 is missing for good, and 120 waits.
abbrev waiting : CandleAggregator
waiting = record {
  tf = "1m";
  instrument = some "BTCUSDT";
  ordered = true;
  tf_ns = 60;
  next = some (pos 0);
  held = (pos 120, candle 120) ∷ [];
  released = [];
  retention = 10;
  skipped = pos 60 ∷ [];
  current = none;
  stats = record {
    released = 0;
    duplicates = 0;
    conflicts = 0;
    skipped = 1;
    late_after_skip = 0;
    stale_updates = 0;
    max_held = 1;
  };
}

drain-ends_example :
    ((stop : ℤ) × ((drain waiting (pos 60)).1.next ≡ some stop)
      × (candle_at stop (drain waiting (pos 60)).1.held ≡ none)
      × (has_key stop waiting.skipped ≡ false))
    × (length (drain waiting (pos 60)).0 + length (drain waiting (pos 60)).1.held ≡ 1)
drain-ends_example = drain-ends waiting (pos 60) (omega arith)

-- The minute that was expected releases both, in order.
in_turn : (offer waiting (candle 0)).0 ≡ candle 0 ∷ candle 120 ∷ []
unfolding offer ◌+ℤ◌
in_turn = refl

-- A candle of the skipped minute counts as a late repeat.
late : (offer waiting (candle 60)).1.stats.late_after_skip ≡ 1
unfolding offer
late = refl

unblocked : (skip waiting (pos 0) (pos 59)).0 ≡ candle 120 ∷ []
unfolding skip ◌+ℤ◌ ◌-ℤ◌
unblocked = refl

ended : (flush waiting).1.next ≡ some (pos 180)
unfolding flush ◌+ℤ◌
ended = refl
