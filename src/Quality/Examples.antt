-- ===== src/Quality/Examples.antt =====
-- The invariants of market events at concrete inputs.
use fuzz_helm.Base.{ℕ, ◌≡◌, refl, true, Option, none, some, List, [], ◌∷◌, ok, All}
use fuzz_helm.Base.Int.{pos, negsuc}
use fuzz_helm.Core.Dto.{Candle, Src}
use fuzz_helm.Decimal.{Decimal, d0, of_int}
use fuzz_helm.Decimal
use fuzz_helm.Quality.Invariants.{
  InstrumentSpec, Violation, PriceField, of_candle, check_candle, check_book,
}
use fuzz_helm.Quality.Invariants.Books.{check_book-uncrossed}

abbrev whole : ℕ → Decimal
whole n = of_int (pos n)

abbrev candle : Candle
candle = record {
  instrument = "BTC";
  venue = "PAPER";
  tf = "1m";
  open_time_ns = pos 60_000_000_000;
  close_time_ns = pos 119_999_000_000;
  o = whole 100;
  h = whole 110;
  l = whole 90;
  c = whole 105;
  volume = whole 2;
  quote_volume = whole 200;
  trades_count = 3;
  vwap = some (whole 100);
  is_closed = true;
  is_synthetic = true;
  src = Src.ws;
  ts_event_ns = pos 120_000_000_000;
  ts_ingest_ns = pos 120_000_000_001;
  event_uid = "u";
}

-- A price off the tick and a volume beyond the turnover are found.
bad_candle :
    check_candle
      (record (of_candle candle) {
        o = record { coef = pos 1001; scale = 1 };
        quote_volume = whole 300;
      })
      (some (record { tick_size = whole 1; step_size = none }))
      true
    ≡ ok (Violation.quote_volume_out_of_range ∷ Violation.price_off_tick PriceField.o_field ∷ [])
unfolding check_candle Decimal.le Decimal.mul fuzz_helm.Base.Int.◌+ℤ◌
bad_candle = refl

crossed_book : check_book (whole 101 ∷ []) (whole 100 ∷ []) none ≡ ok (Violation.book_crossed ∷ [])
unfolding check_book Decimal.le
crossed_book = refl

-- On the grid of 1, the levels 100 and 99 against 101 and 102.
abbrev grid : InstrumentSpec
grid = record { tick_size = whole 1; step_size = none }

passed : check_book (whole 100 ∷ whole 99 ∷ []) (whole 101 ∷ whole 102 ∷ []) (some grid) ≡ ok []
unfolding check_book Decimal.le
passed = refl

check_book-uncrossed_example :
    All
      (λ b. All (λ a. Decimal.lt b a ≡ true) (whole 101 ∷ whole 102 ∷ []))
      (whole 100 ∷ whole 99 ∷ [])
check_book-uncrossed_example =
    check_book-uncrossed (whole 100 ∷ whole 99 ∷ []) (whole 101 ∷ whole 102 ∷ []) (some grid) passed
