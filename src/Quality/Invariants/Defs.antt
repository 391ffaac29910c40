-- ===== src/Quality/Invariants/Defs.antt =====
-- quality/invariants.py: the codes of the violated invariants of a candle, a trade and a book. A code
-- with a field, `CODE:field`, is a constructor with the field.
use fuzz_helm.Base.{
  ℕ, ◌-◌, ◌*◌, ◌%◌, ◌/◌, ◌^◌, ◌==◌, Bool, true, false, not, ◌&&◌, ◌||◌, Option, none, some, List,
  [], ◌∷◌, ◌++◌, String, ltb, if◌then◌else◌, Result, ok, err, ◌>>=◌, invalid_operation,
}
use fuzz_helm.Base.Int.{ℤ, pos, abs_ℤ, mod_ℤ, ltb_ℤ, eqb_ℤ, ◌+ℤ◌}
use fuzz_helm.Base.Dict.{Dict, lookup, string_key}
use fuzz_helm.Core.Dto.{Candle}
use fuzz_helm.Decimal.{Decimal, d0, width, prec}
use fuzz_helm.Decimal

pub data PriceField : Type 0 where
  o_field h_field l_field c_field price_field book_field : PriceField

pub data QtyField : Type 0 where
  volume_field qty_field : QtyField

pub data Violation : Type 0 where
  high_below_low high_below_max_oc low_above_min_oc nonpositive_price : Violation
  price_off_tick : PriceField → Violation
  qty_off_step : QtyField → Violation
  negative_volume negative_quote_volume quote_volume_out_of_range : Violation
  negative_trades_count vwap_out_of_range close_time_mismatch open_time_unaligned : Violation
  nonpositive_qty book_crossed book_unsorted : Violation

pub record CandleLike : Type 0 where
  pub tf : String
  pub open_time_ns : ℤ
  pub close_time_ns : ℤ
  pub o : Decimal
  pub h : Decimal
  pub l : Decimal
  pub c : Decimal
  pub volume : Decimal
  pub quote_volume : Decimal
  pub trades_count : ℤ
  pub vwap : Option Decimal

-- A `Candle` has what the protocol asks for.
abbrev pub of_candle : Candle → CandleLike
of_candle k = record {
  tf = k.tf;
  open_time_ns = k.open_time_ns;
  close_time_ns = k.close_time_ns;
  o = k.o;
  h = k.h;
  l = k.l;
  c = k.c;
  volume = k.volume;
  quote_volume = k.quote_volume;
  trades_count = pos k.trades_count;
  vwap = k.vwap;
}

pub record InstrumentSpec : Type 0 where
  pub tick_size : Decimal
  pub step_size : Option Decimal

-- `TF_MS` of ingest/normalize.py.
abbrev pub tf_ms : Dict String ℕ
tf_ms =
    ("1m", 60_000)
    ∷ ("3m", 180_000)
    ∷ ("5m", 300_000)
    ∷ ("15m", 900_000)
    ∷ ("30m", 1_800_000)
    ∷ ("1h", 3_600_000)
    ∷ ("2h", 7_200_000)
    ∷ ("4h", 14_400_000)
    ∷ ("6h", 21_600_000)
    ∷ ("8h", 28_800_000)
    ∷ ("12h", 43_200_000)
    ∷ ("1d", 86_400_000)
    ∷ []

abbrev ns_per_ms : ℕ
ns_per_ms = 1_000_000

-- `x % step == 0`: `decimal` refuses a zero step, and a quotient of more than 38 digits.
unfoldable pub on_grid : Decimal → Decimal → Result Bool
unfolding width
on_grid x step =
    let n = abs_ℤ x.coef * 10 ^ step.scale in
    let d = abs_ℤ step.coef * 10 ^ x.scale in
    if d == 0
    then err invalid_operation
    else if ltb prec (width (n / d))
    then err invalid_operation
    else ok (n % d == 0)

-- `if test: out.append(code)`
abbrev pub flag : Bool → Violation → List Violation
flag test code = if test then code ∷ [] else []

-- The OHLC checks.
unfoldable pub price_codes : CandleLike → List Violation
price_codes k =
    flag (Decimal.le (Decimal.min (Decimal.min (Decimal.min k.o k.h) k.l) k.c) d0)
      Violation.nonpositive_price
    ++ (flag (Decimal.lt k.h k.l) Violation.high_below_low
        ++ (flag (Decimal.lt k.h (Decimal.max k.o k.c)) Violation.high_below_max_oc
            ++ flag (Decimal.lt (Decimal.min k.o k.c) k.l) Violation.low_above_min_oc))

-- The volumes: qv lies between v·l and v·h, and 0 means that the source gives none.
unfoldable pub volume_codes : CandleLike → List Violation
volume_codes k =
    flag (Decimal.lt k.volume d0) Violation.negative_volume
    ++ (if Decimal.lt k.quote_volume d0
        then Violation.negative_quote_volume ∷ []
        else flag
            (Decimal.lt d0 k.quote_volume
              && (Decimal.le d0 k.volume
                  && not (
                      Decimal.le (Decimal.mul k.volume k.l) k.quote_volume
                      && Decimal.le k.quote_volume (Decimal.mul k.volume k.h))))
            Violation.quote_volume_out_of_range)

abbrev pub vwap_code : CandleLike → Option Decimal → List Violation
vwap_code k none = []
vwap_code k (some v) = flag (not (Decimal.le k.l v && Decimal.le v k.h)) Violation.vwap_out_of_range

abbrev time_codes_at : CandleLike → Option ℕ → List Violation
time_codes_at k none = []
time_codes_at k (some step_ms) =
    let step_ns = step_ms * ns_per_ms in
    flag (not (mod_ℤ k.open_time_ns step_ns == 0)) Violation.open_time_unaligned
    ++ flag (not (eqb_ℤ k.close_time_ns (k.open_time_ns +ℤ pos (step_ns - ns_per_ms))))
        Violation.close_time_mismatch

-- What is checked without the instrument.
unfoldable pub structure_codes : CandleLike → List Violation
unfolding price_codes volume_codes lookup
structure_codes k =
    price_codes k
    ++ (volume_codes k
        ++ (flag (ltb_ℤ k.trades_count (pos 0)) Violation.negative_trades_count
            ++ (vwap_code k k.vwap ++ time_codes_at k (lookup k.tf tf_ms))))

off_tick : Decimal → Decimal → PriceField → Result (List Violation)
unfolding on_grid
off_tick px tick field =
    if Decimal.lt d0 px
    then (on_grid px tick >>= λ fits. ok (flag (not fits) (Violation.price_off_tick field)))
    else ok []

off_step : Bool → Decimal → Option Decimal → QtyField → Result (List Violation)
unfolding on_grid
off_step tested x none field = ok []
off_step tested x (some step) field =
    if tested
    then (on_grid x step >>= λ fits. ok (flag (not fits) (Violation.qty_off_step field)))
    else ok []

unfoldable pub grid_codes : CandleLike → Option InstrumentSpec → Bool → Result (List Violation)
unfolding off_tick off_step
grid_codes k none check_volume_step = ok []
grid_codes k (some spec) check_volume_step = do
  by_o ← off_tick k.o spec.tick_size PriceField.o_field
  by_h ← off_tick k.h spec.tick_size PriceField.h_field
  by_l ← off_tick k.l spec.tick_size PriceField.l_field
  by_c ← off_tick k.c spec.tick_size PriceField.c_field
  by_volume ←
      off_step (check_volume_step && Decimal.le d0 k.volume) k.volume spec.step_size
        QtyField.volume_field
  ok (by_o ++ (by_h ++ (by_l ++ (by_c ++ by_volume))))

-- `check_candle`
unfoldable pub check_candle : CandleLike → Option InstrumentSpec → Bool → Result (List Violation)
unfolding structure_codes grid_codes
check_candle k spec check_volume_step = do
  by_grid ← grid_codes k spec check_volume_step
  ok (structure_codes k ++ by_grid)

-- `is_valid_candle`
unfoldable pub is_valid_candle : CandleLike → Option InstrumentSpec → Result Bool
unfolding check_candle
is_valid_candle k spec =
    check_candle k spec true >>= λ codes. ok (elim codes [ [] ↦ true | x ∷ xs ↦ false ])

-- `check_trade`, of a price and a quantity.
unfoldable pub check_trade : Decimal → Decimal → Option InstrumentSpec → Result (List Violation)
unfolding off_tick off_step
check_trade price qty spec = do
  by_grid ← elim spec [
    | none ↦ ok []
    | some s ↦ off_tick price s.tick_size PriceField.price_field >>= λ by_price.
        off_step (Decimal.lt d0 qty) qty s.step_size QtyField.qty_field >>= λ by_qty.
        ok (by_price ++ by_qty)
  ]
  ok (
      flag (Decimal.le price d0) Violation.nonpositive_price
      ++ (flag (Decimal.le qty d0) Violation.nonpositive_qty ++ by_grid))

-- `any(test(x, y) for x, y in pairwise(xs))`
unfoldable pub any_pair : (Decimal → Decimal → Bool) → List Decimal → Bool
any_pair test [] = false
any_pair test (x ∷ []) = false
any_pair test (x ∷ y ∷ rest) = test x y || any_pair test (y ∷ rest)

unfoldable pub crossed : List Decimal → List Decimal → Bool
crossed [] asks = false
crossed (b ∷ bids) [] = false
crossed (b ∷ bids) (a ∷ asks) = Decimal.le a b

any_off : List Decimal → Decimal → Result Bool
unfolding on_grid
any_off [] tick = ok false
any_off (p ∷ ps) tick =
    on_grid p tick >>= λ fits. let rest = any_off ps tick in if not fits then ok true else rest

-- Whether a price of the book is off the grid of the instrument, if there is one.
unfoldable pub book_off : List Decimal → Option InstrumentSpec → Result Bool
unfolding any_off
book_off prices none = ok false
book_off prices (some s) = any_off prices s.tick_size

-- `check_book`, of the prices of the two sides.
unfoldable pub check_book :
    List Decimal → List Decimal → Option InstrumentSpec → Result (List Violation)
unfolding any_pair crossed book_off
check_book bids asks spec = do
  off ← book_off (bids ++ asks) spec
  ok (
      flag (any_pair Decimal.le bids || any_pair (λ x y. Decimal.le y x) asks)
        Violation.book_unsorted
      ++ (flag (crossed bids asks) Violation.book_crossed
          ++ flag off (Violation.price_off_tick PriceField.book_field)))
