-- ===== src/Core/Dto.antt =====
-- `Candle` of core/dto.py, with its checks, and the sources of candles.
use fuzz_helm.Base.{
  ℕ, Bool, true, not, ◌&&◌, Option, none, some, String, Result, ok, ◌>>◌, raise_if, value_error,
}
use fuzz_helm.Base.Int.{ℤ, pos, ltb_ℤ, leb_ℤ}
use fuzz_helm.Decimal
use fuzz_helm.Decimal.{Decimal, d0}

pub data Src : Type 0 where
  ws rest replay : Src

pub record Candle : Type 0 where
  pub instrument : String
  pub venue : String
  pub tf : String
  pub open_time_ns : ℤ
  pub close_time_ns : ℤ
  pub o : Decimal
  pub h : Decimal
  pub l : Decimal
  pub c : Decimal
  pub volume : Decimal
  pub quote_volume : Decimal
  pub trades_count : ℕ
  pub vwap : Option Decimal
  pub is_closed : Bool
  pub is_synthetic : Bool
  pub src : Src
  pub ts_event_ns : ℤ
  pub ts_ingest_ns : ℤ
  pub event_uid : String

abbrev pub vwap_fits : Candle → Option Decimal → Bool
vwap_fits k none = true
vwap_fits k (some v) = Decimal.le k.l v && Decimal.le v k.h

-- `_ohlc_consistent`
unfoldable pub ohlc_consistent : Candle → Result Candle
ohlc_consistent k = do
  raise_if
      (not (
        Decimal.le k.l k.h
        && (Decimal.le (Decimal.max k.o k.c) k.h && Decimal.le k.l (Decimal.min k.o k.c))))
      value_error
  raise_if (not (vwap_fits k k.vwap)) value_error
  raise_if (ltb_ℤ k.close_time_ns k.open_time_ns) value_error
  ok k

-- The bounds of the fields: `PosDec`, `NonNegDec` and `Ns`; the count of trades is a number.
unfoldable pub fields_valid : Candle → Bool
fields_valid k =
    Decimal.lt d0 k.o
    && (Decimal.lt d0 k.h
        && (Decimal.lt d0 k.l
            && (Decimal.lt d0 k.c
                && (Decimal.le d0 k.volume
                    && (Decimal.le d0 k.quote_volume
                        && (leb_ℤ (pos 0) k.open_time_ns
                            && (leb_ℤ (pos 0) k.close_time_ns
                                && (leb_ℤ (pos 0) k.ts_event_ns
                                    && leb_ℤ (pos 0) k.ts_ingest_ns))))))))

-- `Candle(…)`: the fields, and then the validator of the whole.
unfoldable pub new_candle : Candle → Result Candle
unfolding fields_valid ohlc_consistent
new_candle k = do raise_if (not (fields_valid k)) value_error; ohlc_consistent k
