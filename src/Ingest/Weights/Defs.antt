-- ===== src/Ingest/Weights/Defs.antt =====
-- `klines_weight` and `request_weight` of ingest/ratelimit.py. A parameter of a request is a text or a
-- number; a missing `limit` is 500.
use fuzz_helm.Base.{
  ℕ, Bool, true, false, not, ◌&&◌, ◌||◌, Option, none, some, String, List, [], ◌∷◌, leb, Result, ok,
  err, ◌>>◌, raise_if, value_error, if◌then◌else◌,
}
use text.Mathlib.Text.{◌==◌ as str_eq}
use fuzz_helm.Base.Int.{ℤ, pos, negsuc}

unfoldable pub klines_weight : ℤ → Result ℕ
klines_weight (negsuc n) = err value_error
klines_weight (pos limit) = do
  raise_if (not (leb 1 limit && leb limit 1500)) value_error
  ok (if leb limit 100 then 1 else if leb limit 500 then 2 else if leb limit 1000 then 5 else 10)

pub data Param : Type 0 where
  text_param : String → Param
  int_param : ℤ → Param

-- `params.get(key)`
unfoldable pub get_param : List (String × Param) → String → Option Param
get_param [] key = none
get_param ((k, v) ∷ rest) key = if str_eq k key then some v else get_param rest key

abbrev is_given : Option Param → Bool
is_given none = false
is_given (some p) = true

-- `ENDPOINT_WEIGHTS[path]`
unfoldable pub endpoint_weight : String → Result ℕ
endpoint_weight path =
    if str_eq path "/fapi/v1/aggTrades"
    then ok 20
    else if str_eq path "/fapi/v1/time"
        || (str_eq path "/fapi/v1/ping"
            || (str_eq path "/fapi/v1/exchangeInfo"
                || (str_eq path "/fapi/v1/premiumIndex" || str_eq path "/fapi/v1/fundingRate")))
    then ok 1
    else err value_error

abbrev limit_weight : Option Param → Result ℕ
limit_weight none = klines_weight (pos 500)
limit_weight (some (Param.int_param n)) = klines_weight n
limit_weight (some (Param.text_param s)) = err value_error

unfoldable pub request_weight : String → List (String × Param) → Result ℕ
unfolding get_param endpoint_weight klines_weight
request_weight path params =
    if str_eq path "/fapi/v1/klines" || str_eq path "/fapi/v1/indexPriceKlines"
    then limit_weight (get_param params "limit")
    else if str_eq path "/fapi/v1/premiumIndex" && not (is_given (get_param params "symbol"))
    then ok 10
    else endpoint_weight path
