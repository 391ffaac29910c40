-- ===== src/Execution/Costs/Defs.antt =====
-- execution/cost_model.py: prices, fees and payments. The noise generator and the square root of
-- `decimal` are not the program's code: the next normal variate and the root are arguments.
use fuzz_helm.Base.{
  ℕ, ◌==◌, Bool, true, false, not, ◌&&◌, ◌||◌, List, [], ◌∷◌, leb, if◌then◌else◌, Result, ok, ◌>>=◌,
  ◌>>◌, raise_if, value_error,
}
use fuzz_helm.Base.Int.{pos}
use fuzz_helm.Core.Enums.{Side, same_side, Liquidity}
use fuzz_helm.Decimal.{Decimal, d0, d1, of_int, quantize_price, quantize_step, Rounding}
use fuzz_helm.Decimal
use fuzz_helm.Execution.Number.{unit, decimal_number}

pub data CostMode : Type 0 where
  zero_cost sqrt_impact full : CostMode

pub record CostModelConfig : Type 0 where
  pub mode : CostMode
  pub k_s : Decimal
  pub taker_fee : Decimal
  pub maker_fee : Decimal
  pub default_spread_ticks : ℕ
  pub funding_hours_utc : List ℕ
  pub noise_bps : Decimal

pub record FillQuote : Type 0 where
  pub price : Decimal
  pub raw_price : Decimal
  pub half_spread : Decimal
  pub impact : Decimal
  pub noise : Decimal
  pub slippage_bps : Decimal

abbrev contains : ℕ → List ℕ → Bool
contains h [] = false
contains h (k ∷ ks) = h == k || contains h ks

abbrev distinct_hours : List ℕ → Bool
distinct_hours [] = true
distinct_hours (h ∷ hs) = (leb h 23 && not (contains h hs)) && distinct_hours hs

insert : ℕ → List ℕ → List ℕ
insert h [] = h ∷ []
insert h (k ∷ ks) = if leb h k then h ∷ k ∷ ks else k ∷ insert h ks

-- `sorted(v)`
unfoldable pub sorted : List ℕ → List ℕ
unfolding insert
sorted [] = []
sorted (h ∷ hs) = insert h (sorted hs)

is_empty : List ℕ → Bool
is_empty [] = true
is_empty (h ∷ hs) = false

-- `_hours_valid`
unfoldable pub hours_valid : List ℕ → Result (List ℕ)
unfolding is_empty sorted
hours_valid v = do raise_if (is_empty v || not (distinct_hours v)) value_error; ok (sorted v)

-- The checks of `CostModelConfig`.
unfoldable pub validated : CostModelConfig → Result CostModelConfig
unfolding hours_valid
validated c = do
  raise_if
      (not (
        Decimal.le d0 c.k_s
        && (Decimal.le d0 c.taker_fee && (Decimal.le d0 c.maker_fee && Decimal.le d0 c.noise_bps))))
      value_error
  hours ← hours_valid c.funding_hours_utc
  ok (record c { funding_hours_utc = hours })

-- `charges_fees` and `charges_funding`
abbrev pub is_full : CostMode → Bool
is_full CostMode.full = true
is_full _ = false

abbrev pub has_price_impact : CostMode → Bool
has_price_impact CostMode.zero_cost = false
has_price_impact _ = true

-- `BPS` and `SLIPPAGE_BPS_QUANTUM`
abbrev pub bps : Decimal
bps = record { coef = pos 1; scale = 4 }

-- `_noise_scale`
unfoldable pub noise_scale : CostModelConfig → Decimal
noise_scale c = Decimal.mul c.noise_bps bps

unfoldable pub impact :
    (Decimal → Decimal) → CostModelConfig → Decimal → Decimal → Decimal → Decimal → Decimal
impact sqrt c p_ref qty sigma v_bar =
    if not (has_price_impact c.mode) || (Decimal.le qty d0 || Decimal.le sigma d0)
    then d0
    else (let participation = if Decimal.lt d0 v_bar then Decimal.quotient qty v_bar else d1 in
        Decimal.mul (Decimal.mul (Decimal.mul c.k_s sigma) p_ref) (sqrt participation))

-- `_slippage_bps`
unfoldable pub slippage_bps : Side → Decimal → Decimal → Result Decimal
unfolding quantize_step unit
slippage_bps side price p_ref =
    quantize_step
      (Decimal.mul (Decimal.quotient (Decimal.mul (unit side) (Decimal.sub price p_ref)) p_ref)
        (of_int (pos 10_000)))
      bps Rounding.half_even

-- `quote`: z is the variate that the noise takes from the generator.
unfoldable pub quote :
    (Decimal → Decimal)
    → CostModelConfig
    → Decimal
    → Side
    → Decimal
    → Decimal
    → Decimal
    → Decimal
    → Decimal
    → Result FillQuote
unfolding quantize_price noise_scale impact slippage_bps unit
quote sqrt c z side p_ref qty sigma v_bar tick = do
  raise_if (same_side side Side.flat) value_error
  raise_if (Decimal.le p_ref d0) value_error
  if not (has_price_impact c.mode)
      then (do
        price ← quantize_price p_ref tick
        slip ← slippage_bps side price p_ref
        ok (record {
          price = price;
          raw_price = p_ref;
          half_spread = d0;
          impact = d0;
          noise = d0;
          slippage_bps = slip;
        }))
      else (do
        let half_spread =
            Decimal.quotient (Decimal.mul tick (of_int (pos c.default_spread_ticks)))
              (of_int (pos 2))
        let imp = impact sqrt c p_ref qty sigma v_bar
        let noise =
            if Decimal.lt d0 (noise_scale c)
            then Decimal.mul (Decimal.mul p_ref (noise_scale c)) z
            else d0
        let raw =
            Decimal.add (Decimal.add p_ref (Decimal.mul (unit side) (Decimal.add half_spread imp)))
              noise
        rounded ← quantize_price raw tick
        let price = Decimal.max rounded tick
        slip ← slippage_bps side price p_ref
        ok (record {
          price = price;
          raw_price = raw;
          half_spread = half_spread;
          impact = imp;
          noise = noise;
          slippage_bps = slip;
        }))

abbrev pub fee_rate : CostModelConfig → Liquidity → Decimal
fee_rate c Liquidity.taker = c.taker_fee
fee_rate c Liquidity.maker = c.maker_fee

unfoldable pub fee : CostModelConfig → Decimal → Liquidity → Decimal
fee c notional liquidity =
    if is_full c.mode then Decimal.mul (Decimal.abs notional) (fee_rate c liquidity) else d0

unfoldable pub funding_payment : CostModelConfig → Decimal → Decimal → Decimal → Decimal
funding_payment c position_qty mark_price rate =
    if is_full c.mode then Decimal.mul (Decimal.mul position_qty mark_price) rate else d0
