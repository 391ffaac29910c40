-- ===== src/Risk/Margin.antt =====
-- Margin, liquidation price and leverage bounds (risk/margin.py).
use fuzz_helm.Base.{
  not, ◌&&◌, ◌||◌, Option, none, some, Result, ok, err, ◌>>=◌, ◌>>◌, raise_if, value_error,
  if◌then◌else◌,
}
use fuzz_helm.Decimal
use fuzz_helm.Decimal.{Decimal, d0, d1, add, sub, mul, div}
use fuzz_helm.Core.Enums.{Side}

unfoldable pub liq_price_long : Decimal → Decimal → Decimal → Decimal → Decimal → Result Decimal
liq_price_long q entry wallet mmr maint = do
  raise_if (Decimal.le q d0) value_error
  div (sub (sub (mul q entry) wallet) maint) (mul q (sub d1 mmr))

unfoldable pub liq_price_short : Decimal → Decimal → Decimal → Decimal → Decimal → Result Decimal
liq_price_short q entry wallet mmr maint = do
  raise_if (Decimal.le q d0) value_error
  div (add (add wallet (mul q entry)) maint) (mul q (add d1 mmr))

-- The one formula for a signed position.
unfoldable pub liq_price : Decimal → Decimal → Decimal → Decimal → Decimal → Result Decimal
liq_price q entry wallet mmr maint = do
  raise_if (Decimal.eq q d0) value_error
  div (sub (sub (mul q entry) wallet) maint) (sub q (mul (Decimal.abs q) mmr))

unfoldable pub position_equity : Decimal → Decimal → Decimal → Decimal → Decimal
position_equity q entry price wallet = add wallet (mul q (sub price entry))

unfoldable pub maintenance_margin : Decimal → Decimal → Decimal → Decimal → Decimal
maintenance_margin q price mmr maint = sub (mul (mul (Decimal.abs q) price) mmr) maint

unfoldable pub margin_ratio :
    Decimal → Decimal → Decimal → Decimal → Decimal → Decimal → Result Decimal
unfolding position_equity maintenance_margin
margin_ratio q entry price wallet mmr maint = do
  let eq = position_equity q entry price wallet
  raise_if (Decimal.le eq d0) value_error
  div (maintenance_margin q price mmr maint) eq

unfoldable pub side_liq_price :
    Side → Decimal → Decimal → Decimal → Decimal → Decimal → Result Decimal
unfolding liq_price_long liq_price_short
side_liq_price Side.long q entry wallet mmr maint = liq_price_long q entry wallet mmr maint
side_liq_price Side.short q entry wallet mmr maint = liq_price_short q entry wallet mmr maint
side_liq_price Side.flat q entry wallet mmr maint = err value_error

unfoldable pub dtl_atr : Decimal → Decimal → Decimal → Result Decimal
dtl_atr price liq atr = do
  raise_if (Decimal.le atr d0) value_error
  div (Decimal.abs (sub price liq)) atr

unfoldable pub signed_dtl_atr : Side → Decimal → Decimal → Decimal → Result Decimal
signed_dtl_atr side price liq atr = do
  raise_if (Decimal.le atr d0) value_error
  elim side [
    | Side.long ↦ div (sub price liq) atr
    | Side.short ↦ div (sub liq price) atr
    | Side.flat ↦ err value_error
  ]

unfoldable pub reduced_max_leverage : Decimal → Decimal → Decimal → Decimal → Result Decimal
reduced_max_leverage stop entry mmr b = do
  raise_if (not (Decimal.le d0 b && Decimal.lt b d1)) value_error
  raise_if (Decimal.le entry d0) value_error
  r ← div stop (mul entry (sub d1 b))
  div d1 (add r mmr)

abbrev side_margin : Side → Decimal → Decimal
side_margin Side.long mmr = sub d1 mmr
side_margin _ mmr = add d1 mmr

unfoldable pub max_qty_for_dtl :
    Side → Decimal → Decimal → Decimal → Decimal → Decimal → Decimal → Result Decimal
max_qty_for_dtl Side.flat wallet price atr min_dtl mmr maint = err value_error
max_qty_for_dtl side wallet price atr min_dtl mmr maint =
    if Decimal.le (add wallet maint) d0
    then ok d0
    else div (add wallet maint) (add (mul price mmr) (mul (mul min_dtl atr) (side_margin side mmr)))

unfoldable pub leverage : Decimal → Decimal → Decimal → Result Decimal
leverage q price wallet = do raise_if (Decimal.le wallet d0) value_error; div (mul q price) wallet

-- The answer of `min_bars_to_drawdown`; no number of bars stands for infinity.
pub record DrawdownSpeedBound : Type 0 where
  pub dd0 : Decimal
  pub dd_max : Decimal
  pub v_max : Decimal
  pub n_min : Option Decimal

unfoldable pub per_bar_loss_bound : Decimal → Decimal → Decimal → Result Decimal
per_bar_loss_bound kappa_mode rho_base kappa_slip = do
  raise_if (Decimal.lt kappa_mode d0 || (Decimal.lt rho_base d0 || Decimal.lt kappa_slip d0))
      value_error
  ok (mul (mul kappa_mode rho_base) (add d1 kappa_slip))

unfoldable pub min_bars_to_drawdown : Decimal → Decimal → Decimal → Result DrawdownSpeedBound
min_bars_to_drawdown dd_start dd_max v_max = do
  raise_if (Decimal.lt dd_max dd_start) value_error
  raise_if (Decimal.lt v_max d0) value_error
  ok (record {
    dd0 = dd_start;
    dd_max = dd_max;
    v_max = v_max;
    n_min =
        if Decimal.eq v_max d0 then none else some (Decimal.quotient (sub dd_max dd_start) v_max);
  })
