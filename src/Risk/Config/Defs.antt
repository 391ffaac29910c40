-- ===== src/Risk/Config/Defs.antt =====
-- risk/config.py: the six limits and the thresholds of the state machine, with the checks that pydantic
-- and `_ordered` make. An invalid value is an exception; the path to the field is left out.
use fuzz_helm.Base.{
  ℕ, Bool, not, ltb, ◌&&◌, Option, none, some, Result, ok, err, ◌>>=◌, ◌>>◌, raise_if, value_error,
}
use fuzz_helm.Decimal
use fuzz_helm.Decimal.{Decimal, d0, d1}
use fuzz_helm.Core.Float
use fuzz_helm.Core.Float.{Float}
use fuzz_helm.Core.Enums.{RiskState}

pub data CooldownPolicy : Type 0 where
  scaled_entries reduce_only : CooldownPolicy

-- The values of the six limits (`LimitsCfg` and its parts; the literal fields have one value each).
pub record LimitsCfg : Type 0 where
  pub max_position_notional : Decimal
  pub max_gross_leverage : Decimal
  pub max_daily_loss : Decimal
  pub max_drawdown_halt : Decimal
  pub min_dtl_atr : Decimal
  pub b : Decimal
  pub max_lag_s : Decimal
  pub min_dq : Decimal

-- `Field(gt=0, lt=1)`, `Field(ge=0, lt=1)`, `Field(gt=0)`
abbrev gt0_lt1 : Decimal → Bool
gt0_lt1 x = Decimal.lt d0 x && Decimal.lt x d1

abbrev ge0_lt1 : Decimal → Bool
ge0_lt1 x = Decimal.le d0 x && Decimal.lt x d1

abbrev gt0_le1 : Decimal → Bool
gt0_le1 x = Decimal.lt d0 x && Decimal.le x d1

abbrev ge0_le1 : Decimal → Bool
ge0_le1 x = Decimal.le d0 x && Decimal.le x d1

unfoldable pub validate_limits : LimitsCfg → Result LimitsCfg
validate_limits c = do
  raise_if (not (gt0_le1 c.max_position_notional)) value_error
  raise_if (not (Decimal.lt d0 c.max_gross_leverage)) value_error
  raise_if (not (gt0_lt1 c.max_daily_loss)) value_error
  raise_if (not (gt0_lt1 c.max_drawdown_halt)) value_error
  raise_if (not (Decimal.lt d0 c.min_dtl_atr)) value_error
  raise_if (not (ge0_lt1 c.b)) value_error
  raise_if (not (Decimal.lt d0 c.max_lag_s)) value_error
  raise_if (not (ge0_le1 c.min_dq)) value_error
  ok c

-- `kappa_mode` is a dict keyed by the state.
pub record StateMachineCfg : Type 0 where
  pub warn_enter : Decimal
  pub warn_exit : Decimal
  pub warn_dwell : ℕ
  pub warn_vol_ratio : Float
  pub cool_enter : Decimal
  pub cool_exit : Decimal
  pub cool_dwell : ℕ
  pub cool_daily_loss : Decimal
  pub halt_enter : Decimal
  pub halt_daily_loss : Decimal
  pub kappa_mode : RiskState → Option Decimal
  pub cooldown_policy : CooldownPolicy

-- The constraints of the single fields; the dwell times are natural numbers already.
unfoldable pub check_fields : StateMachineCfg → Result (Unit {0})
check_fields c = do
  raise_if (not (gt0_lt1 c.warn_enter)) value_error
  raise_if (not (ge0_lt1 c.warn_exit)) value_error
  raise_if (not (Float.lt (Float.finite d0) c.warn_vol_ratio)) value_error
  raise_if (not (gt0_lt1 c.cool_enter)) value_error
  raise_if (not (ge0_lt1 c.cool_exit)) value_error
  raise_if (not (gt0_lt1 c.cool_daily_loss)) value_error
  raise_if (not (gt0_lt1 c.halt_enter)) value_error
  raise_if (not (gt0_lt1 c.halt_daily_loss)) value_error

-- The nesting of the bands.
unfoldable pub check_bands : StateMachineCfg → Result (Unit {0})
check_bands c = do
  raise_if (not (Decimal.lt c.warn_exit c.warn_enter)) value_error
  raise_if (not (Decimal.lt c.cool_exit c.cool_enter)) value_error
  raise_if (not (Decimal.le c.warn_enter c.cool_exit)) value_error
  raise_if (not (Decimal.lt c.cool_enter c.halt_enter)) value_error
  raise_if (not (Decimal.lt c.cool_daily_loss c.halt_daily_loss)) value_error

-- `k[s]`
unfoldable pub kappa_at : StateMachineCfg → RiskState → Result Decimal
kappa_at c s = elim (c.kappa_mode s) [ none ↦ err value_error | some k ↦ ok k ]

-- The multipliers lie in [0, 1], fall with the severity, and are 0 when halted.
unfoldable pub check_order : Decimal → Decimal → Decimal → Decimal → Result (Unit {0})
check_order n w d h = do
  raise_if (not (ge0_le1 n && (ge0_le1 w && (ge0_le1 d && ge0_le1 h)))) value_error
  raise_if (not (Decimal.le w n && (Decimal.le d w && Decimal.le h d))) value_error
  raise_if (not (Decimal.eq h d0)) value_error

-- One multiplier for each state.
unfoldable pub check_kappa : StateMachineCfg → Result (Unit {0})
check_kappa c = do
  n ← kappa_at c RiskState.normal
  w ← kappa_at c RiskState.warning
  d ← kappa_at c RiskState.cooldown
  h ← kappa_at c RiskState.halted
  check_order n w d h

unfoldable pub validate : StateMachineCfg → Result StateMachineCfg
validate c = do check_fields c; check_bands c; check_kappa c; ok c

-- `SizingCfg` and `HysteresisCfg`: floats that are only compared here.
pub record SizingCfg : Type 0 where
  pub ewma_lambda : Float
  pub annualization_bars : ℕ
  pub sigma_target : Float
  pub scale_min : Float
  pub scale_max : Float
  pub filter_gamma : Float
  pub rho_base : Float
  pub chi_atr : Float
  pub max_leverage : Float

abbrev above_zero : Float → Bool
above_zero x = Float.lt (Float.finite d0) x

abbrev below_one : Float → Bool
below_one x = Float.lt x (Float.finite d1)

unfoldable pub validate_sizing : SizingCfg → Result SizingCfg
validate_sizing c = do
  raise_if (not (above_zero c.ewma_lambda && below_one c.ewma_lambda)) value_error
  raise_if (not (ltb 0 c.annualization_bars)) value_error
  raise_if (not (above_zero c.sigma_target)) value_error
  raise_if (not (above_zero c.scale_min)) value_error
  raise_if (not (above_zero c.scale_max)) value_error
  raise_if (not (above_zero c.filter_gamma && Float.le c.filter_gamma (Float.finite d1)))
      value_error
  raise_if (not (above_zero c.rho_base && below_one c.rho_base)) value_error
  raise_if (not (above_zero c.chi_atr)) value_error
  raise_if (not (above_zero c.max_leverage)) value_error
  raise_if (not (Float.le c.scale_min c.scale_max)) value_error
  ok c

pub record HysteresisCfg : Type 0 where
  pub enter : Float
  pub exit : Float

unfoldable pub validate_hysteresis : HysteresisCfg → Result HysteresisCfg
validate_hysteresis c = do
  raise_if (not (above_zero c.enter && Float.le c.enter (Float.finite d1))) value_error
  raise_if (not (Float.le (Float.finite d0) c.exit && Float.le c.exit (Float.finite d1)))
      value_error
  raise_if (not (Float.le c.exit c.enter)) value_error
  ok c

-- `RiskConfig`, of parts that were accepted.
pub record RiskConfig : Type 0 where
  pub limits : LimitsCfg
  pub state_machine : StateMachineCfg
  pub sizing : SizingCfg
  pub hysteresis : HysteresisCfg
