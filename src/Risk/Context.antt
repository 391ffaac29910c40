-- ===== src/Risk/Context.antt =====
-- `RiskContext` of risk/context.py: what the rules see of one request on one instrument.
use fuzz_helm.Base.{
  ◌^◌, Bool, false, not, ◌||◌, Option, none, some, String, Result, ok, ◌>>◌, raise_if, value_error,
  if◌then◌else◌,
}
use fuzz_helm.Base.Int.{ℤ, pos, negsuc, ◌-ℤ◌, eqb_ℤ}
use fuzz_helm.Decimal
use fuzz_helm.Decimal.{Decimal, d0, d1}
use fuzz_helm.Core.Enums.{RiskState}
use fuzz_helm.Risk.Tracker.{EquitySnapshot}
use fuzz_helm.Risk.Verdict.{Verdict, allow, veto, shrink, over}

-- The arguments of the constructor.
pub record Request : Type 0 where
  pub ts_ns : ℤ
  pub instrument : String
  pub price : Decimal
  pub equity : Decimal
  pub current_qty : Decimal
  pub target_qty : Decimal
  pub atr : Decimal
  pub stop_distance : Decimal
  pub drawdown : Decimal
  pub pnl_day : Decimal
  pub equity_day_open : Option Decimal
  pub day_start_ns : Option ℤ
  pub gross_notional_other : Decimal
  pub mmr : Decimal
  pub maint_amount : Decimal
  pub leverage_setting : Decimal
  pub last_data_ns : Option ℤ
  pub dq_score : Decimal
  pub risk_state : RiskState
  pub step_size : Option Decimal

pub record RiskContext : Type 0 where
  pub request : Request
  pub open request use *
  pub base_qty : Decimal
  pub increase_qty : Decimal
  pub post_qty : Decimal

abbrev pub target_side : Request → ℤ
target_side r = Decimal.sign r.target_qty

-- `is_flip`: the product of the two signs is negative.
abbrev opposite : ℤ → ℤ → Bool
opposite (negsuc a) (pos b) = not (eqb_ℤ (pos b) (pos 0))
opposite (pos a) (negsuc b) = not (eqb_ℤ (pos a) (pos 0))
opposite _ _ = false

unfoldable pub is_flip : Request → Bool
is_flip r = opposite (Decimal.sign r.current_qty) (Decimal.sign r.target_qty)

-- The part of the position that stays, and the increase: nothing for a close, all for a reversal.
unfoldable pub split : Request → Decimal × Decimal
unfolding is_flip
split r =
    let cur = Decimal.abs r.current_qty in
    let tgt = Decimal.abs r.target_qty in
    if Decimal.eq r.target_qty d0
    then (d0, d0)
    else if is_flip r
    then (d0, tgt)
    else (Decimal.min cur tgt, Decimal.max d0 (Decimal.sub tgt cur))

-- `RiskContext(...)`, with the checks of `__post_init__`.
unfoldable pub context : Request → Result RiskContext
unfolding split
context r = do
  raise_if (Decimal.le r.price d0) value_error
  raise_if (Decimal.lt r.atr d0 || Decimal.lt r.stop_distance d0) value_error
  raise_if (Decimal.le r.leverage_setting d0) value_error
  raise_if (Decimal.lt r.gross_notional_other d0) value_error
  ok (record {
    request = r;
    base_qty = (split r).0;
    increase_qty = (split r).1;
    post_qty = Decimal.abs r.target_qty;
  })

unfoldable pub post_notional : RiskContext → Decimal
post_notional c = Decimal.mul c.post_qty c.price

-- `lag_ns`
unfoldable pub lag_ns : RiskContext → ℤ
lag_ns c = elim c.last_data_ns [ none ↦ pos 0 | some t ↦ c.ts_ns -ℤ t ]

unfoldable pub effective_day_open : RiskContext → Decimal
effective_day_open c = elim c.equity_day_open [ none ↦ c.equity | some e ↦ e ]

-- A bound on the position after the order, as a verdict on the increase.
unfoldable pub cap_increase : RiskContext → Decimal → Result Verdict
cap_increase c q_max =
    let room = Decimal.sub q_max c.base_qty in
    if Decimal.le c.increase_qty d0 || Decimal.le c.post_qty q_max
    then ok allow
    else if Decimal.le room d0
    then ok veto
    else shrink (over room c.increase_qty)

-- `ratio`: undefined where the denominator is not positive.
unfoldable pub ratio : Decimal → Decimal → Option Decimal
ratio num den = if Decimal.le den d0 then none else some (Decimal.quotient num den)

unfoldable pub dec_ns_to_s : ℤ → Decimal
dec_ns_to_s ns = Decimal.quotient (Decimal.of_int ns) (Decimal.of_int (pos (10 ^ 9)))

-- `RiskContext.from_snapshot(snap, **fields)`: the capital, the drawdown and the day are the snapshot's.
unfoldable pub from_snapshot : EquitySnapshot → Request → Result RiskContext
unfolding context
from_snapshot s fields = context (record fields {
  ts_ns = s.ts_ns;
  equity = s.equity;
  drawdown = s.drawdown;
  pnl_day = s.pnl_day;
  equity_day_open = some s.equity_day_open;
  day_start_ns = some s.day_start_ns;
})
