-- ===== src/Risk/Tracker/Defs.antt =====
-- `EquitySnapshot` and `EquityTracker` of risk/context.py.
use fuzz_helm.Base.{
  Bool, false, Option, none, some, Result, ok, ◌>>◌, raise_if, value_error, if◌then◌else◌,
}
use fuzz_helm.Base.Int.{ℤ, ltb_ℤ, eqb_ℤ}
use fuzz_helm.Decimal
use fuzz_helm.Decimal.{Decimal, d0, d1}
use fuzz_helm.Core.Clock.{utc_day_start_ns}

pub record EquitySnapshot : Type 0 where
  pub ts_ns : ℤ
  pub equity : Decimal
  pub peak : Decimal
  pub drawdown : Decimal
  pub day_start_ns : ℤ
  pub equity_day_open : Decimal
  pub pnl_day : Decimal

-- `day_return`: the divisor is positive where it is used.
unfoldable pub day_return : EquitySnapshot → Decimal
day_return s =
    if Decimal.le s.equity_day_open d0 then d0 else Decimal.quotient s.pnl_day s.equity_day_open

pub record EquityTracker : Type 0 where
  pub peak : Option Decimal
  pub day : Option ℤ
  pub day_open : Decimal
  pub last_equity : Option Decimal
  pub last_ts : Option ℤ
  pub snap : Option EquitySnapshot

-- `EquityTracker()`
abbrev pub fresh : EquityTracker
fresh = record {
  peak = none;
  day = none;
  day_open = d0;
  last_equity = none;
  last_ts = none;
  snap = none;
}

-- `x if x is not None else y`
abbrev pub or_else {ℓ} : {A : Type ℓ} → Option A → A → A
or_else none y = y
or_else (some x) y = x

-- `_make`: the drawdown is 1 where the peak is not positive.
unfoldable pub make : EquityTracker → ℤ → Decimal → EquitySnapshot
make t ts equity =
    let top = or_else t.peak equity in
    record {
      ts_ns = ts;
      equity = equity;
      peak = top;
      drawdown = if Decimal.lt d0 top then Decimal.sub d1 (Decimal.quotient equity top) else d1;
      day_start_ns = or_else t.day (utc_day_start_ns ts);
      equity_day_open = t.day_open;
      pnl_day = Decimal.sub equity t.day_open;
    }

-- `self._last_ts is not None and ts_ns < self._last_ts`
abbrev pub goes_back : Option ℤ → ℤ → Bool
goes_back none ts = false
goes_back (some last) ts = ltb_ℤ ts last

-- The capital with which the day opened, after an observation on `today`.
unfoldable pub open_of : EquityTracker → ℤ → Decimal → Decimal
open_of t today equity = elim t.day [
  | none ↦ equity
  | some d ↦ if eqb_ℤ today d then t.day_open else or_else t.last_equity equity
]

-- `self._peak is None or equity > self._peak`
abbrev pub peak_of : Option Decimal → Decimal → Decimal
peak_of none equity = equity
peak_of (some p) equity = if Decimal.lt p equity then equity else p

-- `update` up to the snapshot.
unfoldable pub observed : EquityTracker → ℤ → Decimal → EquityTracker
unfolding open_of
observed t ts equity =
    let today = utc_day_start_ns ts in
    record t {
      peak = some (peak_of t.peak equity);
      day = some today;
      day_open = open_of t today equity;
      last_equity = some equity;
      last_ts = some ts;
    }

-- The tracker and the snapshot that an accepted observation leaves.
unfoldable pub after : EquityTracker → ℤ → Decimal → EquityTracker × EquitySnapshot
after t ts equity =
    let t' = observed t ts equity in
    let snap = make t' ts equity in (record t' { snap = some snap }, snap)

unfoldable pub update : EquityTracker → ℤ → Decimal → Result (EquityTracker × EquitySnapshot)
update t ts equity = do raise_if (goes_back t.last_ts ts) value_error; ok (after t ts equity)

-- Peak and day start move to the present capital; without an observation nothing changes.
unfoldable pub rebase : EquityTracker → EquityTracker × Option EquitySnapshot
unfolding make
rebase t = elim t.last_equity [
  | none ↦ (t, none)
  | some e ↦ elim t.last_ts [
    | none ↦ (t, none)
    | some ts ↦
        let t' = record t { peak = some e; day_open = e } in
        let snap = make t' ts e in (record t' { snap = some snap }, some snap)
  ]
]
