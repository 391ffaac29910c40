-- ===== src/Sizing/Hysteresis/Defs.antt =====
-- `HysteresisGate` of sizing/hysteresis.py. Its methods return the gate that they leave.
use fuzz_helm.Base.{
  ℕ, ◌+◌, Bool, true, false, not, ◌&&◌, Result, ok, ◌>>◌, raise_if, value_error, if◌then◌else◌,
}
use fuzz_helm.Decimal.{d0, d1}
use fuzz_helm.Core.Enums.{Side}
use fuzz_helm.Core.Float
use fuzz_helm.Core.Float.{Float, is_finite}

pub record HysteresisGate : Type 0 where
  pub enter : Float
  pub exit : Float
  pub side : Side
  pub flips : ℕ

-- `HysteresisGate(enter, exit, initial)`
unfoldable pub gate : Float → Float → Side → Result HysteresisGate
gate enter exit initial = do
  raise_if
      (not (
        Float.le (Float.finite d0) exit
        && (Float.le exit enter && Float.le enter (Float.finite d1))))
      value_error
  ok (record { enter = enter; exit = exit; side = initial; flips = 0 })

unfoldable pub reset : HysteresisGate → Side → HysteresisGate
reset g side = record g { side = side }

-- The side that a finite signal leads to.
unfoldable pub next_side : HysteresisGate → Float → Side → Side
next_side g u Side.flat =
    if Float.le g.enter u
    then Side.long
    else if Float.le u (Float.neg g.enter)
    then Side.short
    else Side.flat
next_side g u Side.long =
    if Float.le u (Float.neg g.enter)
    then Side.short
    else if Float.lt u g.exit
    then Side.flat
    else Side.long
next_side g u Side.short =
    if Float.le g.enter u
    then Side.long
    else if Float.lt (Float.neg g.exit) u
    then Side.flat
    else Side.short

abbrev pub same_side : Side → Side → Bool
same_side Side.short Side.short = true
same_side Side.flat Side.flat = true
same_side Side.long Side.long = true
same_side _ _ = false

abbrev pub moved : HysteresisGate → Side → HysteresisGate
moved g s = if same_side s g.side then g else record g { side = s; flips = g.flips + 1 }

-- `update(u_final)`: the side, and the gate.
unfoldable pub update : HysteresisGate → Float → Result (Side × HysteresisGate)
unfolding next_side
update g u = do
  raise_if (not (is_finite u)) value_error
  ok (next_side g u g.side, moved g (next_side g u g.side))
