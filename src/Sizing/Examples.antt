-- ===== src/Sizing/Examples.antt =====
-- The gate with the thresholds of config/risk_limits.yaml.
use fuzz_helm.Base.{◌≡◌, refl, ok}
use fuzz_helm.Base.Int.{pos}
use fuzz_helm.Decimal
use fuzz_helm.Decimal.{Decimal, d0}
use fuzz_helm.Core.Enums.{Side}
use fuzz_helm.Core.Float.{Float}
use fuzz_helm.Sizing.Hysteresis.{HysteresisGate, gate, next_side, update}
use fuzz_helm.Sizing.Hysteresis.Band.{IsOpen, update-twice}

abbrev enter : Decimal
enter = record { coef = pos 25; scale = 2 }

abbrev exit : Decimal
exit = record { coef = pos 12; scale = 2 }

abbrev flat_gate : HysteresisGate
flat_gate = record {
  enter = Float.finite enter;
  exit = Float.finite exit;
  side = Side.flat;
  flips = 0;
}

flat_gate-IsOpen : IsOpen flat_gate
unfolding Decimal.le
flat_gate-IsOpen = record {
  enter = enter;
  exit = exit;
  enter_eq = refl;
  exit_eq = refl;
  exit_nonneg = refl;
  exit_le = refl;
  enter_pos = refl;
}

abbrev strong : Decimal
strong = record { coef = pos 3; scale = 1 }

update-twice_example :
    (s : Side) × (h : HysteresisGate) × (update flat_gate (Float.finite strong) ≡ ok (s, h))
    × (update h (Float.finite strong) ≡ ok (s, h))
update-twice_example = update-twice flat_gate strong flat_gate-IsOpen

-- With both thresholds at zero, which the constructor accepts, the signal 0 moves the gate at every bar.
abbrev zero_gate : Side → HysteresisGate
zero_gate s = record { enter = Float.finite d0; exit = Float.finite d0; side = s; flips = 0 }

zero_accepted : gate (Float.finite d0) (Float.finite d0) Side.flat ≡ ok (zero_gate Side.flat)
unfolding gate Decimal.le
zero_accepted = refl

zero_to_short : next_side (zero_gate Side.long) (Float.finite d0) Side.long ≡ Side.short
unfolding next_side Decimal.le
zero_to_short = refl

zero_to_long : next_side (zero_gate Side.short) (Float.finite d0) Side.short ≡ Side.long
unfolding next_side Decimal.le
zero_to_long = refl
