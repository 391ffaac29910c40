-- ===== src/Decimal/Tests.antt =====
-- Decimal arithmetic on concrete values, against what Python's `decimal` answers.
use fuzz_helm.Base.{◌-◌, false, ◌^◌, ◌≡◌, refl, ok, err, ◌>>=◌, value_error}
use fuzz_helm.Base.Int.{pos, negsuc}
use fuzz_helm.Decimal.Defs.{d1, of_int, le, div, add, sub, floor_qty}

-- 1 / 3 floored to a step of 0.001 is 0.333.
third :
    (div d1 (of_int (pos 3)) >>= λ q. floor_qty q (record { coef = pos 1; scale = 3 }))
    ≡ ok (record { coef = pos 333; scale = 3 })
unfolding div floor_qty le
third = refl

-- 2 / 3 has 38 digits, the last one rounded up.
two_thirds :
    div (of_int (pos 2)) (of_int (pos 3))
    ≡ ok (record { coef = pos 66666666666666666666666666666666666667; scale = 38 })
unfolding div
two_thirds = refl

-- 0.5 - 1.25 is -0.75.
signed :
    sub (record { coef = pos 5; scale = 1 }) (record { coef = pos 125; scale = 2 })
    ≡ record { coef = negsuc 74; scale = 2 }
unfolding sub
signed = refl

-- 10^38 + 1 loses its last digit.
rounded : add (of_int (pos (10 ^ 38))) d1 ≡ of_int (pos (10 ^ 38))
unfolding add
rounded = refl

no_step : floor_qty d1 (of_int (pos 0)) ≡ err value_error
unfolding floor_qty le
no_step = refl

-- 0.999... with 39 nines is rounded up to 1, as the quotient has 38 digits.
floored_up : floor_qty (record { coef = pos (10 ^ 39 - 1); scale = 39 }) d1 ≡ ok d1
unfolding floor_qty le
floored_up = refl

below_the_floor : le d1 (record { coef = pos (10 ^ 39 - 1); scale = 39 }) ≡ false
unfolding le
below_the_floor = refl
