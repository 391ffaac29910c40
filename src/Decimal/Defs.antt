-- ===== src/Decimal/Defs.antt =====
-- The decimals and their operations (core/money.py, and the `decimal` calls of the other files).
use fuzz_helm.Base.{
  ℕ, zero, suc, ◌+◌, ◌-◌, ◌*◌, ◌/◌, ◌%◌, ◌^◌, Bool, true, false, not, ◌&&◌, ltb, leb, ◌==◌,
  if◌then◌else◌, Result, ok, err, ◌>>=◌, ◌>>◌, raise_if, value_error, division_by_zero,
  invalid_operation,
}
use fuzz_helm.Base.Int.{ℤ, pos, negsuc, pos_part, neg_part, ◌+ℤ◌, ◌-ℤ◌, with_abs, abs_ℤ}

pub record Decimal : Type 0 where
  pub coef : ℤ
  pub scale : ℕ

-- `D0`, `D1`
abbrev pub d0 : Decimal
d0 = record { coef = pos 0; scale = 0 }

abbrev pub d1 : Decimal
d1 = record { coef = pos 1; scale = 0 }

-- `dec(n)` of an integer.
abbrev pub of_int : ℤ → Decimal
of_int n = record { coef = n; scale = 0 }

-- Comparisons are of the exact values: cross-multiplied, with the signs on either side.
unfoldable pub le : Decimal → Decimal → Bool
le a b =
    leb (pos_part a.coef * 10 ^ b.scale + neg_part b.coef * 10 ^ a.scale)
      (pos_part b.coef * 10 ^ a.scale + neg_part a.coef * 10 ^ b.scale)

abbrev pub lt : Decimal → Decimal → Bool
lt a b = not (le b a)

abbrev pub eq : Decimal → Decimal → Bool
eq a b = le a b && le b a

-- The number of decimal digits; the fuel is the number itself.
width_from : ℕ → ℕ → ℕ
width_from zero n = 0
width_from (suc f) n = elim (n == 0) [ true ↦ 0 | false ↦ suc (width_from f (n / 10)) ]

unfoldable pub width : ℕ → ℕ
unfolding width_from
width n = width_from n n

pub data Rounding : Type 0 where
  down half_even : Rounding

-- n / d as an integer, for d > 0.
unfoldable pub div_round : Rounding → ℕ → ℕ → ℕ
div_round Rounding.down n d = n / d
div_round Rounding.half_even n d =
    let q = n / d in
    let r = 2 * (n % d) in if ltb d r then q + 1 else if r == d then q + q % 2 else q

abbrev pub prec : ℕ
prec = 38

-- `DECIMAL_CONTEXT`: an exact result rounded to 38 digits.
unfoldable pub round_prec : Decimal → Decimal
unfolding width div_round
round_prec a =
    let drop = width (abs_ℤ a.coef) - prec in
    let q = div_round Rounding.half_even (abs_ℤ a.coef) (10 ^ drop) in
    if drop == 0
    then a
    else record { coef = with_abs a.coef (q * 10 ^ (drop - a.scale)); scale = a.scale - drop }

-- A coefficient over another scale, no less than its own.
abbrev rescaled : Decimal → ℕ → ℤ
rescaled a s = with_abs a.coef (abs_ℤ a.coef * 10 ^ (s - a.scale))

abbrev max_scale : Decimal → Decimal → ℕ
max_scale a b = if leb a.scale b.scale then b.scale else a.scale

unfoldable pub add : Decimal → Decimal → Decimal
unfolding round_prec ◌+ℤ◌
add a b =
    let s = max_scale a b in round_prec (record { coef = rescaled a s +ℤ rescaled b s; scale = s })

unfoldable pub sub : Decimal → Decimal → Decimal
unfolding round_prec ◌-ℤ◌
sub a b =
    let s = max_scale a b in round_prec (record { coef = rescaled a s -ℤ rescaled b s; scale = s })

unfoldable pub neg : Decimal → Decimal
unfolding sub
neg a = sub d0 a

unfoldable pub abs : Decimal → Decimal
unfolding round_prec
abs a = round_prec (record { coef = pos (abs_ℤ a.coef); scale = a.scale })

-- The sign of a product of two integers, with a magnitude.
abbrev mul_sign : ℤ → ℤ → ℕ → ℤ
mul_sign (pos a) b m = with_abs b m
mul_sign (negsuc a) (pos b) m = with_abs (negsuc a) m
mul_sign (negsuc a) (negsuc b) m = pos m

unfoldable pub mul : Decimal → Decimal → Decimal
unfolding round_prec
mul a b = round_prec (record {
  coef = mul_sign a.coef b.coef (abs_ℤ a.coef * abs_ℤ b.coef);
  scale = a.scale + b.scale;
})

-- The quotient for b ≠ 0: taken to at least 39 digits, the last made sticky as `decimal` does, and
-- rounded once. Code that has tested the divisor calls it directly.
unfoldable pub quotient : Decimal → Decimal → Decimal
unfolding round_prec
quotient a b =
    let n = abs_ℤ a.coef * 10 ^ b.scale in
    let d = abs_ℤ b.coef * 10 ^ a.scale in
    let shift = width d + (prec + 1) - width n in
    let q = n * 10 ^ shift / d in
    let sticky = if (n * 10 ^ shift) % d == 0 then q else if q % 5 == 0 then q + 1 else q in
    round_prec (record { coef = mul_sign a.coef b.coef sticky; scale = shift })

-- `a / b`
unfoldable pub div : Decimal → Decimal → Result Decimal
unfolding quotient
div a b = if abs_ℤ b.coef == 0 then err division_by_zero else ok (quotient a b)

-- Python's `max(a, b)` and `min(a, b)`: the first argument stays unless the second is beyond it.
abbrev pub max : Decimal → Decimal → Decimal
max a b = if lt a b then b else a

abbrev pub min : Decimal → Decimal → Decimal
min a b = if lt b a then b else a

-- `(x > 0) - (x < 0)`
abbrev pub sign : Decimal → ℤ
sign x = if lt d0 x then pos 1 else if lt x d0 then negsuc 0 else pos 0

-- `x.to_integral_value(rounding)`
unfoldable pub to_integral : Rounding → Decimal → Decimal
unfolding div_round
to_integral r a = record {
  coef = with_abs a.coef (div_round r (abs_ℤ a.coef) (10 ^ a.scale));
  scale = 0;
}

-- `x.quantize(step)`: to the step's exponent, refused where the coefficient outgrows the context.
unfoldable pub quantize : Decimal → ℕ → Result Decimal
unfolding div_round width
quantize a s =
    let c = div_round Rounding.half_even (abs_ℤ a.coef * 10 ^ (s - a.scale)) (10 ^ (a.scale - s)) in
    if ltb prec (width c)
    then err invalid_operation
    else ok (record { coef = with_abs a.coef c; scale = s })

unfoldable pub quantize_step : Decimal → Decimal → Rounding → Result Decimal
unfolding div mul to_integral quantize
quantize_step x step rounding = do
  raise_if (le step d0) value_error
  n ← div x step
  quantize (mul (to_integral rounding n) step) step.scale

unfoldable pub quantize_price : Decimal → Decimal → Result Decimal
unfolding quantize_step
quantize_price x tick = quantize_step x tick Rounding.half_even

unfoldable pub floor_qty : Decimal → Decimal → Result Decimal
unfolding quantize_step
floor_qty x step = quantize_step x step Rounding.down

-- `QUANTUM_MONEY` has 2 places, `QUANTUM_INTERNAL` has 18.
unfoldable pub quantize_money : Decimal → Result Decimal
unfolding quantize
quantize_money x = quantize x 2

unfoldable pub quantize_internal : Decimal → Result Decimal
unfolding quantize
quantize_internal x = quantize x 18
