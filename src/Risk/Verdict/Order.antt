-- ===== src/Risk/Verdict/Order.antt =====
-- The order of fractions and of the exposures that they scale.
use native.Mathlib.Nat.{
  mul-le-mul_right, le_of_mul-le-mul_right, one-le-pow, le-div_iff_mul-le, div-mul-le_self,
  div-add-mod', div-eq_of_eq-mul_left, one-le-mul,
}
use fuzz_helm.Base.{
  ℕ, ◌*◌, ◌/◌, ◌%◌, ◌^◌, ◌≤◌, ◌<◌, ◌≡◌, inl, inr, sym, ap, true, false, Bool-cases, ◌==◌, le→leb,
  arith,
}
use fuzz_helm.Base.Int.{abs_ℤ, neg_part}
use fuzz_helm.Decimal
use fuzz_helm.Decimal.{Decimal, d0}
use fuzz_helm.Risk.Verdict.Defs.{Fraction, floor_fraction, times, of_decimal}

-- The order of fractions, cross-multiplied.
abbrev pub FractionLe : Fraction → Fraction → Type 0
FractionLe a b = a.num * b.den ≤ b.num * a.den

pow_pos : (n : ℕ) → 0 < 10 ^ n
pow_pos n = one-le-pow n 10 (omega arith)

-- The number of 10⁻¹⁸ units below a fraction.
abbrev units : Fraction → ℕ
units x = x.num * 10 ^ 18 / x.den

units_mono : (x y : Fraction) → 0 < x.den → 0 < y.den → FractionLe x y → units x ≤ units y
units_mono x y hx hy h = (le-div_iff_mul-le hy).1 (
    le_of_mul-le-mul_right {k = x.den}
      (omega (
        arith,
        mul-le-mul_right y.den (div-mul-le_self (x.num * 10 ^ 18) x.den),
        mul-le-mul_right (10 ^ 18) h,
      ))
      hx)

==→eq : (a b : ℕ) → (a == b) ≡ true → a ≡ b
==→eq a b h = ground arith

-- A whole fraction is worth its units.
whole-units :
    (x : Fraction) → 0 < x.den → (x.num % x.den == 0) ≡ true → x.num / x.den * 10 ^ 18 ≡ units x
whole-units x h e =
    sym
      (div-eq_of_eq-mul_left h (omega (arith, div-add-mod' x.num x.den, ==→eq (x.num % x.den) 0 e)))

-- Comparison with a floored fraction, in units.
le-floor_fraction :
    (x y : Fraction)
    → 0 < x.den
    → 0 < y.den
    → units x ≤ units y
    → Decimal.le (floor_fraction x) (floor_fraction y) ≡ true
unfolding floor_fraction Decimal.le
le-floor_fraction x y hx hy h = elim (Bool-cases (x.num % x.den == 0)) [
  | inl ex ↦ elim (Bool-cases (y.num % y.den == 0)) [
    | inl ey ↦ rw (ex, ey) (le→leb _ _ (omega (arith, whole-units x hx ex, whole-units y hy ey)))
    | inr ey ↦ rw (ex, ey) (le→leb _ _ (omega (arith, whole-units x hx ex)))
  ]
  | inr ex ↦ elim (Bool-cases (y.num % y.den == 0)) [
    | inl ey ↦ rw (ex, ey) (le→leb _ _ (omega (arith, whole-units y hy ey)))
    | inr ey ↦ rw (ex, ey) (le→leb _ _ (omega arith))
  ]
]

-- Flooring keeps the order of fractions.
pub floor_fraction_mono :
    (x y : Fraction)
    → 0 < x.den
    → 0 < y.den
    → FractionLe x y
    → Decimal.le (floor_fraction x) (floor_fraction y) ≡ true
floor_fraction_mono x y hx hy h = le-floor_fraction x y hx hy (units_mono x y hx hy h)

nonneg-neg_part : (q : Decimal) → Decimal.lt q d0 ≡ false → neg_part q.coef ≡ 0
unfolding Decimal.le
nonneg-neg_part q h = ground arith

units-le :
    (q : Decimal) (f : Fraction)
    → 0 < f.den
    → f.num ≤ f.den
    → units (times (of_decimal q) f) * 10 ^ q.scale ≤ abs_ℤ q.coef * 10 ^ 18
units-le q f hf h =
    le_of_mul-le-mul_right {k = f.den}
      (omega (
        arith,
        div-mul-le_self (abs_ℤ q.coef * f.num * 10 ^ 18) (10 ^ q.scale * f.den),
        mul-le-mul_right (abs_ℤ q.coef) h,
      ))
      hf

-- A decimal that is not negative, scaled by a fraction of at most 1 and floored, has not grown.
pub floor_fraction-le :
    (q : Decimal) (f : Fraction)
    → Decimal.lt q d0 ≡ false
    → 0 < f.den
    → f.num ≤ f.den
    → Decimal.le (floor_fraction (times (of_decimal q) f)) q ≡ true
unfolding floor_fraction Decimal.le
floor_fraction-le q f nn hf h =
    let x = times (of_decimal q) f in
    let below = units-le q f hf h in
    let n = nonneg-neg_part q nn in
    let hx : 0 < x.den = one-le-mul (pow_pos q.scale) hf in
    elim (Bool-cases (x.num % x.den == 0)) [
      | inl e ↦
          rw e
            (le→leb _ _ (omega (arith, n, below, ap (λ t. t * 10 ^ q.scale) (whole-units x hx e))))
      | inr e ↦ rw e (le→leb _ _ (omega (arith, n, below)))
    ]

-- A floored fraction is not negative.
pub floor_fraction_nonneg : (x : Fraction) → Decimal.le d0 (floor_fraction x) ≡ true
unfolding floor_fraction Decimal.le
floor_fraction_nonneg x = ground arith
