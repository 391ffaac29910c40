-- ===== src/Core/Float.antt =====
-- Python floats where the code only compares and negates them. A finite float is a dyadic number, so it
-- is given by its exact decimal value.
use fuzz_helm.Base.{zero, suc, ◌≡◌, refl, Bool, true, false, arith, Bool-cases, inl, inr, not}
use fuzz_helm.Decimal
use fuzz_helm.Decimal.{Decimal, d0}
use fuzz_helm.Decimal.Order.{le_trans, le_of_not-le}
use fuzz_helm.Base.Int.{neg_int, ℤ, pos, negsuc, pos_part, neg_part}

pub data Float : Type 0 where
  finite : Decimal → Float
  nan inf neg_inf : Float

-- `math.isfinite(x)`
abbrev pub is_finite : Float → Bool
is_finite (Float.finite d) = true
is_finite _ = false

-- `a <= b`; every comparison with NaN is false.
abbrev pub le : Float → Float → Bool
le (Float.finite a) (Float.finite b) = Decimal.le a b
le Float.nan _ = false
le _ Float.nan = false
le Float.neg_inf _ = true
le _ Float.inf = true
le _ _ = false

-- `a < b`
abbrev pub lt : Float → Float → Bool
lt (Float.finite a) (Float.finite b) = Decimal.lt a b
lt Float.nan _ = false
lt _ Float.nan = false
lt Float.neg_inf Float.neg_inf = false
lt Float.neg_inf _ = true
lt Float.inf _ = false
lt _ Float.inf = true
lt _ _ = false

-- The exact negation: only the sign changes.
abbrev pub negated : Decimal → Decimal
negated a = record a { coef = neg_int a.coef }

-- `-a`
abbrev pub neg : Float → Float
neg (Float.finite a) = Float.finite (negated a)
neg Float.nan = Float.nan
neg Float.inf = Float.neg_inf
neg Float.neg_inf = Float.inf

neg_int_parts : (a : ℤ) → (pos_part (neg_int a) ≡ neg_part a) × (neg_part (neg_int a) ≡ pos_part a)
neg_int_parts (pos zero) = (refl, refl)
neg_int_parts (pos (suc n)) = (refl, refl)
neg_int_parts (negsuc n) = (refl, refl)

-- Negation reverses the order.
pub negated-le : (a b : Decimal) → Decimal.le a b ≡ true → Decimal.le (negated b) (negated a) ≡ true
unfolding Decimal.le
negated-le a b h = ground (arith, neg_int_parts a.coef, neg_int_parts b.coef)

false_of_not : {b : Bool} → not b ≡ true → b ≡ false
false_of_not h = ground arith

-- A positive number is above its negation.
pub above_negated : (a : Decimal) → Decimal.lt d0 a ≡ true → Decimal.le a (negated a) ≡ false
above_negated a h = elim (Bool-cases (Decimal.le a (negated a))) [
  | inr k ↦ k
  | inl k ↦
      cc (le_trans a (negated a) d0 k (negated-le d0 a (le_of_not-le d0 a (false_of_not h))), h)
]
