-- ===== src/Decimal/Order.antt =====
-- The comparisons of the decimals are a total preorder, at any scales.
use native.Mathlib.Nat.{mul-le-mul_right, le_of_mul-le-mul_right, one-le-pow}
use fuzz_helm.Base.{ℕ, ◌+◌, ◌*◌, ◌^◌, ◌≤◌, ◌<◌, ◌≡◌, ◌⊎◌, true, false, arith, leb→le, le→leb}
use fuzz_helm.Base.Int.{pos_part, neg_part}
use fuzz_helm.Decimal.Defs.{Decimal, le}

pow_pos : (n : ℕ) → 0 < 10 ^ n
pow_pos n = one-le-pow n 10 (omega arith)

-- Transitivity of cross-multiplied comparisons: p q r are the parts' denominators.
cross_trans :
    (a a' b b' c c' p q r : ℕ)
    → 0 < q
    → a * q + b' * p ≤ b * p + a' * q
    → b * r + c' * q ≤ c * q + b' * r
    → a * r + c' * p ≤ c * p + a' * r
cross_trans a a' b b' c c' p q r hq h k =
    le_of_mul-le-mul_right {k = q} (omega (arith, mul-le-mul_right r h, mul-le-mul_right p k)) hq

pub le_refl : (a : Decimal) → le a a ≡ true
unfolding le
le_refl a = le→leb _ _ (omega arith)

pub le_trans : (a b c : Decimal) → le a b ≡ true → le b c ≡ true → le a c ≡ true
unfolding le
le_trans a b c h k = le→leb _ _ (
    cross_trans (pos_part a.coef) (neg_part a.coef) (pos_part b.coef) (neg_part b.coef)
      (pos_part c.coef) (neg_part c.coef) (10 ^ a.scale) (10 ^ b.scale) (10 ^ c.scale)
      (pow_pos b.scale) (leb→le _ _ h) (leb→le _ _ k))

pub le_total : (a b : Decimal) → (le a b ≡ true) ⊎ (le b a ≡ true)
unfolding le
le_total a b = ground arith

pub le_of_not-le : (a b : Decimal) → le b a ≡ false → le a b ≡ true
le_of_not-le a b h = ground (arith, le_total a b)
