-- ===== src/Risk/Verdict/Bound.antt =====
-- A composed verdict allows no more than any of its parts, and never more than was requested.
use native.Mathlib.Nat.{
  le_trans, le_refl as le_refl_ℕ, mul-le-mul_right, le_of_mul-le-mul_right, one-le-mul, one-le-pow,
}
use fuzz_helm.Base.{
  ◌*◌, ◌^◌, ◌≤◌, ◌<◌, ◌≡◌, ◌∙◌, ap, refl, sym, ◌⊎◌, inl, inr, Bool, true, false, List, [], ◌∷◌, All,
  ok, raise_if-eq-ok, ok-injective, value_error, arith,
}
use mathlib.Core.Path.{subst}
use fuzz_helm.Base.Int.{abs_ℤ}
use fuzz_helm.Decimal
use fuzz_helm.Decimal.{Decimal, d0}
use fuzz_helm.Decimal.Order.{le_refl}
use fuzz_helm.Core.Enums.{VerdictKind}
use fuzz_helm.Risk.Verdict.Defs.{
  Fraction, Verdict, times, one, of_decimal, make, compose, compose_from, exposure, floor_fraction,
}
use fuzz_helm.Risk.Verdict.Order.{
  FractionLe, floor_fraction_mono, floor_fraction-le, floor_fraction_nonneg,
}
use fuzz_helm.Risk.Verdict.Compose.{
  IsValid, InRange, compose-ok, kind-cases, shrink-range, InRange-le, times-InRange,
}

-- How a composed verdict `r` stands to one of its parts.
abbrev Within : Verdict → Verdict → Type 0
Within r v =
    (r.kind ≡ VerdictKind.veto)
    ⊎ ((v.kind ≡ VerdictKind.allow)
        ⊎ ((r.kind ≡ VerdictKind.shrink)
            × (v.kind ≡ VerdictKind.shrink)
            × FractionLe r.factor v.factor))

-- How the result of the loop stands to the product so far.
abbrev Under : Verdict → Fraction → Type 0
Under r p = (r.kind ≡ VerdictKind.veto) ⊎ ((r.kind ≡ VerdictKind.shrink) × FractionLe r.factor p)

-- A fraction below a product is below each of its two factors, if the other is at most 1.
below_left :
    (r p f : Fraction) → 0 < f.den → f.num ≤ f.den → FractionLe r (times p f) → FractionLe r p
below_left r p f pos le h =
    le_of_mul-le-mul_right {k = f.den} (omega (arith, mul-le-mul_right (p.num * r.den) le)) pos

below_right :
    (r p f : Fraction) → 0 < p.den → p.num ≤ p.den → FractionLe r (times p f) → FractionLe r f
below_right r p f pos le h =
    le_of_mul-le-mul_right {k = p.den} (omega (arith, mul-le-mul_right (f.num * r.den) le)) pos

shrunk :
    (p : Fraction) {r : Verdict}
    → make VerdictKind.shrink p ≡ ok r
    → record { kind = VerdictKind.shrink; factor = p } ≡ r
unfolding make
shrunk p h = ok-injective (raise_if-eq-ok _ value_error _ h).1

Under-times :
    (r : Verdict) (p f : Fraction) → (0 < f.num) × (f.num < f.den) → Under r (times p f) → Under r p
Under-times r p f k (inl e) = inl e
Under-times r p f k (inr (e, h)) = inr (e, below_left r.factor p f (omega arith) (omega arith) h)

-- Once a factor was met, the loop gives a veto or a shrink of at most the product.
compose_from-Under :
    (p : Fraction) (vs : List Verdict) {r : Verdict}
    → InRange p true
    → All IsValid vs
    → compose_from p true vs ≡ ok r
    → Under r p
unfolding compose_from
compose_from-Under p [] i t h = rw (← shrunk p h) (inr (refl, le_refl_ℕ _))
compose_from-Under p (v ∷ vs) {r} i t h = elim (kind-cases v.kind) [
  | inl e ↦ compose_from-Under p vs i t.1 (rw e at h)
  | inr (inl e) ↦
      let k = shrink-range v t.0 e in
      Under-times r p v.factor k (
        compose_from-Under (times p v.factor) vs (times-InRange p v.factor true i k) t.1
          (rw e at h))
  | inr (inr e) ↦ inl (sym (ap (λ u. u.kind) (ok-injective (rw e at h))))
]

All-veto : (r : Verdict) (vs : List Verdict) → r.kind ≡ VerdictKind.veto → All (Within r) vs
All-veto r [] e = tt
All-veto r (v ∷ vs) e = (inl e, All-veto r vs e)

Under-Within :
    (r v : Verdict) (p : Fraction)
    → v.kind ≡ VerdictKind.shrink
    → 0 < p.den
    → p.num ≤ p.den
    → Under r (times p v.factor)
    → Within r v
Under-Within r v p e pos le (inl d) = inl d
Under-Within r v p e pos le (inr (d, h)) =
    inr (inr (d, e, below_right r.factor p v.factor pos le h))

compose_from-Within :
    (p : Fraction) (b : Bool) (vs : List Verdict) {r : Verdict}
    → InRange p b
    → All IsValid vs
    → compose_from p b vs ≡ ok r
    → All (Within r) vs
unfolding compose_from
compose_from-Within p b [] i t h = tt
compose_from-Within p b (v ∷ vs) {r} i t h = elim (kind-cases v.kind) [
  | inl e ↦ (inr (inl e), compose_from-Within p b vs i t.1 (rw e at h))
  | inr (inl e) ↦
      let k = shrink-range v t.0 e in
      let i' = times-InRange p v.factor b i k in
      let (pos, le) = InRange-le p b i in
      (
        Under-Within r v p e (le_trans pos le) le
            (compose_from-Under (times p v.factor) vs i' t.1 (rw e at h)),
        compose_from-Within (times p v.factor) true vs i' t.1 (rw e at h),
      )
  | inr (inr e) ↦
      let is_veto = sym (ap (λ u. u.kind) (ok-injective (rw e at h))) in
      (inl is_veto, All-veto r vs is_veto)
]

-- What a verdict lets through of a request that is not negative.
abbrev allowed : Verdict → Decimal → Decimal
allowed v q = elim v.kind [
  | VerdictKind.allow ↦ q
  | VerdictKind.veto ↦ d0
  | VerdictKind.shrink ↦ floor_fraction (times (of_decimal q) v.factor)
]

exposure-ok :
    (v : Verdict) (q : Decimal) {x : Decimal}
    → exposure v q ≡ ok x
    → (Decimal.lt q d0 ≡ false) × (allowed v q ≡ x)
unfolding exposure
exposure-ok v q h =
    let (nn, e) = raise_if-eq-ok (Decimal.lt q d0) value_error (ok (allowed v q)) h in
    (nn, ok-injective e)

exposure-allowed :
    (v : Verdict) (q : Decimal) → Decimal.lt q d0 ≡ false → exposure v q ≡ ok (allowed v q)
unfolding exposure
exposure-allowed v q nn = rw nn

not_lt-le : (a b : Decimal) → Decimal.lt a b ≡ false → Decimal.le b a ≡ true
not_lt-le a b h = ground arith

allowed-le :
    (v : Verdict) (q : Decimal)
    → IsValid v
    → Decimal.lt q d0 ≡ false
    → Decimal.le (allowed v q) q ≡ true
allowed-le v q t nn = elim (kind-cases v.kind) [
  | inl e ↦ rw e (le_refl q)
  | inr (inl e) ↦
      let k = shrink-range v t e in
      rw e (floor_fraction-le q v.factor nn (omega arith) (omega arith))
  | inr (inr e) ↦ rw e (not_lt-le q d0 nn)
]

allowed_nonneg :
    (v : Verdict) (q : Decimal) → Decimal.lt q d0 ≡ false → Decimal.le d0 (allowed v q) ≡ true
allowed_nonneg v q nn = elim (kind-cases v.kind) [
  | inl e ↦ rw e (not_lt-le q d0 nn)
  | inr (inl e) ↦ rw e (floor_fraction_nonneg _)
  | inr (inr e) ↦ rw e (le_refl d0)
]

-- The request scaled by two factors in order.
scaled_mono :
    (q : Decimal) (f g : Fraction)
    → 0 < f.den
    → 0 < g.den
    → FractionLe f g
    → Decimal.le (floor_fraction (times (of_decimal q) f)) (floor_fraction (times (of_decimal q) g))
      ≡ true
scaled_mono q f g hf hg h =
    let s = one-le-pow q.scale 10 (omega arith) in
    floor_fraction_mono (times (of_decimal q) f) (times (of_decimal q) g) (one-le-mul s hf)
      (one-le-mul s hg) (omega (arith, mul-le-mul_right (abs_ℤ q.coef * 10 ^ q.scale) h))

Within-allowed :
    (r v : Verdict) (q : Decimal)
    → IsValid r
    → IsValid v
    → Within r v
    → Decimal.lt q d0 ≡ false
    → Decimal.le (allowed r q) (allowed v q) ≡ true
Within-allowed r v q t u (inl e) nn = rw e (allowed_nonneg v q nn)
Within-allowed r v q t u (inr (inl e)) nn = rw e (allowed-le r q t nn)
Within-allowed r v q t u (inr (inr (d, e, h))) nn =
    let k = shrink-range r t d in
    let l = shrink-range v u e in
    rw (d, e) (scaled_mono q r.factor v.factor (omega arith) (omega arith) h)

compose-IsValid : (vs : List Verdict) {r : Verdict} → All IsValid vs → compose vs ≡ ok r → IsValid r
compose-IsValid vs t h =
    let (r', e, v) = compose-ok vs t in subst IsValid (ok-injective (sym e ∙ h)) v

-- Each part of the chain lets through at least `x` of the request.
abbrev pub Limits : Decimal → Decimal → List Verdict → Type 0
Limits x q vs = All (λ v. (y : Decimal) × (exposure v q ≡ ok y) × (Decimal.le x y ≡ true)) vs

All-Limits :
    (r : Verdict) (q : Decimal) (vs : List Verdict)
    → IsValid r
    → All IsValid vs
    → All (Within r) vs
    → Decimal.lt q d0 ≡ false
    → Limits (allowed r q) q vs
All-Limits r q [] t u w nn = tt
All-Limits r q (v ∷ vs) t u w nn = (
  (allowed v q, exposure-allowed v q nn, Within-allowed r v q t u.0 w.0 nn),
  All-Limits r q vs t u.1 w.1 nn,
)

-- The exposure that a composed verdict allows is at most the request, and at most what each single
-- verdict of the chain allows of it.
pub compose-Limits :
    (vs : List Verdict) (q : Decimal) {r : Verdict} {x : Decimal}
    → All IsValid vs
    → compose vs ≡ ok r
    → exposure r q ≡ ok x
    → (Decimal.le x q ≡ true) × Limits x q vs
unfolding compose
compose-Limits vs q {r} t c e =
    let (nn, a) = exposure-ok r q e in
    let v = compose-IsValid vs t c in
    rw (← a) (
      allowed-le r q v nn,
      All-Limits r q vs v t (compose_from-Within one false vs (omega arith) t c) nn,
    )
