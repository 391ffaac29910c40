-- ===== src/Risk/Verdict/Compose.antt =====
-- `compose`: it never raises on verdicts that the code can build, and does not depend on their order.
use mathlib.Core.List.{Perm, Permᴰ}
use mathlib.Core.Logic.{∥∥₁_elim}
use native.Mathlib.Nat.{mul-lt-mul_of_pos_left, le_trans, mul-le-mul_right, one-le-mul}
use mathlib.Core.Path.{ap₂}
use fuzz_helm.Base.{
  ◌*◌, ◌≤◌, ◌<◌, ◌≡◌, ◌∙◌, ap, refl, ◌⊎◌, inl, inr, Bool, true, false, List, [], ◌∷◌, All, Result,
  ok, arith,
}
use fuzz_helm.Core.Enums.{VerdictKind}
use fuzz_helm.Risk.Verdict.Defs.{
  Fraction, Verdict, times, one, allow, veto, fits, make, compose, compose_from,
}

-- The verdicts that the constructor accepts.
abbrev pub IsValid : Verdict → Type 0
IsValid v = fits v.kind v.factor ≡ true

-- The product so far: at most 1, and below 1 once a factor was met.
abbrev pub InRange : Fraction → Bool → Type 0
InRange p true = (0 < p.num) × (p.num < p.den)
InRange p false = (0 < p.num) × (p.num ≤ p.den)

pub InRange-le : (p : Fraction) (b : Bool) → InRange p b → (0 < p.num) × (p.num ≤ p.den)
InRange-le p true h = omega arith
InRange-le p false h = h

pub times-InRange :
    (p f : Fraction) (b : Bool)
    → InRange p b
    → (0 < f.num) × (f.num < f.den)
    → InRange (times p f) true
times-InRange p f b h k =
    let (pos, le) = InRange-le p b h in
    (
      one-le-mul pos k.0,
      omega (
        arith,
        mul-le-mul_right f.num le,
        mul-lt-mul_of_pos_left {k = p.den} k.1 (le_trans pos le),
      ),
    )

pub kind-cases :
    (k : VerdictKind)
    → (k ≡ VerdictKind.allow) ⊎ ((k ≡ VerdictKind.shrink) ⊎ (k ≡ VerdictKind.veto))
kind-cases VerdictKind.allow = inl refl
kind-cases VerdictKind.shrink = inr (inl refl)
kind-cases VerdictKind.veto = inr (inr refl)

-- The factor of a valid shrink lies strictly between 0 and 1.
pub shrink-range :
    (v : Verdict)
    → IsValid v
    → v.kind ≡ VerdictKind.shrink
    → (0 < v.factor.num) × (v.factor.num < v.factor.den)
unfolding fits
shrink-range v h e = ground arith

compose_from-ok :
    (p : Fraction) (b : Bool) (vs : List Verdict)
    → InRange p b
    → All IsValid vs
    → (r : Verdict) × (compose_from p b vs ≡ ok r) × IsValid r
unfolding compose_from make fits
compose_from-ok p true [] h t =
    (record { kind = VerdictKind.shrink; factor = p }, ground arith, ground arith)
compose_from-ok p false [] h t = (allow, refl, refl)
compose_from-ok p b (v ∷ vs) h t = elim (kind-cases v.kind) [
  | inl e ↦ rw e (compose_from-ok p b vs h t.1)
  | inr (inl e) ↦ rw e (
      compose_from-ok (times p v.factor) true vs
        (times-InRange p v.factor b h (shrink-range v t.0 e)) t.1)
  | inr (inr e) ↦ rw e (veto, refl, refl)
]

-- Composing valid verdicts raises no exception, and gives a valid verdict.
pub compose-ok :
    (vs : List Verdict) → All IsValid vs → (r : Verdict) × (compose vs ≡ ok r) × IsValid r
unfolding compose
compose-ok vs t = compose_from-ok one false vs (omega arith) t

Verdict-set : IsSet (Result Verdict)
Verdict-set = hlevel

times_swap : (p f g : Fraction) → times (times p f) g ≡ times (times p g) f
times_swap p f g = ground (arith, num p f g, den p f g)
  where
    num : (p f g : Fraction) → p.num * f.num * g.num ≡ p.num * g.num * f.num
    num p f g = omega arith

    den : (p f g : Fraction) → p.den * f.den * g.den ≡ p.den * g.den * f.den
    den p f g = omega arith

compose_from-swap :
    (p : Fraction) (b : Bool) (v w : Verdict) (vs : List Verdict)
    → compose_from p b (v ∷ w ∷ vs) ≡ compose_from p b (w ∷ v ∷ vs)
unfolding compose_from
compose_from-swap p b v w vs = ground (arith, times_swap p v.factor w.factor)

compose_from-perm :
    (p : Fraction) (b : Bool) {vs ws : List Verdict}
    → Permᴰ vs ws
    → compose_from p b vs ≡ compose_from p b ws
unfolding compose_from
compose_from-perm p b Permᴰ.nil = refl
compose_from-perm p b (Permᴰ.cons {b = w} {l₁ = l} {l₂ = m} e d) =
    let same = compose_from-perm p b d in
    let scaled = compose_from-perm (times p w.factor) true d in
    rw (ap (λ u. compose_from p b (u ∷ l)) e) (ground arith)
compose_from-perm p b (Permᴰ.swap {a' = w} {b' = v} {l = l} e f) =
    ap₂ (λ x y. compose_from p b (x ∷ y ∷ l)) e f ∙ compose_from-swap p b v w l
compose_from-perm p b (Permᴰ.trans d e) = compose_from-perm p b d ∙ compose_from-perm p b e

-- The order in which the rules run does not change the composed verdict.
pub compose-perm : (vs ws : List Verdict) → Perm vs ws → compose vs ≡ compose ws
unfolding compose
compose-perm vs ws p = ∥∥₁_elim p (Verdict-set _ _) (compose_from-perm one false)
