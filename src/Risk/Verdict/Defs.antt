-- ===== src/Risk/Verdict/Defs.antt =====
-- risk/verdict.py. A `Fraction` is a pair of numbers that need not be in lowest terms; the factors of
-- verdicts and the exposures that they scale are never negative.
use fuzz_helm.Base.{
  ℕ, ◌*◌, ◌/◌, ◌%◌, ◌^◌, Bool, true, false, not, ◌&&◌, ltb, ◌==◌, if◌then◌else◌, Option, String,
  List, [], ◌∷◌, Result, ok, ◌>>◌, raise_if, value_error,
}
use fuzz_helm.Base.Int.{pos, abs_ℤ}
use fuzz_helm.Decimal
use fuzz_helm.Decimal.{Decimal, d0}
use fuzz_helm.Core.Enums.{VerdictKind}
use fuzz_helm.Core.Value.{Fields}

pub record Fraction : Type 0 where
  pub num : ℕ
  pub den : ℕ

abbrev pub one : Fraction
one = record { num = 1; den = 1 }

abbrev pub zero_fraction : Fraction
zero_fraction = record { num = 0; den = 1 }

abbrev pub times : Fraction → Fraction → Fraction
times a b = record { num = a.num * b.num; den = a.den * b.den }

-- `Fraction(x)` of a decimal x ≥ 0.
abbrev pub of_decimal : Decimal → Fraction
of_decimal x = record { num = abs_ℤ x.coef; den = 10 ^ x.scale }

-- `Fraction(a) / Fraction(b)` for a ≥ 0 and b > 0.
abbrev pub over : Decimal → Decimal → Fraction
over a b = record { num = abs_ℤ a.coef * 10 ^ b.scale; den = 10 ^ a.scale * abs_ℤ b.coef }

abbrev pub fraction_scale : ℕ
fraction_scale = 18

-- `floor_fraction`: an integer as it is, else rounded down to 18 places, and never through the context.
unfoldable pub floor_fraction : Fraction → Decimal
floor_fraction x =
    if x.num % x.den == 0
    then record { coef = pos (x.num / x.den); scale = 0 }
    else record { coef = pos (x.num * 10 ^ fraction_scale / x.den); scale = fraction_scale }

pub record Verdict : Type 0 where
  pub kind : VerdictKind
  pub factor : Fraction

-- Equality and order of fractions, cross-multiplied.
abbrev fraction_eq : Fraction → Fraction → Bool
fraction_eq a b = a.num * b.den == b.num * a.den

abbrev in_unit : Fraction → Bool
in_unit f = ltb 0 f.num && ltb f.num f.den

-- `Verdict.__post_init__`
unfoldable pub fits : VerdictKind → Fraction → Bool
fits VerdictKind.allow f = fraction_eq f one
fits VerdictKind.veto f = fraction_eq f zero_fraction
fits VerdictKind.shrink f = in_unit f

unfoldable pub make : VerdictKind → Fraction → Result Verdict
make k f = do raise_if (not (fits k f)) value_error; ok (record { kind = k; factor = f })

-- `ALLOW`, `VETO`
abbrev pub allow : Verdict
allow = record { kind = VerdictKind.allow; factor = one }

abbrev pub veto : Verdict
veto = record { kind = VerdictKind.veto; factor = zero_fraction }

unfoldable pub shrink : Fraction → Result Verdict
unfolding make
shrink f = make VerdictKind.shrink f

-- `factor_dec`
unfoldable pub factor_dec : Verdict → Decimal
factor_dec v = floor_fraction v.factor

-- The loop of `compose`: the product so far, and whether a factor was met.
unfoldable pub compose_from : Fraction → Bool → List Verdict → Result Verdict
compose_from product shrunk [] = if shrunk then make VerdictKind.shrink product else ok allow
compose_from product shrunk (v ∷ vs) = elim v.kind [
  | VerdictKind.veto ↦ ok veto
  | VerdictKind.shrink ↦ compose_from (times product v.factor) true vs
  | VerdictKind.allow ↦ compose_from product shrunk vs
]

unfoldable pub compose : List Verdict → Result Verdict
unfolding compose_from
compose vs = compose_from one false vs

unfoldable pub exposure : Verdict → Decimal → Result Decimal
exposure v requested = do
  raise_if (Decimal.lt requested d0) value_error
  ok (elim v.kind [
    | VerdictKind.allow ↦ requested
    | VerdictKind.veto ↦ d0
    | VerdictKind.shrink ↦ floor_fraction (times (of_decimal requested) v.factor)
  ])

-- What one rule decided, saw and compared with; `halt` is its signal to close everything.
pub record RuleVerdict : Type 0 where
  pub rule : String
  pub verdict : Verdict
  pub observed : Option Decimal
  pub limit : Option Decimal
  pub payload : Fields
  pub halt : Bool
