-- ===== src/Base/Dict.antt =====
-- Python's dicts, in insertion order: an association list whose keys are compared by a class.
use Prim.Native.String.{String}
use mathlib.Core.Path.{◌≡◌, refl, sym, subst, subst₂}
use mathlib.Core.Logic.{◌↔◌, inl, inr}
use mathlib.Core.Bool.{Bool, true, false, ◌||◌, false≢true}
use mathlib.Core.Option.{Option, none, some, none-ne-some, some-injective}
use mathlib.Core.List.{List, [], ◌∷◌}
use native.Mathlib.Omega.{arith}
use text.Mathlib.Text.{◌==◌ as str_eq}
use text.Mathlib.TextEquality.{eq_iff}
use fuzz_helm.Base.Tests.{if◌then◌else◌, Bool-cases}

-- Keys: their `==` decides equality.
pub record Key {ℓ} (K : Type ℓ) : Type ℓ where
  pub same : K → K → Bool
  pub same_iff : (j k : K) → (same j k ≡ true) ↔ (j ≡ k)

instance abbrev pub string_key : Key String
string_key = record { same = str_eq; same_iff = eq_iff }

abbrev pub Dict {ℓ κ} : Type ℓ → Type κ → Type (ℓ ⊔ κ)
Dict K V = List (K × V)

module _ {ℓ κ} {K : Type ℓ} {V : Type κ} ⦃e : Key K⦄ where
  -- `d.get(k)`
  unfoldable pub lookup : K → Dict K V → Option V
  lookup k [] = none
  lookup k ((j, v) ∷ d) = if e.same k j then some v else lookup k d

  -- `d[k] = v`: in place, or at the end.
  unfoldable pub put : K → V → Dict K V → Dict K V
  put k v [] = (k, v) ∷ []
  put k v ((j, w) ∷ d) = if e.same k j then (j, v) ∷ d else (j, w) ∷ put k v d

  -- `k in d`
  unfoldable pub has : K → Dict K V → Bool
  has k [] = false
  has k ((j, v) ∷ d) = e.same k j || has k d

  pub lookup-put :
      (j k : K) (v : V) (d : Dict K V)
      → lookup j (put k v d) ≡ (if e.same j k then some v else lookup j d)
  unfolding lookup put
  lookup-put j k v [] = ground arith
  lookup-put j k v ((i, w) ∷ d) =
      ground (arith, lookup-put j k v d, e.same_iff k i, e.same_iff j k, e.same_iff j i)

  pub has-put : (j k : K) (v : V) (d : Dict K V) → has j (put k v d) ≡ (e.same j k || has j d)
  unfolding has put
  has-put j k v [] = ground arith
  has-put j k v ((i, w) ∷ d) =
      ground (arith, has-put j k v d, e.same_iff k i, e.same_iff j k, e.same_iff j i)

  pub lookup-has : (k : K) (d : Dict K V) → has k d ≡ true → (v : V) × (lookup k d ≡ some v)
  unfolding has lookup
  lookup-has k [] h = absurd (false≢true h)
  lookup-has k ((j, v) ∷ d) h = elim (Bool-cases (e.same k j)) [
    | inl eq ↦ (v, rw eq refl)
    | inr ne ↦ rw ne (lookup-has k d (rw ne at h))
  ]

  pub has_of_lookup : (k : K) (d : Dict K V) → (if has k d then none else lookup k d) ≡ none
  unfolding has lookup
  has_of_lookup k [] = refl
  has_of_lookup k ((j, v) ∷ d) = ground (arith, has_of_lookup k d)

  -- Every entry satisfies the predicate.
  abbrev pub Entries {μ} : (K → V → Type μ) → Dict K V → Type μ
  Entries P [] = Unit
  Entries P ((k, v) ∷ d) = P k v × Entries P d

  pub lookup-Entries {μ} :
      (P : K → V → Type μ) (k : K) (d : Dict K V) {v : V}
      → Entries P d
      → lookup k d ≡ some v
      → P k v
  unfolding lookup
  lookup-Entries P k [] h same = absurd (none-ne-some _ same)
  lookup-Entries P k ((j, w) ∷ d) (hw, h) same = elim (Bool-cases (e.same k j)) [
    | inl eq ↦ subst₂ P (sym ((e.same_iff k j).0 eq)) (some-injective _ _ (rw eq at same)) hw
    | inr ne ↦ lookup-Entries P k d h (rw ne at same)
  ]

  pub put-Entries {μ} :
      (P : K → V → Type μ) (k : K) (v : V) (d : Dict K V)
      → Entries P d
      → P k v
      → Entries P (put k v d)
  unfolding put
  put-Entries P k v [] h hv = (hv, tt)
  put-Entries P k v ((j, w) ∷ d) (hw, h) hv = elim (Bool-cases (e.same k j)) [
    | inl eq ↦ rw eq (subst (λ i. P i v) ((e.same_iff k j).0 eq) hv, h)
    | inr ne ↦ rw ne (hw, put-Entries P k v d h hv)
  ]

  pub map-Entries {μ ν} :
      {P : K → V → Type μ} {Q : K → V → Type ν} (d : Dict K V)
      → ((k : K) (v : V) → P k v → Q k v)
      → Entries P d
      → Entries Q d
  map-Entries [] f h = tt
  map-Entries ((k, v) ∷ d) f (hv, h) = (f k v hv, map-Entries d f h)
