-- ===== src/Ingest/Gap/Resolve.antt =====
-- What an attempt to fill a gap leaves.
use fuzz_helm.Base.{
  ℕ, ◌-◌, ◌≡◌, ◌↔◌, refl, true, false, some, List, [], ◌∷◌, length, ok, >>=-eq-ok, ok-injective,
  arith, ◌==◌, ◌∙◌, if◌then◌else◌,
}
use fuzz_helm.Base.Int.{ℤ}
use fuzz_helm.Core.Enums.{GapStatus}
use fuzz_helm.Ingest.Gap.Defs.{GapRecord, transition}
use fuzz_helm.Ingest.Gap.Store.{GapStore, lookup, assign, resolve, resolved}

transition-status :
    (g : GapRecord) (s : GapStatus) (now : ℤ) (rows : ℕ) {h : GapRecord}
    → transition g s now (some rows) false ≡ ok h
    → (h.status ≡ s) × (h.filled_rows ≡ rows)
unfolding transition
transition-status g s now rows e = ground arith

resolved-filled : (miss : List ℤ) (rows : ℕ) → (resolved miss rows ≡ GapStatus.filled) ↔ (miss ≡ [])
unfolding resolved
resolved-filled [] rows = ((λ e. refl), (λ e. refl))
resolved-filled (k ∷ ks) rows = ground arith

lookup-assign :
    {A : Type 0} (d : List (ℕ × A)) (k j : ℕ) (v : A)
    → lookup (assign d k v) j ≡ (if k == j then ok v else lookup d j)
unfolding lookup assign
lookup-assign [] k j v = refl
lookup-assign ((i, w) ∷ d) k j v = ground (arith, lookup-assign d k j v)

-- After a `resolve` that raises nothing, the gap it returns is the one that the detector keeps under its
-- number, and every other gap is as before. It is FILLED exactly when none of its keys is missing,
-- and its count of filled rows is the expected count less the missing keys.
pub resolve-filled :
    (d : GapStore) (gid : ℕ) (now : ℤ) (g : GapRecord) (miss : List ℤ) {r : GapRecord × GapStore}
    → lookup d.gaps gid ≡ ok g
    → lookup d.missing gid ≡ ok miss
    → resolve d gid now ≡ ok r
    → (lookup r.1.gaps gid ≡ ok r.0)
      × ((j : ℕ) → (gid == j) ≡ false → lookup r.1.gaps j ≡ lookup d.gaps j)
      × ((r.0.status ≡ GapStatus.filled) ↔ (miss ≡ []))
      × (r.0.filled_rows ≡ g.expected_count - length miss)
unfolding resolve
resolve-filled d gid now g miss a b e =
    let rows = g.expected_count - length miss in
    let (h, t, f) =
      >>=-eq-ok (transition g (resolved miss rows) now (some rows) false) _ (rw (a, b) at e) in
    let (s, n) = transition-status g (resolved miss rows) now rows t in
    let same : (gid == gid) ≡ true = ground arith in
    rw (← ok-injective f, s)
      (
        lookup-assign d.gaps gid gid h ∙ rw same refl,
        (λ j other. lookup-assign d.gaps gid j h ∙ rw other refl),
        resolved-filled miss rows,
        n,
      )
