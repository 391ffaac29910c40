-- ===== src/Sizing/Hysteresis/Band.antt =====
-- The band between the thresholds: a signal inside it does not make the position chatter.
use fuzz_helm.Base.{
  if◌then◌else◌, not, ℕ, ◌+◌, ◌≡◌, ◌∙◌, refl, inl, inr, Bool, Bool-cases, true, false, ok, arith,
}
use fuzz_helm.Decimal
use fuzz_helm.Decimal.{Decimal, d0, d1}
use fuzz_helm.Decimal.Order.{le_trans}
use fuzz_helm.Core.Enums.{Side}
use fuzz_helm.Core.Float.{Float, negated, negated-le, above_negated}
use fuzz_helm.Sizing.Hysteresis.Defs.{HysteresisGate, next_side, moved, same_side, update}

-- A gate with thresholds that the constructor accepts, the upper one above 0.
pub record IsOpen (g : HysteresisGate) : Type 0 where
  pub enter : Decimal
  pub exit : Decimal
  pub enter_eq : g.enter ≡ Float.finite enter
  pub exit_eq : g.exit ≡ Float.finite exit
  pub exit_nonneg : Decimal.le d0 exit ≡ true
  pub exit_le : Decimal.le exit enter ≡ true
  pub enter_pos : Decimal.lt d0 enter ≡ true

-- A signal at `enter` or above is above the mirrored threshold, and not below `exit`.
high :
    (e x u : Decimal)
    → Decimal.le x e ≡ true
    → Decimal.lt d0 e ≡ true
    → Decimal.le e u ≡ true
    → (Decimal.le u (negated e) ≡ false) × (Decimal.le x u ≡ true)
high e x u le pos h = (
  elim (Bool-cases (Decimal.le u (negated e))) [
    | inl k ↦ cc (above_negated e pos, le_trans e u (negated e) h k)
    | inr k ↦ k
  ],
  le_trans x e u le h,
)

-- The same below the mirrored threshold.
low :
    (e x u : Decimal)
    → Decimal.le x e ≡ true
    → Decimal.le u (negated e) ≡ true
    → Decimal.le u (negated x) ≡ true
low e x u le h = le_trans u (negated e) (negated x) h (negated-le x e le)

-- The side by the four comparisons: with `enter`, the mirrored `enter`, `exit` and the mirrored `exit`.
decided : Bool → Bool → Bool → Bool → Side → Side
decided hi lo keep lift Side.flat = if hi then Side.long else if lo then Side.short else Side.flat
decided hi lo keep lift Side.long =
    if lo then Side.short else if not keep then Side.flat else Side.long
decided hi lo keep lift Side.short =
    if hi then Side.long else if not lift then Side.flat else Side.short

next_side-decided :
    (g : HysteresisGate) (u : Decimal) (s : Side) (o : IsOpen g)
    → next_side g (Float.finite u) s
      ≡ decided
          (Decimal.le o.enter u)
          (Decimal.le u (negated o.enter))
          (Decimal.le o.exit u)
          (Decimal.le u (negated o.exit))
          s
unfolding next_side decided
next_side-decided g u Side.flat o = rw o.enter_eq refl
next_side-decided g u Side.long o = rw (o.enter_eq, o.exit_eq) refl
next_side-decided g u Side.short o = rw (o.enter_eq, o.exit_eq) refl

decided-twice :
    (hi lo keep lift : Bool) (s : Side)
    → (hi ≡ true → (lo ≡ false) × (keep ≡ true))
    → (lo ≡ true → lift ≡ true)
    → decided hi lo keep lift (decided hi lo keep lift s) ≡ decided hi lo keep lift s
unfolding decided
decided-twice true lo keep lift s p q = rw ((p refl).0, (p refl).1) (settled s)
  where
    settled :
        (s : Side)
        → decided true false true lift (decided true false true lift s)
          ≡ decided true false true lift s
    settled Side.flat = refl
    settled Side.long = refl
    settled Side.short = refl
decided-twice false true keep lift s p q = rw (q refl) (settled s)
  where
    settled :
        (s : Side)
        → decided false true keep true (decided false true keep true s)
          ≡ decided false true keep true s
    settled Side.flat = refl
    settled Side.long = refl
    settled Side.short = refl
decided-twice false false keep lift Side.flat p q = refl
decided-twice false false true lift Side.long p q = refl
decided-twice false false false lift Side.long p q = refl
decided-twice false false keep true Side.short p q = refl
decided-twice false false keep false Side.short p q = refl

next_side-twice :
    (g : HysteresisGate) (u : Decimal) (s : Side)
    → IsOpen g
    → next_side g (Float.finite u) (next_side g (Float.finite u) s) ≡ next_side g (Float.finite u) s
next_side-twice g u s o =
    rw (next_side-decided g u s o, next_side-decided g u (decided _ _ _ _ s) o)
      (decided-twice _ _ _ _ s (high o.enter o.exit u o.exit_le o.enter_pos)
        (low o.enter o.exit u o.exit_le))

same_side_eq : (s t : Side) → same_side s t ≡ true → t ≡ s
same_side_eq s t h = ground arith

same_side_refl : (s : Side) → same_side s s ≡ true
same_side_refl Side.short = refl
same_side_refl Side.flat = refl
same_side_refl Side.long = refl

next_side-moved :
    (g : HysteresisGate) (t : Side) (n : ℕ) (u : Float) (s : Side)
    → next_side (record g { side = t; flips = n }) u s ≡ next_side g u s
unfolding next_side
next_side-moved g t n u Side.flat = refl
next_side-moved g t n u Side.long = refl
next_side-moved g t n u Side.short = refl

-- A gate on the side that the signal keeps stays as it is.
update_settled :
    (h : HysteresisGate) (u : Decimal) (s : Side)
    → h.side ≡ s
    → next_side h (Float.finite u) s ≡ s
    → update h (Float.finite u) ≡ ok (s, h)
unfolding update
update_settled h u s e n = rw (e, n, same_side_refl s) refl

-- On a gate with finite thresholds, 0 ≤ exit ≤ enter and 0 < enter, a finite signal that is given twice in a row moves the
-- side only once: the second `update` returns the same side and changes nothing.
pub update-twice :
    (g : HysteresisGate) (u : Decimal)
    → IsOpen g
    → (s : Side) × (h : HysteresisGate) × (update g (Float.finite u) ≡ ok (s, h))
      × (update h (Float.finite u) ≡ ok (s, h))
unfolding update
update-twice g u o =
    let s = next_side g (Float.finite u) g.side in
    let twice = next_side-twice g u g.side o in
    (
      s,
      moved g s,
      refl,
      elim (Bool-cases (same_side s g.side)) [
        | inl k ↦ rw k (update_settled g u s (same_side_eq s g.side k) twice)
        | inr k ↦ rw k (
            update_settled (record g { side = s; flips = g.flips + 1 }) u s refl
              (next_side-moved g s (g.flips + 1) (Float.finite u) s ∙ twice))
      ],
    )
