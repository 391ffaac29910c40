-- ===== src/Execution/Broker/Limits.antt =====
-- A reduce-only order of the broker only reduces a position (execution/paper_broker.py).
use fuzz_helm.Base.{
  ℕ, true, ◌||◌, ◌≡◌, refl, inl, inr, [], ◌∷◌, if◌then◌else◌, Bool, ok, arith, Bool-cases, ◌⊎◌,
  ◌++◌, Option, false, sym, ap, ◌∙◌, >>=-eq-ok, if-eq-ok, ok-injective,
}
use fuzz_helm.Core.Enums.{same_side}
use fuzz_helm.Decimal.{Decimal, d0, round_prec, abs, le}
use fuzz_helm.Decimal
use fuzz_helm.Decimal.Order.{le_refl, le_of_not-le}
use fuzz_helm.Execution.Number.{sign, decimal_number}
use fuzz_helm.Execution.Orders.{OrderRequest}
use fuzz_helm.Execution.Costs.{CostModelConfig}
use mathlib.Core.Bool.{false≢true}
use fuzz_helm.Core.Enums.{ExitReason}
use fuzz_helm.Execution.Orders.{Fill}
use fuzz_helm.Execution.Broker.State.{Order, InstState, Outside, Book}
use fuzz_helm.Execution.Broker.Fill.{
  executable_qty, drop_protecting, on_position_closed, closes, position_after, fill_of, filled_book,
  filled, noise_for, quote_for, priced, execute,
}

le-abs : (a : Decimal) → Decimal.le d0 (Decimal.abs a) ≡ true
unfolding le abs round_prec
le-abs a = ground arith

min-le : (a b : Decimal) → Decimal.le (Decimal.min a b) b ≡ true
min-le a b = elim (Bool-cases (Decimal.le a b)) [
  | inl below ↦ rw below below
  | inr above ↦ rw above (le_refl b)
]

min-le_left : (a b : Decimal) → Decimal.le (Decimal.min a b) a ≡ true
min-le_left a b = elim (Bool-cases (Decimal.le a b)) [
  | inl below ↦ rw below (le_refl a)
  | inr above ↦ rw above (le_of_not-le b a above)
]

eq_refl : (a : Decimal) → Decimal.eq a a ≡ true
eq_refl a = rw (le_refl a) refl

eq-le : (a b : Decimal) → Decimal.eq a b ≡ true → Decimal.le a b ≡ true
eq-le a b same = ground arith

-- The quantity of a reduce-only order is at most the size of the position, and zero where there is no
-- position or the order is on the position's own side.
executable_qty-reduces :
    (st : InstState) (req : OrderRequest Decimal)
    → req.reduce_only ≡ true
    → (Decimal.le (executable_qty st req) (Decimal.abs st.position) ≡ true)
      × ((if Decimal.eq st.position d0 || same_side (sign st.position) req.side
            then Decimal.eq (executable_qty st req) d0
            else Decimal.le (executable_qty st req) req.qty)
          ≡ true)
unfolding executable_qty
executable_qty-reduces st req only =
    elim (Bool-cases (Decimal.eq st.position d0 || same_side (sign st.position) req.side)) [
      | inl own ↦ rw (only, own) (le-abs st.position, eq_refl d0)
      | inr facing ↦
          rw (only, facing)
            (
              min-le req.qty (Decimal.abs st.position),
              min-le_left req.qty (Decimal.abs st.position),
            )
    ]

of_positive :
    (own : Bool) (x q : Decimal)
    → Decimal.le x d0 ≡ false
    → (if own then Decimal.eq x d0 else Decimal.le x q) ≡ true
    → (Decimal.le x q ≡ true) × (own ≡ false)
of_positive true x q positive h = absurd (false≢true (sym positive ∙ eq-le x d0 h))
of_positive false x q positive h = (h, refl)

-- The position faces an order of this side.
abbrev Faces : InstState → OrderRequest Decimal → Type 0
Faces st req = (Decimal.eq st.position d0 || same_side (sign st.position) req.side) ≡ false

module _ {X : Type 0} (cost : CostModelConfig) where
  on_position_closed-fills :
      (old : Decimal) (bk bk' : Book X) → on_position_closed old bk ≡ ok bk' → bk'.fills ≡ bk.fills
  unfolding on_position_closed
  on_position_closed-fills old bk bk' same =
      let (left, _, last) = >>=-eq-ok (drop_protecting _ bk.st.stop_orders bk.orders) _ same in
      rw (sym (ok-injective last)) refl

  -- One more fill, of this order and quantity.
  abbrev pub Filled : Order → Decimal → Book X → Book X → Type 0
  Filled o qty bk bk' =
      (f : Fill Decimal) × (bk'.fills ≡ bk.fills ++ (f ∷ []))
      × (f.qty ≡ qty)
      × (f.side ≡ o.req.side)

  filled-Filled :
      (o : Order) (qty : Decimal) (ts : ℕ) (reason : Option ExitReason) (bk bk' : Book X)
      (price slip : Decimal)
      → filled cost o qty ts reason bk price slip ≡ ok bk'
      → Filled o qty bk bk'
  unfolding filled filled_book fill_of
  filled-Filled o qty ts reason bk bk' price slip same =
      let fill = fill_of cost o qty ts price slip in
      elim (if-eq-ok (closes bk.st.position (position_after o qty bk)) _ _ same) [
        | inl (shut, closed) ↦
            let bk1 = filled_book cost o qty ts reason bk price slip in
            (fill, on_position_closed-fills bk.st.position bk1 bk' closed, refl, refl)
        | inr (stays, done) ↦ (fill, ap (λ b. b.fills) (sym (ok-injective done)), refl, refl)
      ]

  -- An `_execute` of a reduce-only order that returns either fills nothing, or adds one fill, on the side of
  -- the order and of at most the order's quantity and the size of the position, which then faces it.
  pub execute-reduces :
      (out : Outside X) (o : Order) (p_ref : Decimal) (ts : ℕ) (reason : Option ExitReason)
      (bk bk' : Book X)
      → o.req.reduce_only ≡ true
      → execute out cost o p_ref ts reason bk ≡ ok bk'
      → (bk'.fills ≡ bk.fills)
        ⊎ ((f : Fill Decimal) × (bk'.fills ≡ bk.fills ++ (f ∷ []))
            × (f.side ≡ o.req.side)
            × (Decimal.le f.qty o.req.qty ≡ true)
            × (Decimal.le f.qty (Decimal.abs bk.st.position) ≡ true)
            × Faces bk.st o.req)
  unfolding execute priced
  execute-reduces out o p_ref ts reason bk bk' only same =
      let qty = executable_qty bk.st o.req in
      let (within, facing) = executable_qty-reduces bk.st o.req only in
      elim (if-eq-ok (Decimal.le qty d0) _ _ same) [
        | inl (nothing, done) ↦ inl (ap (λ b. b.fills) (sym (ok-injective done)))
        | inr (positive, more) ↦
            let drawn = noise_for out cost bk.outside in
            let bk1 = record bk { outside = drawn.0 } in
            let (q, _, last) =
              >>=-eq-ok (quote_for out.sqrt cost o p_ref qty bk.st (drawn.1))
                (λ q. filled cost o qty ts reason bk1 q.price q.slippage_bps) more in
            let (f, added, sized, sided) =
              filled-Filled o qty ts reason bk1 bk' q.price q.slippage_bps last in
            let (below, faces) = of_positive _ qty o.req.qty positive facing in
            inr (f, added, sided, rw sized below, rw sized within, faces)
      ]
