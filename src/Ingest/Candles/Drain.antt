-- ===== src/Ingest/Candles/Drain.antt =====
-- The loop of `_drain` (ingest/candles.py) ends, and where.
use fuzz_helm.Base.{
  ℕ, zero, suc, ◌+◌, ◌≤◌, ◌<◌, ◌≡◌, refl, true, false, Option, none, some, List, [], ◌∷◌, length,
  arith, if◌then◌else◌, inl, inr, ◌⊎◌, Bool-cases,
}
use fuzz_helm.Base.Int.{ℤ, pos, ◌+ℤ◌, leb_ℤ, +ℤ_parts}
use fuzz_helm.Core.Dto.{Candle}
use fuzz_helm.Ingest.Candles.Defs.{
  CandleAggregator, candle_at, without, has_key, drain_loop, drain, emit,
}

-- The minutes of the list from `n` on.
unfoldable count_from : ℤ → List ℤ → ℕ
count_from n [] = 0
count_from n (l ∷ ls) = (if leb_ℤ n l then 1 else 0) + count_from n ls

count_from-le : (n : ℤ) (ls : List ℤ) → count_from n ls ≤ length ls
unfolding count_from
count_from-le n [] = omega arith
count_from-le n (l ∷ ls) = let rest = count_from-le n ls in ground arith

count_from-step : (n : ℤ) (w : ℕ) (ls : List ℤ) → count_from (n +ℤ pos w) ls ≤ count_from n ls
unfolding count_from
count_from-step n w [] = omega arith
count_from-step n w (l ∷ ls) =
    let rest = count_from-step n w ls in let p = +ℤ_parts n (pos w) in ground arith

count_from-has :
    (n : ℤ) (w : ℕ) (ls : List ℤ)
    → 0 < w
    → has_key n ls ≡ true
    → count_from (n +ℤ pos w) ls < count_from n ls
unfolding count_from has_key
count_from-has n w [] h e = ground arith
count_from-has n w (l ∷ ls) h e =
    let rest = count_from-has n w ls h in
    let less = count_from-step n w ls in let p = +ℤ_parts n (pos w) in ground arith

count_from-none : (n : ℤ) (ls : List ℤ) → count_from n ls ≤ 0 → has_key n ls ≡ false
unfolding count_from has_key
count_from-none n [] h = refl
count_from-none n (l ∷ ls) h = let rest = count_from-none n ls in ground arith

length-without :
    (k : ℤ) (d : List (ℤ × Candle)) (c : Candle)
    → candle_at k d ≡ some c
    → suc (length (without k d)) ≡ length d
unfolding candle_at without
length-without k [] c e = ground arith
length-without k ((j, b) ∷ d) c e = let rest = length-without k d c in ground arith

-- The loop stops at a minute that is neither held nor skipped.
abbrev pub Stops : List ℤ → List Candle × List (ℤ × Candle) × ℤ → Type 0
Stops skipped (out, rest, stop) = (candle_at stop rest ≡ none) × (has_key stop skipped ≡ false)

Option-cases : (o : Option Candle) → (o ≡ none) ⊎ ((c : Candle) × (o ≡ some c))
Option-cases none = inl refl
Option-cases (some c) = inr (c, refl)

drain_loop-Stops :
    (fuel w : ℕ) (skipped : List ℤ) (nxt : ℤ) (held : List (ℤ × Candle))
    → 0 < w
    → length held + count_from nxt skipped ≤ fuel
    → Stops skipped (drain_loop fuel w skipped nxt held)
unfolding drain_loop
drain_loop-Stops zero w skipped nxt [] h f = (refl, count_from-none nxt skipped (omega arith))
drain_loop-Stops zero w skipped nxt (e ∷ held) h f = ground arith
drain_loop-Stops (suc fuel) w skipped nxt held h f = elim (Option-cases (candle_at nxt held)) [
  | inr (c, e) ↦
      let fewer = length-without nxt held c e in
      let less = count_from-step nxt w skipped in
      let rest =
        drain_loop-Stops fuel w skipped (nxt +ℤ pos w) (without nxt held) h (omega arith) in
      rw (drain_loop, e) rest
  | inl e ↦ elim (Bool-cases (has_key nxt skipped)) [
    | inl p ↦
        let less = count_from-has nxt w skipped h p in
        let rest = drain_loop-Stops fuel w skipped (nxt +ℤ pos w) held h (omega arith) in
        rw (drain_loop, e, p) rest
    | inr p ↦ rw (drain_loop, e, p) (e, p)
  ]
]

drain_loop-length :
    (fuel w : ℕ) (skipped : List ℤ) (nxt : ℤ) (held : List (ℤ × Candle))
    → length (drain_loop fuel w skipped nxt held).0 + length (drain_loop fuel w skipped nxt held).1
      ≡ length held
unfolding drain_loop
drain_loop-length zero w skipped nxt held = ground arith
drain_loop-length (suc fuel) w skipped nxt held = elim (Option-cases (candle_at nxt held)) [
  | inr (c, e) ↦
      let fewer = length-without nxt held c e in
      let rest = drain_loop-length fuel w skipped (nxt +ℤ pos w) (without nxt held) in
      rw (drain_loop, e) (ground arith)
  | inl e ↦
      let rest = drain_loop-length fuel w skipped (nxt +ℤ pos w) held in
      elim (Bool-cases (has_key nxt skipped)) [
        | inl p ↦ rw (drain_loop, e, p) rest
        | inr p ↦ rw (drain_loop, e, p) (ground arith)
      ]
]

-- However many candles are held and minutes skipped, `_drain` ends with a next minute that is neither held
-- nor skipped, and the candles it releases and those still held are as many as were held before.
pub drain-ends :
    (a : CandleAggregator) (nxt : ℤ)
    → 0 < a.tf_ns
    → ((stop : ℤ) × ((drain a nxt).1.next ≡ some stop)
        × (candle_at stop (drain a nxt).1.held ≡ none)
        × (has_key stop a.skipped ≡ false))
      × (length (drain a nxt).0 + length (drain a nxt).1.held ≡ length a.held)
unfolding drain emit
drain-ends a nxt h =
    let fits = count_from-le nxt a.skipped in
    let fuel = length a.held + length a.skipped in
    let stops = drain_loop-Stops fuel a.tf_ns a.skipped nxt a.held h (omega arith) in
    ((_, refl, stops.0, stops.1), drain_loop-length fuel a.tf_ns a.skipped nxt a.held)
