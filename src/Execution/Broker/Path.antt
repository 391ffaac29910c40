-- ===== src/Execution/Broker/Path.antt =====
-- execution/paper_broker.py: the loops of `_walk_triggers` and `_walk_segment`, on fuel: every round
-- fires a trigger, and none stands for fuel that ran out.
use fuzz_helm.Base.{
  ℕ, zero, suc, ◌+◌, Bool, true, false, not, Option, none, some, List, [], ◌∷◌, length,
  if◌then◌else◌, Result, ok, err,
}
use fuzz_helm.Decimal.{Decimal, d0}
use fuzz_helm.Decimal
use fuzz_helm.Execution.Costs.{CostModelConfig}
use fuzz_helm.Execution.Broker.State.{DecBar, Outside, Book}
use fuzz_helm.Execution.Broker.Walk.{
  Trigger, triggers, selected, first_of, behind_open, on_way, by_priority, by_level, fire,
}

-- What follows a call that may have raised, and a loop that may have run out of fuel.
abbrev pub after : {A B : Type 0} → Result A → (A → Option (Result B)) → Option (Result B)
after (err e) next = some (err e)
after (ok a) next = next a

abbrev pub chain : {A B : Type 0} → Option (Result A) → (A → Option (Result B)) → Option (Result B)
chain none next = none
chain (some r) next = after r next

abbrev pub one_if : Option Decimal → ℕ
one_if none = 0
one_if (some p) = 1

-- How many triggers there can be.
abbrev pub room : {X : Type 0} → Book X → ℕ
room bk = length bk.st.stop_orders + (one_if bk.st.tp_price + one_if bk.st.liq_price)

-- The pessimistic path: a long position sees the low first, a short one the high, and without one the
-- nearer extremum comes first.
unfoldable pub low_first : DecBar → Decimal → Bool
low_first bar position =
    if Decimal.lt d0 position
    then true
    else if Decimal.lt position d0
    then false
    else Decimal.le (Decimal.sub bar.o bar.l) (Decimal.sub bar.h bar.o)

-- A level that the bar's range reaches.
unfoldable pub reachable : DecBar → List Trigger → Bool
reachable bar [] = false
reachable bar (tr ∷ trs) =
    let rest = reachable bar trs in
    if (if tr.fires_up then Decimal.le tr.level bar.h else Decimal.le bar.l tr.level)
    then true
    else rest

module _ {X : Type 0} (out : Outside X) (cost : CostModelConfig) (t : ℕ) where
  unfoldable pub open_step :
      Decimal
      → (Book X → Option (Result (Book X)))
      → Book X
      → List Trigger
      → Option (Result (Book X))
  unfolding first_of fire
  open_step o next bk [] = some (ok bk)
  open_step o next bk (tr ∷ trs) = after (fire out cost (first_of by_priority tr trs) o t bk) next

  -- `while True`: the levels behind the open are filled at the open.
  unfoldable pub walk_open : ℕ → Decimal → Book X → Option (Result (Book X))
  unfolding triggers selected open_step
  walk_open zero o bk = none
  walk_open (suc fuel) o bk =
      after (triggers bk t)
        (λ trs. open_step o (walk_open fuel o) bk (selected (behind_open o) trs))

  unfoldable pub segment_step :
      Decimal
      → Decimal
      → (Decimal → Book X → Option (Result (Book X)))
      → Book X
      → List Trigger
      → Option (Result (Book X))
  unfolding first_of fire
  segment_step a b next bk [] = some (ok bk)
  segment_step a b next bk (tr ∷ trs) =
      let first = first_of (by_level (Decimal.lt b a)) tr trs in
      after (fire out cost first first.level t bk) (next first.level)

  -- `_walk_segment`, from a to b.
  unfoldable pub walk_segment : ℕ → Decimal → Decimal → Book X → Option (Result (Book X))
  unfolding triggers selected segment_step
  walk_segment zero b a bk = none
  walk_segment (suc fuel) b a bk =
      let moves =
        after (triggers bk t)
          (λ trs. segment_step a b (walk_segment fuel b) bk (selected (on_way a b) trs)) in
      if Decimal.eq b a then some (ok bk) else moves

  -- With fuel for every trigger.
  unfoldable pub segment : Decimal → Decimal → Book X → Option (Result (Book X))
  unfolding walk_segment
  segment a b bk = walk_segment (room bk + 1) b a bk

  unfoldable pub walk_path : DecBar → Book X → Option (Result (Book X))
  unfolding segment low_first
  walk_path bar bk =
      let low = low_first bar bk.st.position in
      let first = if low then bar.l else bar.h in
      let second = if low then bar.h else bar.l in
      chain (segment bar.o first bk)
        (λ bk1. chain (segment first second bk1) (λ bk2. segment second bar.c bk2))

  -- `_walk_triggers`
  unfoldable pub walk_triggers : DecBar → Book X → Option (Result (Book X))
  unfolding triggers reachable walk_open walk_path
  walk_triggers bar bk = after (triggers bk t) (λ trs.
      if not (reachable bar trs)
      then some (ok bk)
      else chain (walk_open (room bk + 1) bar.o bk) (walk_path bar))
