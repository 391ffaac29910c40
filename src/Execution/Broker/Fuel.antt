-- ===== src/Execution/Broker/Fuel.antt =====
-- The loops of a bar end: every round spends a trigger, and there is fuel for all of them.
use fuzz_helm.Base.{
  ℕ, zero, suc, ◌+◌, ◌<◌, Bool, true, false, not, ◌&&◌, ◌≡◌, ◌≢◌, refl, subst, Option, none, some,
  List, [], ◌∷◌, All, if◌then◌else◌, Result, ok, err, arith, raise_if, value_error,
}
use fuzz_helm.Base.Dict.{lookup, string_key}
use fuzz_helm.Decimal.{Decimal, d0}
use fuzz_helm.Decimal
use fuzz_helm.Execution.Costs.{CostModelConfig, offsets, is_full, next_funding_time, funding_times}
use fuzz_helm.Execution.Broker.State.{DecBar, InstState, Outside, Book, Broker}
use fuzz_helm.Execution.Broker.Walk.{
  Trigger, triggers, selected, first_of, fire, behind_open, on_way, by_priority, by_level,
}
use fuzz_helm.Execution.Broker.Path.{
  room, after, chain, open_step, walk_open, segment_step, walk_segment, segment, walk_path,
  walk_triggers, reachable,
}
use fuzz_helm.Execution.Costs.Schedule.{WithinDay, funding_times-due}
use fuzz_helm.Execution.Orders.{FundingCharge}
use fuzz_helm.Execution.Broker.Bar.{
  on_bar, bar_of, run_bar, funding_of, charged_for, is_due, market_phase, trigger_phase,
  has_triggers, orphan_phase, closed_bar, book_of, not_later, update_stats,
}
use fuzz_helm.Execution.Broker.Room.{fire_kind-room}
use fuzz_helm.Execution.Broker.Live.{LiveIn, triggers-Live, selected-All, first_of-All}

-- The loop ended: with a book or with an exception.
abbrev pub Ended : {A : Type 0} → Option A → Type 0
Ended none = ⊥
Ended (some a) = Unit

pub after-Ended :
    {A B : Type 0} (r : Result A) (next : A → Option (Result B))
    → ((a : A) → r ≡ ok a → Ended (next a))
    → Ended (after r next)
after-Ended (err e) next h = tt
after-Ended (ok a) next h = h a refl

pub chain-Ended :
    {A B : Type 0} (r : Option (Result A)) (next : A → Option (Result B))
    → Ended r
    → ((a : A) → Ended (next a))
    → Ended (chain r next)
chain-Ended none next h k = absurd h
chain-Ended (some r) next h k = after-Ended r next (λ a same. k a)

pub if-Ended :
    {A : Type 0} (test : Bool) (x y : Option A) → Ended x → Ended y → Ended (if test then x else y)
if-Ended true x y hx hy = hx
if-Ended false x y hx hy = hy

module _ {X : Type 0} (out : Outside X) (cost : CostModelConfig) (t : ℕ) where
  fire-room :
      (bk bk' : Book X) (tr : Trigger) (p_ref : Decimal)
      → LiveIn bk tr
      → fire out cost tr p_ref t bk ≡ ok bk'
      → room bk' < room bk
  unfolding fire
  fire-room bk bk' tr p_ref live same =
      fire_kind-room out cost tr.kind tr.level p_ref t bk bk' live same

  open_step-Ended :
      (o : Decimal) (next : Book X → Option (Result (Book X))) (bk : Book X) (trs : List Trigger)
      → All (LiveIn bk) trs
      → ((bk' : Book X) → room bk' < room bk → Ended (next bk'))
      → Ended (open_step out cost t o next bk trs)
  unfolding open_step
  open_step-Ended o next bk [] h k = tt
  open_step-Ended o next bk (tr ∷ trs) (live, h) k =
      let first = first_of by_priority tr trs in
      after-Ended (fire out cost first o t bk) next (λ bk' same.
        k bk' (fire-room bk bk' first o (first_of-All (LiveIn bk) by_priority tr trs live h) same))

  walk_open-Ended :
      (fuel : ℕ) (o : Decimal) (bk : Book X)
      → room bk < fuel
      → Ended (walk_open out cost t fuel o bk)
  unfolding walk_open
  walk_open-Ended zero o bk h = absurd (omega arith)
  walk_open-Ended (suc fuel) o bk h = after-Ended (triggers bk t) _ (λ trs same.
      open_step-Ended o (walk_open out cost t fuel o) bk (selected (behind_open o) trs)
        (selected-All (LiveIn bk) (behind_open o) trs (triggers-Live bk t trs same))
        (λ bk' less. walk_open-Ended fuel o bk' (omega arith)))

  segment_step-Ended :
      (a b : Decimal) (next : Decimal → Book X → Option (Result (Book X))) (bk : Book X)
      (trs : List Trigger)
      → All (LiveIn bk) trs
      → ((level : Decimal) (bk' : Book X) → room bk' < room bk → Ended (next level bk'))
      → Ended (segment_step out cost t a b next bk trs)
  unfolding segment_step
  segment_step-Ended a b next bk [] h k = tt
  segment_step-Ended a b next bk (tr ∷ trs) (live, h) k =
      let first = first_of (by_level (Decimal.lt b a)) tr trs in
      after-Ended (fire out cost first first.level t bk) (next first.level) (λ bk' same.
        k first.level bk' (
          fire-room bk bk' first first.level
            (first_of-All (LiveIn bk) (by_level (Decimal.lt b a)) tr trs live h) same))

  walk_segment-Ended :
      (fuel : ℕ) (b a : Decimal) (bk : Book X)
      → room bk < fuel
      → Ended (walk_segment out cost t fuel b a bk)
  unfolding walk_segment
  walk_segment-Ended zero b a bk h = absurd (omega arith)
  walk_segment-Ended (suc fuel) b a bk h = if-Ended (Decimal.eq b a) _ _ tt (
      after-Ended (triggers bk t) _ (λ trs same.
        segment_step-Ended a b (walk_segment out cost t fuel b) bk (selected (on_way a b) trs)
          (selected-All (LiveIn bk) (on_way a b) trs (triggers-Live bk t trs same))
          (λ level bk' less. walk_segment-Ended fuel b level bk' (omega arith))))

  segment-Ended : (a b : Decimal) (bk : Book X) → Ended (segment out cost t a b bk)
  unfolding segment
  segment-Ended a b bk = walk_segment-Ended (room bk + 1) b a bk (omega arith)

  walk_path-Ended : (bar : DecBar) (bk : Book X) → Ended (walk_path out cost t bar bk)
  unfolding walk_path
  walk_path-Ended bar bk =
      chain-Ended _ _ (segment-Ended _ _ bk)
        (λ bk1. chain-Ended _ _ (segment-Ended _ _ bk1) (λ bk2. segment-Ended _ _ bk2))

  walk_triggers-Ended : (bar : DecBar) (bk : Book X) → Ended (walk_triggers out cost t bar bk)
  unfolding walk_triggers
  walk_triggers-Ended bar bk = after-Ended (triggers bk t) _ (λ trs same.
      if-Ended (not (reachable bar trs)) _ _ tt (
        chain-Ended _ _ (walk_open-Ended (room bk + 1) bar.o bk (omega arith))
          (λ bk1. walk_path-Ended bar bk1)))

  trigger_phase-Ended :
      (bar : DecBar) (bk : Book X) → bar.open_time_ns ≡ t → Ended (trigger_phase out cost bar bk)
  unfolding trigger_phase
  trigger_phase-Ended bar bk at =
      if-Ended (has_triggers bk) (walk_triggers out cost bar.open_time_ns bar bk) (some (ok bk))
        (rw at (walk_triggers-Ended bar bk)) tt

  run_bar-Ended :
      (bar : DecBar) (bk : Book X) → bar.open_time_ns ≡ t → Ended (run_bar out cost bar bk)
  unfolding run_bar
  run_bar-Ended bar bk at =
      after-Ended (market_phase out cost bar bk)
        (λ bk1. chain (trigger_phase out cost bar bk1) (λ bk2. some (orphan_phase bk2)))
        (λ bk1 same.
          chain-Ended (trigger_phase out cost bar bk1) (λ bk2. some (orphan_phase bk2))
            (trigger_phase-Ended bar bk1 at) (λ bk2. tt))

due-Ended :
    (cost : CostModelConfig) (st : InstState) (bar : DecBar) (last : ℕ) (due : Bool)
    → WithinDay (offsets cost)
    → Ended (
        if due
        then charged_for cost st bar.open_time_ns bar.o
            (funding_times (offsets cost) last bar.open_time_ns)
        else some (ok []))
unfolding charged_for
due-Ended cost st bar last false h = tt
due-Ended cost st bar last true h =
    let (times, found, _) = funding_times-due (offsets cost) last bar.open_time_ns h in rw found tt

abbrev due_charges :
    CostModelConfig → InstState → DecBar → ℕ → Bool → Option (Result (List (FundingCharge Decimal)))
due_charges cost st bar last due =
    if due
    then charged_for cost st bar.open_time_ns bar.o
        (funding_times (offsets cost) last bar.open_time_ns)
    else some (ok [])

funding_of-Ended :
    (cost : CostModelConfig) (st : InstState) (bar : DecBar) (last : Option ℕ)
    → WithinDay (offsets cost)
    → Ended (funding_of cost st bar last)
unfolding funding_of
funding_of-Ended cost st bar none h = tt
funding_of-Ended cost st bar (some last) h =
    if-Ended (not (Decimal.eq st.position d0) && is_full cost.mode)
      (after (is_due (next_funding_time (offsets cost) last) bar.open_time_ns)
        (due_charges cost st bar last))
      (some (ok []))
      (after-Ended (is_due (next_funding_time (offsets cost) last) bar.open_time_ns)
        (due_charges cost st bar last) (λ due same. due-Ended cost st bar last due h))
      tt

module _ {X : Type 0} (out : Outside X) where
  bar_of-Ended :
      (bar : DecBar) (st : Option InstState) (b : Broker X)
      → WithinDay (offsets b.cost)
      → Ended (bar_of out bar st b)
  unfolding bar_of
  bar_of-Ended bar none b h = tt
  bar_of-Ended bar (some st) b h =
      let finish = λ (paid : List (FundingCharge Decimal)) (bk : Book X) (st' : InstState).
        some (ok (closed_bar bar b paid bk st', bk.fills)) in
      let run = λ (paid : List (FundingCharge Decimal)).
        chain (run_bar out b.cost bar (book_of st b))
          (λ bk. after (update_stats b.lam bar bk.st) (finish paid bk)) in
      after-Ended (raise_if (not_later st.last_open_ns bar.open_time_ns) value_error)
        (λ unit. chain (funding_of b.cost st bar st.last_open_ns) run)
        (λ unit same.
          chain-Ended (funding_of b.cost st bar st.last_open_ns) run
            (funding_of-Ended b.cost st bar st.last_open_ns h)
            (λ paid.
              chain-Ended (run_bar out b.cost bar (book_of st b))
                (λ bk. after (update_stats b.lam bar bk.st) (finish paid bk))
                (run_bar-Ended out b.cost bar.open_time_ns bar (book_of st b) refl)
                (λ bk.
                  after-Ended (update_stats b.lam bar bk.st) (finish paid bk) (λ st' same'. tt))))

  -- `on_bar` comes to an end on every bar and every broker: the walk over the funding days, the loop at
  -- the open and the segments of the price path all stop, since every trigger that fires is spent. It
  -- gives the fills, or raises. The funding offsets are times of a day.
  pub on_bar-ends :
      (bar : DecBar) (b : Broker X) → WithinDay (offsets b.cost) → on_bar out bar b ≢ none
  unfolding on_bar
  on_bar-ends bar b h same =
      subst Ended same (bar_of-Ended bar (lookup bar.instrument b.states) b h)
