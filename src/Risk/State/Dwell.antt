-- ===== src/Risk/State/Dwell.antt =====
-- The dwell times of the state machine: bookkeeping of a bar, and how long a recovery takes at least.
use fuzz_helm.Base.{
  ℕ, ◌+◌, ◌-◌, ◌≤◌, ◌≡◌, ◌≢◌, refl, sym, ap, Bool, ◌∙◌, ◌⊎◌, inl, inr, true, false, Option, none,
  some, List, [], ◌∷◌, ◌++◌, String, ok, >>=-eq-ok, ok-injective, Bool-cases, length, ◌&&◌, not,
  arith,
}
use fuzz_helm.Base.Int.{ℤ}
use fuzz_helm.Core.Enums.{RiskState, same_state}
use fuzz_helm.Core.Float.{Float}
use fuzz_helm.Risk.Config.{StateMachineCfg}
use fuzz_helm.Risk.Tracker.{EquitySnapshot}
use fuzz_helm.Risk.State.Defs.{
  RiskEvent, RiskStateMachine, RiskObservation, Transition, transitions, seen, transition_of,
  cool_over, warn_over, classify, apply_event, react, update, run, release_transition,
}
use fuzz_helm.Risk.State.Latch.{update-react}

-- What a bar did: either nothing changed but the bar count of the state, or the transition that the
-- call returned leads from the old state to another one, is the last of the history and starts a new
-- count.
abbrev pub Books : RiskStateMachine → RiskStateMachine × Option Transition → Type 0
Books m (m', none) = (m'.state ≡ m.state) × (m'.dwell ≡ m.dwell + 1) × (m'.history ≡ m.history)
Books m (m', some tr) =
    (tr.state_from ≡ m.state)
    × (tr.state_to ≡ m'.state)
    × (m'.state ≢ m.state)
    × (tr.dwell_bars ≡ m.dwell + 1)
    × (m'.dwell ≡ 0)
    × (m'.history ≡ m.history ++ (tr ∷ []))

same_state_eq : (a b : RiskState) → same_state a b ≡ true → a ≡ b
same_state_eq a b h = ground arith

same_state_ne : (a b : RiskState) → same_state a b ≡ false → a ≢ b
same_state_ne a b h = ground arith

apply_event-Books :
    (m m₁ : RiskStateMachine) (clock : Option ℤ) (e : RiskEvent) (s : EquitySnapshot)
    (vol : Option Float) (actor : Option String)
    → m₁.state ≡ m.state
    → m₁.dwell ≡ m.dwell + 1
    → m₁.history ≡ m.history
    → Books m (apply_event m₁ clock e s vol actor)
unfolding apply_event
apply_event-Books m m₁ clock e s vol actor p q r =
    elim (Bool-cases (same_state (transitions m₁.state e) m₁.state)) [
      | inl h ↦ rw h (p, q, r)
      | inr h ↦ rw h (
        p,
        refl,
        (λ x. same_state_ne _ _ h (x ∙ sym p)),
        q,
        refl,
        ap (λ l. l ++ (transition_of m₁ e s vol actor ∷ [])) r,
      )
    ]

react-Books :
    (m m₁ : RiskStateMachine) (clock : Option ℤ) (s : EquitySnapshot) (vol : Option Float)
    → m₁.state ≡ m.state
    → m₁.dwell ≡ m.dwell + 1
    → m₁.history ≡ m.history
    → Books m (react m₁ clock s vol)
unfolding react release_transition
react-Books m m₁ clock s vol p q r =
    elim (Bool-cases (same_state m₁.state RiskState.halted && not m₁.killswitch.tripped)) [
      | inl h ↦ rw h (apply_event-Books m _ clock RiskEvent.admin_release _ _ _ p q r)
      | inr h ↦ rw h (apply_event-Books m m₁ clock _ s vol none p q r)
    ]

-- An accepted bar keeps the books: without a transition the dwell count grows by one and state and
-- history stay; a returned transition runs from the old state to a different new one, carries the full
-- dwell count, is appended to the history and restarts the count.
pub update-Books :
    (m : RiskStateMachine) (clock : Option ℤ) (obs : RiskObservation)
    {r : RiskStateMachine × Option Transition}
    → update m clock obs ≡ ok r
    → Books m r
update-Books m clock obs h =
    let (t, s, _, e) = update-react m clock obs h in
    rw (← e) (react-Books m (seen m obs t) clock s obs.vol_ratio refl refl refl)

classify-recovery :
    (c : StateMachineCfg) (tripped : Bool) (s : EquitySnapshot) (vol : Option Float)
    (st : RiskState) (d : ℕ)
    → classify c tripped s vol st d ≡ RiskEvent.recovery
    → ((st ≡ RiskState.cooldown) × (c.cool_dwell ≤ d))
      ⊎ ((st ≡ RiskState.warning) × (c.warn_dwell ≤ d))
unfolding classify cool_over warn_over
classify-recovery c tripped s vol st d h = ground arith

-- The fewest bars until NORMAL, from the dwell times of WARNING and COOLDOWN, the bars already spent
-- in a state, and the state.
abbrev pub left : ℕ → ℕ → ℕ → RiskState → ℕ
left warn cool d RiskState.normal = 0
left warn cool d RiskState.warning = warn - d
left warn cool d RiskState.cooldown = (cool - d) + warn
left warn cool d RiskState.halted = cool + warn

abbrev pub bars_left : RiskStateMachine → ℕ
bars_left m = left m.cfg.warn_dwell m.cfg.cool_dwell m.dwell m.state

-- An event costs at most one of the bars left, if a recovery has waited long enough.
apply_event-left :
    (m : RiskStateMachine) (clock : Option ℤ) (e : RiskEvent) (s : EquitySnapshot)
    (vol : Option Float) (actor : Option String) (d : ℕ)
    → m.dwell ≡ d + 1
    → (e ≡ RiskEvent.recovery
        → ((m.state ≡ RiskState.cooldown) × (m.cfg.cool_dwell ≤ m.dwell))
          ⊎ ((m.state ≡ RiskState.warning) × (m.cfg.warn_dwell ≤ m.dwell)))
    → left m.cfg.warn_dwell m.cfg.cool_dwell d m.state
      ≤ bars_left (apply_event m clock e s vol actor).0 + 1
unfolding apply_event transitions
apply_event-left m clock e s vol actor d p h = ground arith

react-left :
    (m : RiskStateMachine) (clock : Option ℤ) (s : EquitySnapshot) (vol : Option Float) (d : ℕ)
    → m.dwell ≡ d + 1
    → left m.cfg.warn_dwell m.cfg.cool_dwell d m.state ≤ bars_left (react m clock s vol).0 + 1
unfolding react release_transition
react-left m clock s vol d p =
    elim (Bool-cases (same_state m.state RiskState.halted && not m.killswitch.tripped)) [
      | inl h ↦ rw h (apply_event-left _ clock RiskEvent.admin_release _ _ _ d p (λ e. cc))
      | inr h ↦ rw h (
          apply_event-left m clock _ s vol none d p
            (classify-recovery m.cfg m.killswitch.tripped s vol m.state m.dwell))
    ]

update-left :
    (m : RiskStateMachine) (clock : Option ℤ) (obs : RiskObservation)
    {r : RiskStateMachine × Option Transition}
    → update m clock obs ≡ ok r
    → bars_left m ≤ bars_left r.0 + 1
update-left m clock obs h =
    let (t, s, _, e) = update-react m clock obs h in
    rw (← e) (react-left (seen m obs t) clock s obs.vol_ratio m.dwell refl)

-- However the bars turn out, a run takes at least the bars left: its length is no less than what it
-- took off them.
pub run-bars_left :
    (m : RiskStateMachine) (clock : Option ℤ) (bars : List RiskObservation) {m' : RiskStateMachine}
    → run m clock bars ≡ ok m'
    → bars_left m ≤ bars_left m' + length bars
unfolding run
run-bars_left m clock [] h = rw (← ok-injective h) (omega arith)
run-bars_left m clock (obs ∷ rest) h =
    let (r, u, k) = >>=-eq-ok (update m clock obs) (λ r. run r.0 clock rest) h in
    omega (arith, update-left m clock obs u, run-bars_left r.0 clock rest k)

-- A machine that has just come to COOLDOWN, or is in HALTED, is back in NORMAL after no fewer bars than
-- the dwell times of COOLDOWN and WARNING together.
pub run-recovery_time :
    (m : RiskStateMachine) (clock : Option ℤ) (bars : List RiskObservation) {m' : RiskStateMachine}
    → ((m.state ≡ RiskState.cooldown) × (m.dwell ≡ 0)) ⊎ (m.state ≡ RiskState.halted)
    → run m clock bars ≡ ok m'
    → m'.state ≡ RiskState.normal
    → m.cfg.cool_dwell + m.cfg.warn_dwell ≤ length bars
run-recovery_time m clock bars at h n = ground (arith, run-bars_left m clock bars h)
