-- ===== src/Risk/State/Latch.antt =====
-- The latch of the state machine: how HALTED is entered, kept and left.
use fuzz_helm.Base.{
  ◌+◌, ◌≤◌, ◌≡◌, ◌≢◌, ◌∙◌, refl, sym, ◌⊎◌, inl, inr, true, false, Option, none, some, String, ◌&&◌,
  not, List, [], ◌∷◌, ok, >>=-eq-ok, ok-injective, Bool-cases, arith,
}
use fuzz_helm.Decimal
use fuzz_helm.Base.Int.{ℤ}
use fuzz_helm.Core.Enums.{RiskState, same_state}
use fuzz_helm.Core.Float.{Float}
use fuzz_helm.Risk.Tracker
use fuzz_helm.Risk.Tracker.{EquitySnapshot, EquityTracker, day_return}
use fuzz_helm.Risk.KillSwitch
use fuzz_helm.Risk.State.Defs.{
  RiskEvent, RiskStateMachine, RiskObservation, Transition, transitions, severity, seen, halts,
  classify, apply_event, react, update, run, release_transition, entries_allowed, flatten_all,
}

-- No event lowers the severity by more than one level, and only a recovery or a release lowers it.
pub transitions-severity :
    (s : RiskState) (e : RiskEvent)
    → (severity s ≤ severity (transitions s e) + 1)
      × ((severity s ≤ severity (transitions s e))
          ⊎ ((e ≡ RiskEvent.recovery) ⊎ (e ≡ RiskEvent.admin_release)))
unfolding transitions
transitions-severity s e = ground arith

-- HALTED is left by a release alone, and then for COOLDOWN.
pub transitions-halted :
    (e : RiskEvent)
    → transitions RiskState.halted e ≢ RiskState.halted
    → (e ≡ RiskEvent.admin_release) × (transitions RiskState.halted e ≡ RiskState.cooldown)
unfolding transitions
transitions-halted e h = ground arith

-- A machine in HALTED has a tripped latch.
abbrev pub IsLatched : RiskStateMachine → Type 0
IsLatched m = m.state ≡ RiskState.halted → m.killswitch.tripped ≡ true

-- The state after an event is the table's.
pub apply_event-state :
    (m : RiskStateMachine) (clock : Option ℤ) (e : RiskEvent) (s : EquitySnapshot)
    (vol : Option Float) (actor : Option String)
    → (apply_event m clock e s vol actor).0.state ≡ transitions m.state e
unfolding apply_event transitions
apply_event-state m clock e s vol actor = ground arith

apply_event-IsLatched :
    (m : RiskStateMachine) (clock : Option ℤ) (e : RiskEvent) (s : EquitySnapshot)
    (vol : Option Float) (actor : Option String)
    → IsLatched m
    → IsLatched (apply_event m clock e s vol actor).0
unfolding apply_event KillSwitch.trip
apply_event-IsLatched m clock e s vol actor h = ground arith

release_transition-state :
    (m : RiskStateMachine) (clock : Option ℤ) (actor : Option String)
    → (release_transition m clock actor).0.state ≡ transitions m.state RiskEvent.admin_release
unfolding release_transition
release_transition-state m clock actor = apply_event-state _ clock RiskEvent.admin_release _ _ actor

released_ne_halted : (s : RiskState) → transitions s RiskEvent.admin_release ≢ RiskState.halted
unfolding transitions
released_ne_halted s = ground arith

react-IsLatched :
    (m : RiskStateMachine) (clock : Option ℤ) (s : EquitySnapshot) (vol : Option Float)
    → IsLatched (react m clock s vol).0
unfolding react
react-IsLatched m clock s vol =
    elim (Bool-cases (same_state m.state RiskState.halted && not m.killswitch.tripped)) [
      | inl h ↦ rw h (λ e. absurd (
          released_ne_halted m.state
            (sym (release_transition-state m clock (some "kill_switch")) ∙ e)))
      | inr h ↦ rw h (apply_event-IsLatched m clock _ s vol none (ground arith))
    ]

-- With a tripped latch every bar leaves the machine in HALTED with the latch tripped.
react_tripped :
    (m : RiskStateMachine) (clock : Option ℤ) (s : EquitySnapshot) (vol : Option Float)
    → m.killswitch.tripped ≡ true
    → ((react m clock s vol).0.state ≡ RiskState.halted)
      × ((react m clock s vol).0.killswitch.tripped ≡ true)
unfolding react apply_event KillSwitch.trip classify halts transitions
react_tripped m clock s vol h = ground arith

pub update-react :
    (m : RiskStateMachine) (clock : Option ℤ) (obs : RiskObservation)
    {r : RiskStateMachine × Option Transition}
    → update m clock obs ≡ ok r
    → (t : EquityTracker) × (s : EquitySnapshot) × (Tracker.update m.tracker obs.ts_ns obs.equity
        ≡ ok (t, s))
      × (react (seen m obs t) clock s obs.vol_ratio ≡ r)
unfolding update
update-react m clock obs h =
    let (r, u, k) =
      >>=-eq-ok (Tracker.update m.tracker obs.ts_ns obs.equity)
        (λ r. ok (react (seen m obs r.0) clock r.1 obs.vol_ratio)) h in
    (r.0, r.1, u, ok-injective k)

pub update-IsLatched :
    (m : RiskStateMachine) (clock : Option ℤ) (obs : RiskObservation)
    {r : RiskStateMachine × Option Transition}
    → update m clock obs ≡ ok r
    → IsLatched r.0
update-IsLatched m clock obs h =
    let (t, s, _, e) = update-react m clock obs h in
    rw (← e) (react-IsLatched (seen m obs t) clock s obs.vol_ratio)

-- A machine that is in HALTED after an accepted bar has a tripped latch, whatever was done to the latch
-- before.
pub update-latched :
    (m : RiskStateMachine) (clock : Option ℤ) (obs : RiskObservation)
    {r : RiskStateMachine × Option Transition}
    → update m clock obs ≡ ok r
    → r.0.state ≡ RiskState.halted
    → r.0.killswitch.tripped ≡ true
update-latched m clock obs h s = update-IsLatched m clock obs h s

update_tripped :
    (m : RiskStateMachine) (clock : Option ℤ) (obs : RiskObservation)
    {r : RiskStateMachine × Option Transition}
    → m.killswitch.tripped ≡ true
    → update m clock obs ≡ ok r
    → (r.0.state ≡ RiskState.halted) × (r.0.killswitch.tripped ≡ true)
update_tripped m clock obs h u =
    let (t, s, _, e) = update-react m clock obs u in
    rw (← e) (react_tripped (seen m obs t) clock s obs.vol_ratio h)

run_tripped :
    (m : RiskStateMachine) (clock : Option ℤ) (bars : List RiskObservation) {m' : RiskStateMachine}
    → m.state ≡ RiskState.halted
    → m.killswitch.tripped ≡ true
    → run m clock bars ≡ ok m'
    → (m'.state ≡ RiskState.halted) × (m'.killswitch.tripped ≡ true)
unfolding run
run_tripped m clock [] s h k = rw (← ok-injective k) (s, h)
run_tripped m clock (obs ∷ rest) s h k =
    let (r, u, k') = >>=-eq-ok (update m clock obs) (λ r. run r.0 clock rest) k in
    let (s', h') = update_tripped m clock obs h u in run_tripped r.0 clock rest s' h' k'

-- The latch holds: from a tripped latch, after one bar or more and whatever the bars show, the machine
-- is in HALTED with the latch tripped, everything is to be closed, and no entry is allowed.
pub run-stays_halted :
    (m : RiskStateMachine) (clock : Option ℤ) (obs : RiskObservation) (bars : List RiskObservation)
    {m' : RiskStateMachine}
    → m.killswitch.tripped ≡ true
    → run m clock (obs ∷ bars) ≡ ok m'
    → (m'.state ≡ RiskState.halted)
      × (m'.killswitch.tripped ≡ true)
      × (flatten_all m' ≡ true)
      × (entries_allowed m' ≡ false)
unfolding run entries_allowed flatten_all
run-stays_halted m clock obs bars {m'} h k =
    let (r, u, k') = >>=-eq-ok (update m clock obs) (λ r. run r.0 clock bars) k in
    let (s, t) = update_tripped m clock obs h u in
    let (s', t') = run_tripped r.0 clock bars s t k' in (s', t', rw s' refl, rw t' refl)

react_breach :
    (m : RiskStateMachine) (clock : Option ℤ) (s : EquitySnapshot) (vol : Option Float)
    → IsLatched m
    → halts m.cfg m.killswitch.tripped s ≡ true
    → ((react m clock s vol).0.state ≡ RiskState.halted)
      × ((react m clock s vol).0.killswitch.tripped ≡ true)
unfolding react apply_event KillSwitch.trip classify transitions
react_breach m clock s vol l h = ground arith

-- A bar whose drawdown reaches `halt_enter`, or whose day lost `halt_daily_loss`, puts a machine with
-- a sound latch into HALTED at once, from every state, and trips the latch.
pub update-halts :
    (m : RiskStateMachine) (clock : Option ℤ) (obs : RiskObservation) {t : EquityTracker}
    {s : EquitySnapshot} {r : RiskStateMachine × Option Transition}
    → IsLatched m
    → Tracker.update m.tracker obs.ts_ns obs.equity ≡ ok (t, s)
    → (Decimal.le m.cfg.halt_enter s.drawdown ≡ true)
      ⊎ (Decimal.le (day_return s) (Decimal.neg m.cfg.halt_daily_loss) ≡ true)
    → update m clock obs ≡ ok r
    → (r.0.state ≡ RiskState.halted) × (r.0.killswitch.tripped ≡ true)
unfolding update halts
update-halts m clock obs {t} {s} {r} l u breach h =
    rw (← ok-injective (rw u at h))
      (react_breach (seen m obs t) clock s obs.vol_ratio l (ground arith))
