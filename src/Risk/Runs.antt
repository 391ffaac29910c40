-- ===== src/Risk/Runs.antt =====
-- Concrete runs of the state machine, the tracker and the kill switch.
use fuzz_helm.Base.{
  ℕ, ◌+◌, ◌≤◌, ◌≡◌, ◌≢◌, ◌↔◌, refl, inl, inr, Bool, true, false, Option, none, some, String, List,
  [], ◌∷◌, All, length, Result, ok, err, got, got-eq, IsOk, permission_denied, value_error,
  if◌then◌else◌, arith,
}
use fuzz_helm.Base.Int.{ℤ, pos, ltb_ℤ, eqb_ℤ}
use fuzz_helm.Decimal
use fuzz_helm.Decimal.{Decimal, d0, d1}
use fuzz_helm.Core.Clock.{utc_day_start_ns}
use fuzz_helm.Core.Enums.{RiskState, Role}
use fuzz_helm.Risk.Config.{StateMachineCfg, validate}
use fuzz_helm.Risk.Examples.{cfg, dec}
use fuzz_helm.Risk.KillSwitch
use fuzz_helm.Risk.KillSwitch.{KillSwitch, AuditRecord}
use fuzz_helm.Risk.KillSwitch.Laws.{trip_all, trip_all-first, tripped_for}
use fuzz_helm.Risk.State
use fuzz_helm.Risk.State.{
  RiskStateMachine, RiskObservation, Transition, start, update, run, kappa_mode, severity,
  flatten_all, entries_allowed,
}
use fuzz_helm.Risk.State.Latch.{run-stays_halted, update-halts}
use fuzz_helm.Risk.State.Dwell.{run-recovery_time}
use fuzz_helm.Risk.State.Release.{Restarts, release-Restarts}
use fuzz_helm.Risk.Tracker
use fuzz_helm.Risk.Tracker.{EquityTracker, EquitySnapshot}
use fuzz_helm.Risk.Tracker.Peak.{Bounds, update_all, update_all-peak}

abbrev bar : ℕ → ℕ → RiskObservation
bar ts equity = record { ts_ns = pos ts; equity = dec equity 0; vol_ratio = none }

-- The first bar of a machine.
abbrev m_start : RiskStateMachine
m_start = start cfg

first_ok : IsOk (update m_start none (bar 1 100))
unfolding update Tracker.update
first_ok = tt

-- A tracker that has seen a capital of 100.
abbrev seen_hundred : EquityTracker
seen_hundred = record {
  peak = some (dec 100 0);
  day = some (pos 0);
  day_open = dec 100 0;
  last_equity = some (dec 100 0);
  last_ts = some (pos 1);
  snap = none;
}

abbrev m_first : RiskStateMachine
m_first = record m_start { tracker = seen_hundred; dwell = 1; last_ts = pos 1 }

-- The capital falls by a fifth: HALTED.
crash_ok : IsOk (update m_first none (bar 2 80))
unfolding update Tracker.update
crash_ok = tt

abbrev m_crashed : RiskStateMachine
m_crashed = (got (update m_first none (bar 2 80)) crash_ok).0

crash_tracked : IsOk (Tracker.update m_first.tracker (pos 2) (dec 80 0))
unfolding Tracker.update
crash_tracked = tt

abbrev tracked : EquityTracker × EquitySnapshot
tracked = got (Tracker.update m_first.tracker (pos 2) (dec 80 0)) crash_tracked

first_is_normal : m_first.state ≢ RiskState.halted
first_is_normal = λ e. cc

deep : Decimal.le m_first.cfg.halt_enter tracked.1.drawdown ≡ true
unfolding Decimal.le Tracker.update Tracker.after Tracker.make Tracker.observed Decimal.sub
    Decimal.quotient
deep = refl

update-halts_example : (m_crashed.state ≡ RiskState.halted) × (m_crashed.killswitch.tripped ≡ true)
update-halts_example =
    update-halts m_first none (bar 2 80) (λ e. absurd (first_is_normal e)) (got-eq _ crash_tracked)
      (inl deep) (got-eq _ crash_ok)

abbrev m_halted : RiskStateMachine
m_halted = record m_first {
  state = RiskState.halted;
  killswitch = record {
    tripped = true;
    reason = some "drawdown";
    tripped_at_ns = some (pos 1);
    trip_count = 1;
  };
}

-- The capital recovers, and the machine stays in HALTED.
later_ok : IsOk (run m_halted none (bar 3 110 ∷ []))
unfolding run update Tracker.update
later_ok = tt

abbrev m_later : RiskStateMachine
m_later = got (run m_halted none (bar 3 110 ∷ [])) later_ok

run-stays_halted_example :
    (m_later.state ≡ RiskState.halted)
    × (m_later.killswitch.tripped ≡ true)
    × (flatten_all m_later ≡ true)
    × (entries_allowed m_later ≡ false)
run-stays_halted_example = run-stays_halted m_halted none (bar 3 110) [] refl (got-eq _ later_ok)

-- From COOLDOWN back to NORMAL, with dwell times of one bar.
abbrev quick : RiskStateMachine
quick = record (start (record cfg { cool_dwell = 1; warn_dwell = 1 })) {
  state = RiskState.cooldown;
  tracker = seen_hundred;
}

quick_ok : IsOk (run quick none (bar 2 100 ∷ bar 3 100 ∷ []))
unfolding run update Tracker.update State.react State.apply_event State.transitions State.classify
    State.halts Decimal.le Tracker.after Tracker.make Tracker.observed Decimal.sub Decimal.quotient
    Tracker.day_return utc_day_start_ns Decimal.neg fuzz_helm.Base.Int.◌-ℤ◌ Decimal.div_round
    Decimal.round_prec Decimal.width KillSwitch.now KillSwitch.trip State.cool_over State.cools
    State.release_transition State.warn_over State.warns Tracker.open_of Tracker.rebase
quick_ok = tt

quick_normal : (got (run quick none (bar 2 100 ∷ bar 3 100 ∷ [])) quick_ok).state ≡ RiskState.normal
unfolding run update Tracker.update State.react State.apply_event State.transitions State.classify
    State.halts Decimal.le Tracker.after Tracker.make Tracker.observed Decimal.sub Decimal.quotient
    Tracker.day_return utc_day_start_ns Decimal.neg fuzz_helm.Base.Int.◌-ℤ◌ Decimal.div_round
    Decimal.round_prec Decimal.width KillSwitch.now KillSwitch.trip State.cool_over State.cools
    State.release_transition State.warn_over State.warns Tracker.open_of Tracker.rebase
quick_normal = refl

run-recovery_time_example : 2 ≤ 2
run-recovery_time_example =
    run-recovery_time quick none (bar 2 100 ∷ bar 3 100 ∷ []) (inl (refl, refl)) (got-eq _ quick_ok)
      quick_normal

-- The administrator releases the halted machine.
abbrev released : Result State.Released
released = State.release m_halted none Role.admin none

released_ok : IsOk released
unfolding State.release State.release_halted State.audit_state KillSwitch.release
    State.release_transition State.apply_event State.transitions
released_ok = tt

release-Restarts_example : Restarts m_halted (got released released_ok)
release-Restarts_example =
    release-Restarts m_halted none none refl refl (got-eq released released_ok)

m_halted_kappa : m_halted.cfg.kappa_mode RiskState.halted ≡ some (dec 0 1)
m_halted_kappa = refl

m_halted_kappa_cooldown : m_halted.cfg.kappa_mode RiskState.cooldown ≡ some (dec 25 2)
m_halted_kappa_cooldown = refl

-- The configuration.
accepted : IsOk (validate cfg)
unfolding validate fuzz_helm.Risk.Config.check_fields Decimal.le fuzz_helm.Risk.Config.check_bands
    fuzz_helm.Risk.Config.check_kappa fuzz_helm.Risk.Config.kappa_at
    fuzz_helm.Risk.Config.check_order
accepted = tt

abbrev m_cool : RiskStateMachine
m_cool = record m_start { state = RiskState.cooldown }

-- The tracker: two observations on one day.
abbrev two : List (ℤ × Decimal)
two = (pos 1, dec 100 0) ∷ (pos 2, dec 80 0) ∷ []

two_ok : IsOk (update_all Tracker.fresh two)
unfolding update_all Tracker.update Tracker.after Tracker.observed
two_ok = tt

update_all-peak_example : All (λ o. Bounds (got (update_all Tracker.fresh two) two_ok) o.1) two
update_all-peak_example = update_all-peak Tracker.fresh two (got-eq _ two_ok)

one_ok : IsOk (Tracker.update Tracker.fresh (pos 1) (dec 100 0))
unfolding Tracker.update
one_ok = tt

abbrev t_first : EquityTracker × EquitySnapshot
t_first = got (Tracker.update Tracker.fresh (pos 1) (dec 100 0)) one_ok

next_ok : IsOk (Tracker.update t_first.0 (pos 2) (dec 80 0))
unfolding Tracker.update Tracker.after Tracker.observed
next_ok = tt

-- The kill switch.
trip_all-first_example :
    trip_all KillSwitch.fresh none (("drawdown", some (pos 5)) ∷ ("manual", none) ∷ [])
    ≡ tripped_for KillSwitch.fresh none "drawdown" (some (pos 5))
trip_all-first_example =
    trip_all-first KillSwitch.fresh none "drawdown" (some (pos 5)) (("manual", none) ∷ []) refl
