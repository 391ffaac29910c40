-- ===== src/Risk/State/Defs.antt =====
-- risk/state.py. A callback receives what the operation returns, so the transition and the audit records
-- are results; `clock` is the reading of the injected clock, if there is one.
use fuzz_helm.Base.{
  ℕ, ◌+◌, Bool, true, false, not, ◌&&◌, ◌||◌, leb, Option, none, some, List, [], ◌∷◌, ◌++◌, String,
  Result, ok, err, ◌>>=◌, ◌>>◌, raise_if, value_error, permission_denied, key_error, if◌then◌else◌,
}
use text.Mathlib.Text.{◌==◌ as str_eq}
use fuzz_helm.Base.Int.{ℤ, pos}
use fuzz_helm.Decimal
use fuzz_helm.Decimal.{Decimal, d0}
use fuzz_helm.Core.Float
use fuzz_helm.Core.Float.{Float}
use fuzz_helm.Core.Enums.{RiskState, Role, same_state, is_admin}
use fuzz_helm.Core.Value.{Value, Fields}
use fuzz_helm.Risk.KillSwitch
use fuzz_helm.Risk.KillSwitch.{KillSwitch, AuditRecord}
use fuzz_helm.Risk.Tracker
use fuzz_helm.Risk.Tracker.{EquityTracker, EquitySnapshot, day_return}
use fuzz_helm.Risk.Config.{StateMachineCfg, CooldownPolicy}

pub data RiskEvent : Type 0 where
  halt_breach cool_breach warn_breach recovery steady admin_release : RiskEvent

-- The table `TRANSITIONS`, cell by cell.
unfoldable pub transitions : RiskState → RiskEvent → RiskState
transitions RiskState.normal RiskEvent.halt_breach = RiskState.halted
transitions RiskState.normal RiskEvent.cool_breach = RiskState.cooldown
transitions RiskState.normal RiskEvent.warn_breach = RiskState.warning
transitions RiskState.normal RiskEvent.recovery = RiskState.normal
transitions RiskState.normal RiskEvent.steady = RiskState.normal
transitions RiskState.normal RiskEvent.admin_release = RiskState.normal
transitions RiskState.warning RiskEvent.halt_breach = RiskState.halted
transitions RiskState.warning RiskEvent.cool_breach = RiskState.cooldown
transitions RiskState.warning RiskEvent.warn_breach = RiskState.warning
transitions RiskState.warning RiskEvent.recovery = RiskState.normal
transitions RiskState.warning RiskEvent.steady = RiskState.warning
transitions RiskState.warning RiskEvent.admin_release = RiskState.warning
transitions RiskState.cooldown RiskEvent.halt_breach = RiskState.halted
transitions RiskState.cooldown RiskEvent.cool_breach = RiskState.cooldown
transitions RiskState.cooldown RiskEvent.warn_breach = RiskState.cooldown
transitions RiskState.cooldown RiskEvent.recovery = RiskState.warning
transitions RiskState.cooldown RiskEvent.steady = RiskState.cooldown
transitions RiskState.cooldown RiskEvent.admin_release = RiskState.cooldown
transitions RiskState.halted RiskEvent.halt_breach = RiskState.halted
transitions RiskState.halted RiskEvent.cool_breach = RiskState.halted
transitions RiskState.halted RiskEvent.warn_breach = RiskState.halted
transitions RiskState.halted RiskEvent.recovery = RiskState.halted
transitions RiskState.halted RiskEvent.steady = RiskState.halted
transitions RiskState.halted RiskEvent.admin_release = RiskState.cooldown

-- `SEVERITY`
abbrev pub severity : RiskState → ℕ
severity RiskState.normal = 0
severity RiskState.warning = 1
severity RiskState.cooldown = 2
severity RiskState.halted = 3

pub record RiskObservation : Type 0 where
  pub ts_ns : ℤ
  pub equity : Decimal
  pub vol_ratio : Option Float

-- `__post_init__`: a volatility ratio is absent, or finite and not negative.
abbrev valid_vol : Option Float → Bool
valid_vol none = true
valid_vol (some v) = Float.is_finite v && Float.le (Float.finite d0) v

unfoldable pub observation : ℤ → Decimal → Option Float → Result RiskObservation
observation ts e vol = do
  raise_if (not (valid_vol vol)) value_error
  ok (record { ts_ns = ts; equity = e; vol_ratio = vol })

pub record Transition : Type 0 where
  pub ts_ns : ℤ
  pub state_from : RiskState
  pub state_to : RiskState
  pub event : RiskEvent
  pub dwell_bars : ℕ
  pub drawdown : Decimal
  pub day_ret : Decimal
  pub vol_ratio : Option Float
  pub actor : Option String

pub record RiskStateMachine : Type 0 where
  pub cfg : StateMachineCfg
  pub killswitch : KillSwitch
  pub tracker : EquityTracker
  pub state : RiskState
  pub dwell : ℕ
  pub last_ts : ℤ
  pub last_vol : Option Float
  pub history : List Transition

-- `RiskStateMachine(cfg)`
abbrev pub start : StateMachineCfg → RiskStateMachine
start c = record {
  cfg = c;
  killswitch = KillSwitch.fresh;
  tracker = Tracker.fresh;
  state = RiskState.normal;
  dwell = 0;
  last_ts = pos 0;
  last_vol = none;
  history = [];
}

-- `kappa_mode`: a missing key raises.
unfoldable pub kappa_mode : RiskStateMachine → Result Decimal
kappa_mode m = elim (m.cfg.kappa_mode m.state) [ none ↦ err key_error | some k ↦ ok k ]

unfoldable pub reduce_only : RiskStateMachine → Bool
reduce_only m = leb 2 (severity m.state)

abbrev is_scaled : CooldownPolicy → Bool
is_scaled CooldownPolicy.scaled_entries = true
is_scaled CooldownPolicy.reduce_only = false

unfoldable pub entries_allowed : RiskStateMachine → Bool
entries_allowed m =
    if m.killswitch.tripped || same_state m.state RiskState.halted
    then false
    else if same_state m.state RiskState.cooldown
    then is_scaled m.cfg.cooldown_policy
    else true

unfoldable pub flatten_all : RiskStateMachine → Bool
flatten_all m = same_state m.state RiskState.halted

-- `vol_ratio is not None and vol_ratio > c.warn_vol_ratio`
abbrev vol_high : StateMachineCfg → Option Float → Bool
vol_high c none = false
vol_high c (some v) = Float.lt c.warn_vol_ratio v

-- `tripped or dd >= c.halt_enter or day_ret <= -c.halt_daily_loss`
unfoldable pub halts : StateMachineCfg → Bool → EquitySnapshot → Bool
halts c tripped s =
    tripped
    || (Decimal.le c.halt_enter s.drawdown
        || Decimal.le (day_return s) (Decimal.neg c.halt_daily_loss))

unfoldable pub cools : StateMachineCfg → EquitySnapshot → Bool
cools c s =
    Decimal.le c.cool_enter s.drawdown || Decimal.le (day_return s) (Decimal.neg c.cool_daily_loss)

unfoldable pub warns : StateMachineCfg → EquitySnapshot → Option Float → Bool
warns c s vol = Decimal.le c.warn_enter s.drawdown || vol_high c vol

-- `dd <= c.cool_exit and dw >= c.cool_dwell`, and the same for the warning.
unfoldable pub cool_over : StateMachineCfg → EquitySnapshot → ℕ → Bool
cool_over c s dwell = Decimal.le s.drawdown c.cool_exit && leb c.cool_dwell dwell

unfoldable pub warn_over : StateMachineCfg → EquitySnapshot → ℕ → Bool
warn_over c s dwell = Decimal.le s.drawdown c.warn_exit && leb c.warn_dwell dwell

-- `classify`, with the state and the dwell time given.
unfoldable pub classify :
    StateMachineCfg → Bool → EquitySnapshot → Option Float → RiskState → ℕ → RiskEvent
classify c tripped s vol st dwell =
    if halts c tripped s
    then RiskEvent.halt_breach
    else if same_state st RiskState.halted
    then RiskEvent.steady
    else if cools c s
    then RiskEvent.cool_breach
    else if same_state st RiskState.cooldown
    then if cool_over c s dwell then RiskEvent.recovery else RiskEvent.steady
    else if warns c s vol
    then RiskEvent.warn_breach
    else if same_state st RiskState.warning && warn_over c s dwell
    then RiskEvent.recovery
    else RiskEvent.steady

-- `f"risk_state:{event.value}"`
abbrev trip_reason : RiskEvent → String
trip_reason RiskEvent.halt_breach = "risk_state:HALT_BREACH"
trip_reason RiskEvent.cool_breach = "risk_state:COOL_BREACH"
trip_reason RiskEvent.warn_breach = "risk_state:WARN_BREACH"
trip_reason RiskEvent.recovery = "risk_state:RECOVERY"
trip_reason RiskEvent.steady = "risk_state:STEADY"
trip_reason RiskEvent.admin_release = "risk_state:ADMIN_RELEASE"

-- The transition that `_apply` records.
abbrev pub transition_of :
    RiskStateMachine → RiskEvent → EquitySnapshot → Option Float → Option String → Transition
transition_of m event s vol actor = record {
  ts_ns = s.ts_ns;
  state_from = m.state;
  state_to = transitions m.state event;
  event = event;
  dwell_bars = m.dwell;
  drawdown = s.drawdown;
  day_ret = day_return s;
  vol_ratio = vol;
  actor = actor;
}

unfoldable pub apply_event :
    RiskStateMachine
    → Option ℤ
    → RiskEvent
    → EquitySnapshot
    → Option Float
    → Option String
    → RiskStateMachine × Option Transition
apply_event m clock event s vol actor =
    let target = transitions m.state event in
    let tr = transition_of m event s vol actor in
    let k = (KillSwitch.trip m.killswitch clock (trip_reason event) (some s.ts_ns)).0 in
    if same_state target m.state then (m, none) else (
      record m {
        state = target;
        dwell = 0;
        killswitch = if same_state target RiskState.halted then k else m.killswitch;
        history = m.history ++ (tr ∷ []);
      },
      some tr,
    )

-- The snapshot that stands in where the tracker has seen nothing.
abbrev empty_snapshot : ℤ → EquitySnapshot
empty_snapshot ts = record {
  ts_ns = ts;
  equity = d0;
  peak = d0;
  drawdown = d0;
  day_start_ns = pos 0;
  equity_day_open = d0;
  pnl_day = d0;
}

unfoldable pub release_transition :
    RiskStateMachine → Option ℤ → Option String → RiskStateMachine × Option Transition
release_transition m clock actor =
    let (tracker', snap) = Tracker.rebase m.tracker in
    apply_event (record m { tracker = tracker' }) clock RiskEvent.admin_release
      (Tracker.or_else snap (empty_snapshot m.last_ts)) m.last_vol actor

-- The bookkeeping of `update` before the event is classified.
abbrev pub seen : RiskStateMachine → RiskObservation → EquityTracker → RiskStateMachine
seen m obs t = record m {
  tracker = t;
  last_ts = obs.ts_ns;
  last_vol = obs.vol_ratio;
  dwell = m.dwell + 1;
}

-- `update` after the tracker: a latch that was released by hand brings the machine back first.
unfoldable pub react :
    RiskStateMachine
    → Option ℤ
    → EquitySnapshot
    → Option Float
    → RiskStateMachine × Option Transition
react m clock s vol =
    if same_state m.state RiskState.halted && not m.killswitch.tripped
    then release_transition m clock (some "kill_switch")
    else apply_event m clock (classify m.cfg m.killswitch.tripped s vol m.state m.dwell) s vol none

unfoldable pub update :
    RiskStateMachine → Option ℤ → RiskObservation → Result (RiskStateMachine × Option Transition)
update m clock obs = do
  r ← Tracker.update m.tracker obs.ts_ns obs.equity
  ok (react (seen m obs r.0) clock r.1 obs.vol_ratio)

abbrev pub state_text : RiskState → String
state_text RiskState.normal = "NORMAL"
state_text RiskState.warning = "WARNING"
state_text RiskState.cooldown = "COOLDOWN"
state_text RiskState.halted = "HALTED"

-- `None if snap is None else ...`
abbrev snap_value : (EquitySnapshot → Decimal) → Option EquitySnapshot → Value
snap_value f none = Value.null
snap_value f (some s) = Value.decimal (f s)

-- `_audit_state`
unfoldable pub audit_state : RiskStateMachine → Result Fields
unfolding kappa_mode
audit_state m = do
  k ← kappa_mode m
  ok (
      Fields.field "state" (Value.text (state_text m.state)) (
        Fields.field "kappa_mode" (Value.decimal k) (
          Fields.field "dwell_bars" (Value.int (pos m.dwell)) (
            Fields.field "peak" (snap_value (λ s. s.peak) m.tracker.snap) (
              Fields.field "drawdown" (snap_value (λ s. s.drawdown) m.tracker.snap) (
                Fields.field "killswitch" (Value.obj (KillSwitch.state m.killswitch))
                  Fields.end))))))

-- `actor or str(actor_role)`, where the role is the administrator's.
abbrev pub actor_or_role : Option String → Option String
actor_or_role none = some "admin"
actor_or_role (some a) = if str_eq a "" then some "admin" else some a

-- `self._clock.now_ns() if self._clock is not None else self._last_ts`
abbrev pub clock_or_last : Option ℤ → ℤ → ℤ
clock_or_last none last = last
clock_or_last (some t) last = t

abbrev pub audit_list : Option AuditRecord → List AuditRecord
audit_list none = []
audit_list (some a) = a ∷ []

abbrev pub machine_record : ℤ → Role → Option String → Fields → Fields → AuditRecord
machine_record ts role actor before after = record {
  ts_ns = ts;
  action = "risk.release";
  target = "risk_state";
  actor_role = role;
  actor = actor;
  before = before;
  after = after;
}

-- What a release returns: the machine, the transition, and the audit records in the order of writing.
abbrev pub Released : Type 0
Released = RiskStateMachine × Option Transition × List AuditRecord

-- Outside HALTED only a latch that was tripped ahead of the machine is opened.
unfoldable pub release_pending :
    RiskStateMachine → Option ℤ → Role → Option String → Result Released
release_pending m clock role actor = do
  r ← KillSwitch.release m.killswitch clock role actor (some (clock_or_last clock m.last_ts))
  ok (
      if m.killswitch.tripped
      then (record m { killswitch = r.0 }, none, audit_list r.1)
      else (m, none, []))

-- In HALTED the latch is opened, the tracker rebased, and the machine steps to COOLDOWN. The audit sink
-- is attached.
unfoldable pub release_halted : RiskStateMachine → Option ℤ → Role → Option String → Result Released
release_halted m clock role actor = do
  before ← audit_state m
  let ts = clock_or_last clock m.last_ts
  r ← KillSwitch.release m.killswitch clock role actor (some ts)
  let (m', tr) = release_transition (record m { killswitch = r.0 }) clock (actor_or_role actor)
  after ← audit_state m'
  ok (m', tr, audit_list r.1 ++ (machine_record ts role actor before after ∷ []))

unfoldable pub release : RiskStateMachine → Option ℤ → Role → Option String → Result Released
release m clock role actor = do
  raise_if (not (is_admin role)) permission_denied
  if same_state m.state RiskState.halted
      then release_halted m clock role actor
      else release_pending m clock role actor

-- Every bar of a run, in order; the run stops at an exception.
unfoldable pub run : RiskStateMachine → Option ℤ → List RiskObservation → Result RiskStateMachine
run m clock [] = ok m
run m clock (obs ∷ rest) = update m clock obs >>= λ r. run r.0 clock rest
