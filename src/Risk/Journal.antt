-- ===== src/Risk/Journal.antt =====
-- risk/journal.py: the rows of the table risk_event, and the journal that collects them. What the sink and
-- the event journal were given is kept as a list; they are absent where the code has None.
use fuzz_helm.Base.{
  Result, ok, err, ◌>>=◌, value_error, ℕ, ◌+◌, Bool, true, false, ◌||◌, Option, none, some, String,
  List, [], ◌∷◌, ◌++◌, if◌then◌else◌,
}
use text.Mathlib.Text.{◌==◌ as str_eq}
use fuzz_helm.Base.Int.{ℤ}
use fuzz_helm.Decimal.{Decimal}
use fuzz_helm.Core.Enums.{RiskState, VerdictKind}
use fuzz_helm.Core.Value.{Value, Fields, with_field}
use fuzz_helm.Core.Float.{Float}
use fuzz_helm.Risk.State.{RiskEvent, Transition}
use fuzz_helm.Risk.Verdict.{RuleVerdict, factor_dec}

pub record RiskEventRecord : Type 0 where
  pub ts_ns : ℤ
  pub rule : String
  pub verdict : Option VerdictKind
  pub factor : Option Decimal
  pub observed : Option Decimal
  pub limit_value : Option Decimal
  pub instrument : Option String
  pub state_from : Option RiskState
  pub state_to : Option RiskState
  pub dwell_bars : Option ℕ
  pub actor : Option String
  pub payload : Fields
  pub run_id : Option String

pub record RiskJournal : Type 0 where
  pub run_id : Option String
  pub sink : Option (List RiskEventRecord)
  pub events : Option (List RiskEventRecord)
  pub keep : Bool
  pub count : ℕ
  pub records : List RiskEventRecord

-- `RiskJournal()`
abbrev pub empty : RiskJournal
empty = record { run_id = none; sink = none; events = none; keep = true; count = 0; records = [] }

-- A call of the sink, or of `EventJournal.append`.
abbrev pub deliver : RiskEventRecord → Option (List RiskEventRecord) → Option (List RiskEventRecord)
deliver r none = none
deliver r (some rs) = some (rs ++ (r ∷ []))

unfoldable pub append : RiskEventRecord → RiskJournal → RiskJournal
append r j = record j {
  count = j.count + 1;
  records = if j.keep then j.records ++ (r ∷ []) else j.records;
  sink = deliver r j.sink;
  events = deliver r j.events;
}

abbrev is_given : Option (List RiskEventRecord) → Bool
is_given none = false
is_given (some rs) = true

unfoldable pub has_consumers : RiskJournal → Bool
has_consumers j = j.keep || (is_given j.sink || is_given j.events)

-- The row of one verdict.
abbrev pub rule_record : Option String → ℤ → Option String → RuleVerdict → RiskEventRecord
rule_record run ts instrument rv = record {
  ts_ns = ts;
  rule = rv.rule;
  verdict = some rv.verdict.kind;
  factor = some (factor_dec rv.verdict);
  observed = rv.observed;
  limit_value = rv.limit;
  instrument = instrument;
  state_from = none;
  state_to = none;
  dwell_bars = none;
  actor = none;
  payload = with_field "halt" (Value.bool rv.halt) rv.payload;
  run_id = run;
}

unfoldable pub record_rule : ℤ → Option String → RuleVerdict → RiskJournal → RiskJournal
unfolding append has_consumers
record_rule ts instrument rv j =
    if has_consumers j
    then append (rule_record j.run_id ts instrument rv) j
    else record j { count = j.count + 1 }

unfoldable pub by_rule : String → List RiskEventRecord → List RiskEventRecord
by_rule rule [] = []
by_rule rule (r ∷ rs) = if str_eq r.rule rule then r ∷ by_rule rule rs else by_rule rule rs

abbrev is_veto : Option VerdictKind → Bool
is_veto (some VerdictKind.veto) = true
is_veto _ = false

unfoldable pub vetoes : List RiskEventRecord → List RiskEventRecord
vetoes [] = []
vetoes (r ∷ rs) = if is_veto r.verdict then r ∷ vetoes rs else vetoes rs

abbrev event_text : RiskEvent → String
event_text RiskEvent.halt_breach = "HALT_BREACH"
event_text RiskEvent.cool_breach = "COOL_BREACH"
event_text RiskEvent.warn_breach = "WARN_BREACH"
event_text RiskEvent.recovery = "RECOVERY"
event_text RiskEvent.steady = "STEADY"
event_text RiskEvent.admin_release = "ADMIN_RELEASE"

-- The exact decimal of a ratio: one that is not finite raises.
unfoldable pub vol_value : Option Float → Result Value
vol_value none = ok Value.null
vol_value (some (Float.finite x)) = ok (Value.decimal x)
vol_value (some _) = err value_error

-- `Transition.payload()`
unfoldable pub transition_payload : Transition → Result Fields
unfolding vol_value
transition_payload tr = do
  v ← vol_value tr.vol_ratio
  ok (
      Fields.field "event" (Value.text (event_text tr.event)) (
        Fields.field "drawdown" (Value.decimal tr.drawdown) (
          Fields.field "day_return" (Value.decimal tr.day_ret)
            (Fields.field "vol_ratio" v Fields.end))))

unfoldable pub record_transition : Transition → Option String → RiskJournal → Result RiskJournal
unfolding transition_payload append
record_transition tr instrument j = do
  payload ← transition_payload tr
  ok (
      append
        (record {
          ts_ns = tr.ts_ns;
          rule = "risk_state";
          verdict = none;
          factor = none;
          observed = some tr.drawdown;
          limit_value = none;
          instrument = instrument;
          state_from = some tr.state_from;
          state_to = some tr.state_to;
          dwell_bars = some tr.dwell_bars;
          actor = tr.actor;
          payload = payload;
          run_id = j.run_id;
        })
        j)
