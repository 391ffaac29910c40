-- ===== src/Risk/Guard/Defs.antt =====
-- `RiskGuard` and `default_rules` of risk/guard.py, and the constructors of the rules. `clock` is the
-- reading of the clock of the kill switch, which the mode gate and the guard share.
use fuzz_helm.Base.{
  Bool, false, not, ◌&&◌, ◌||◌, Option, none, some, String, List, [], ◌∷◌, ◌++◌, map, Result, ok,
  err, ◌>>=◌, ◌>>◌, raise_if, value_error, if◌then◌else◌,
}
use text.Mathlib.Text.{◌==◌ as str_eq}
use fuzz_helm.Base.Int.{ℤ}
use fuzz_helm.Decimal
use fuzz_helm.Decimal.{Decimal, d0, d1, floor_qty}
use fuzz_helm.Core.Enums.{RiskState, same_state}
use fuzz_helm.Risk.Config.{LimitsCfg, CooldownPolicy}
use fuzz_helm.Risk.Context.{RiskContext, target_side}
use fuzz_helm.Risk.Journal.{RiskJournal, record_rule}
use fuzz_helm.Risk.KillSwitch
use fuzz_helm.Risk.KillSwitch.{KillSwitch}
use fuzz_helm.Risk.Rules.{Rule, check, name}
use fuzz_helm.Risk.Verdict.{Verdict, RuleVerdict, compose, exposure}

-- The constructors of the six rules.
unfoldable pub stale_data : Decimal → Decimal → Result Rule
stale_data lag dq = do
  raise_if (Decimal.le lag d0 || not (Decimal.le d0 dq && Decimal.le dq d1)) value_error
  ok (Rule.stale_data lag dq)

unfoldable pub max_position_notional : Decimal → Result Rule
max_position_notional x = do
  raise_if (not (Decimal.lt d0 x && Decimal.le x d1)) value_error
  ok (Rule.max_position_notional x)

unfoldable pub max_gross_leverage : Decimal → Result Rule
max_gross_leverage x = do raise_if (Decimal.le x d0) value_error; ok (Rule.max_gross_leverage x)

unfoldable pub max_daily_loss : Decimal → Result Rule
max_daily_loss x = do
  raise_if (not (Decimal.lt d0 x && Decimal.lt x d1)) value_error
  ok (Rule.max_daily_loss (Decimal.neg x))

unfoldable pub max_drawdown_halt : Decimal → Result Rule
max_drawdown_halt x = do
  raise_if (not (Decimal.lt d0 x && Decimal.lt x d1)) value_error
  ok (Rule.max_drawdown_halt x)

unfoldable pub liquidation_buffer : Decimal → Decimal → Result Rule
liquidation_buffer k b = do
  raise_if (Decimal.le k d0 || not (Decimal.le d0 b && Decimal.lt b d1)) value_error
  ok (Rule.liquidation_buffer k b)

-- `default_rules(cfg)`
unfoldable pub default_rules : LimitsCfg → Result (List Rule)
unfolding stale_data max_position_notional max_gross_leverage max_daily_loss max_drawdown_halt
    liquidation_buffer
default_rules lim = do
  a ← stale_data lim.max_lag_s lim.min_dq
  b ← max_position_notional lim.max_position_notional
  c ← max_gross_leverage lim.max_gross_leverage
  d ← max_daily_loss lim.max_daily_loss
  e ← max_drawdown_halt lim.max_drawdown_halt
  f ← liquidation_buffer lim.min_dtl_atr lim.b
  ok (a ∷ b ∷ c ∷ d ∷ e ∷ f ∷ [])

pub record RiskGuard : Type 0 where
  pub rules : List Rule
  pub journal : RiskJournal
  pub killswitch : Option KillSwitch

unfoldable pub has_name : String → List Rule → Bool
has_name x [] = false
has_name x (r ∷ rs) = str_eq (name r) x || has_name x rs

-- `len(set(names)) != len(names)`
unfoldable pub has_duplicates : List Rule → Bool
unfolding has_name
has_duplicates [] = false
has_duplicates (r ∷ rs) = has_name (name r) rs || has_duplicates rs

-- `RiskGuard(rules, journal, killswitch=..., mode_gate=..., cooldown_policy=...)`
unfoldable pub guard :
    List Rule → RiskJournal → Option KillSwitch → Bool → CooldownPolicy → Result RiskGuard
unfolding has_duplicates
guard rules j k mode_gate policy = do
  raise_if (has_duplicates rules) value_error
  ok (record {
    rules = if mode_gate then rules ++ (Rule.risk_mode policy ∷ []) else rules;
    journal = j;
    killswitch = k;
  })

-- `self.killswitch is not None and self.killswitch.is_tripped`
abbrev pub is_tripped : Option KillSwitch → Bool
is_tripped none = false
is_tripped (some k) = k.tripped

-- The loop over the rules: the journal keeps what was written before a rule raised.
unfoldable pub run_rules :
    List Rule → Bool → RiskContext → RiskJournal → Result (List RuleVerdict) × RiskJournal
run_rules [] tripped c j = (ok [], j)
run_rules (rule ∷ rules) tripped c j = elim (check rule tripped c) [
  | err e ↦ (err e, j)
  | ok rv ↦
      let (rest, after) =
        run_rules rules tripped c (record_rule c.ts_ns (some c.instrument) rv j) in
      (rest >>= λ rvs. ok (rv ∷ rvs), after)
]

-- `any(r.halt for r in records)`
unfoldable pub any_halt : List RuleVerdict → Bool
any_halt [] = false
any_halt (r ∷ rs) = r.halt || any_halt rs

pub record GuardResult : Type 0 where
  pub verdict : Verdict
  pub records : List RuleVerdict
  pub approved_qty : Decimal
  pub requested_qty : Decimal
  pub current_qty : Decimal
  pub increase_requested : Decimal
  pub increase_approved : Decimal
  pub flatten_all : Bool
  pub halt : Bool

unfoldable pub order_qty : GuardResult → Decimal
order_qty r = Decimal.sub r.approved_qty r.current_qty

unfoldable pub floor_to_step : Option Decimal → Decimal → Result Decimal
floor_to_step none x = ok x
floor_to_step (some step) x = floor_qty x step

-- The kill switch is tripped by a halt.
unfoldable pub trip_on : Bool → ℤ → Option ℤ → Option KillSwitch → Option KillSwitch
trip_on halt ts clock none = none
trip_on halt ts clock (some k) =
    some (if halt then (KillSwitch.trip k clock "max_drawdown_halt" (some ts)).0 else k)

-- The signed target that remains: `0` instead of `-0`.
unfoldable pub target_of : RiskContext → Decimal → Decimal
target_of c inc =
    let approved =
      Decimal.mul (Decimal.add c.base_qty inc) (Decimal.of_int (target_side c.request)) in
    if Decimal.eq approved d0 then d0 else approved

-- What follows the loop, on the verdicts of the rules and the state of the switch.
unfoldable pub decide : RiskContext → Option KillSwitch → List RuleVerdict → Result GuardResult
unfolding any_halt floor_to_step target_of
decide c k rvs = do
  verdict ← compose (map (λ r. r.verdict) rvs)
  allowed ← exposure verdict c.increase_qty
  inc ← floor_to_step c.step_size allowed
  let halt = any_halt rvs
  let flatten = halt || (is_tripped k || same_state c.risk_state RiskState.halted)
  ok (record {
    verdict = verdict;
    records = rvs;
    approved_qty = if flatten then d0 else target_of c inc;
    requested_qty = c.target_qty;
    current_qty = c.current_qty;
    increase_requested = c.increase_qty;
    increase_approved = if flatten then d0 else inc;
    flatten_all = flatten;
    halt = halt;
  })

-- `evaluate`: a result, or what a rule raised, and the guard after the call.
unfoldable pub evaluate : RiskGuard → Option ℤ → RiskContext → Result GuardResult × RiskGuard
unfolding run_rules decide trip_on
evaluate g clock c =
    let (run, j) = run_rules g.rules (is_tripped g.killswitch) c g.journal in
    elim run [
      | err e ↦ (err e, record g { journal = j })
      | ok rvs ↦ elim (decide c g.killswitch rvs) [
        | err e ↦ (err e, record g { journal = j })
        | ok r ↦
            (ok r, record g { journal = j; killswitch = trip_on r.halt c.ts_ns clock g.killswitch })
      ]
    ]
