-- ===== src/Risk/Examples.antt =====
-- Concrete runs of the risk circuit, with the values of config/risk_limits.yaml.
use fuzz_helm.Base.{
  ℕ, ◌≡◌, refl, inl, inr, true, false, Option, none, some, List, [], ◌∷◌, map, ok, got, got-eq,
  IsOk, All,
}
use fuzz_helm.Base.Int.{pos}
use fuzz_helm.Decimal
use fuzz_helm.Decimal.{Decimal, d0, d1}
use fuzz_helm.Core.Enums.{RiskState, VerdictKind}
use fuzz_helm.Core.Float.{Float}
use fuzz_helm.Risk.Config.{StateMachineCfg, CooldownPolicy}
use fuzz_helm.Risk.Context.{Request, RiskContext, context, split, is_flip}
use fuzz_helm.Risk.Guard.{RiskGuard, GuardResult, evaluate, is_tripped}
use fuzz_helm.Risk.Guard.Approval.{
  evaluate-closes, evaluate-Limits, evaluate-reduction, evaluate-trips, Signals,
}
use fuzz_helm.Risk.Guard.Journal.{evaluate-journals, Checked, Extends}
use fuzz_helm.Risk.Rules.Laws.{IsReduction}
use fuzz_helm.Risk.Verdict.{Verdict, allow, veto, compose, exposure, fits}
use fuzz_helm.Risk.Verdict.Compose.{IsValid, compose-ok, compose-perm}
use fuzz_helm.Risk.Verdict.Bound.{Limits, compose-Limits}
use mathlib.Core.List.{Permᴰ}
use fuzz_helm.Risk.Journal
use fuzz_helm.Risk.KillSwitch
use fuzz_helm.Risk.Rules.{Rule, check, check_stale, check_mode}

-- c / 10^s
abbrev pub dec : ℕ → ℕ → Decimal
dec c s = record { coef = pos c; scale = s }

abbrev kappa : RiskState → Option Decimal
kappa RiskState.normal = some (dec 10 1)
kappa RiskState.warning = some (dec 5 1)
kappa RiskState.cooldown = some (dec 25 2)
kappa RiskState.halted = some (dec 0 1)

abbrev pub cfg : StateMachineCfg
cfg = record {
  warn_enter = dec 4 2;
  warn_exit = dec 25 3;
  warn_dwell = 15;
  warn_vol_ratio = Float.finite (dec 16 1);
  cool_enter = dec 8 2;
  cool_exit = dec 5 2;
  cool_dwell = 30;
  cool_daily_loss = dec 2 2;
  halt_enter = dec 12 2;
  halt_daily_loss = dec 3 2;
  kappa_mode = kappa;
  cooldown_policy = CooldownPolicy.scaled_entries;
}

-- A long entry of 2 at the price 100, with a capital of 10000.
abbrev entry : Request
entry = record {
  ts_ns = pos 1000000000;
  instrument = "BTCUSDT";
  price = dec 100 0;
  equity = dec 10000 0;
  current_qty = dec 0 0;
  target_qty = dec 2 0;
  atr = dec 1 0;
  stop_distance = dec 2 0;
  drawdown = dec 1 2;
  pnl_day = dec 0 0;
  equity_day_open = none;
  day_start_ns = none;
  gross_notional_other = dec 0 0;
  mmr = dec 4 3;
  maint_amount = dec 0 0;
  leverage_setting = dec 3 0;
  last_data_ns = none;
  dq_score = dec 1 0;
  risk_state = RiskState.normal;
  step_size = none;
}

abbrev of_request : Request → Decimal → Decimal → Decimal → RiskContext
of_request r base increase post = record {
  request = r;
  base_qty = base;
  increase_qty = increase;
  post_qty = post;
}

abbrev entry_context : RiskContext
entry_context = of_request entry (dec 0 0) (dec 2 0) (dec 2 0)

abbrev stale : Rule
stale = Rule.stale_data (dec 50 1) (dec 90 2)

-- A chain with a rule on the drawdown, which halts at 12 percent, and the mode gate.
abbrev guard_of : List Rule → RiskGuard
guard_of rules = record {
  rules = rules;
  journal = Journal.empty;
  killswitch = some KillSwitch.fresh;
}

abbrev short_chain : RiskGuard
short_chain =
    guard_of (
      stale ∷ Rule.max_drawdown_halt (dec 12 2) ∷ Rule.risk_mode CooldownPolicy.scaled_entries ∷ [])

-- The constructor gives the context.
entry_test : context entry ≡ ok entry_context
unfolding context split is_flip Decimal.le Decimal.abs Decimal.sub
entry_test = refl

abbrev halted_context : RiskContext
halted_context =
    of_request (record entry { risk_state = RiskState.halted }) (dec 0 0) (dec 2 0) (dec 2 0)

closed_ok : IsOk (evaluate short_chain none halted_context).0
unfolding evaluate check compose check_stale Decimal.le fuzz_helm.Risk.Context.dec_ns_to_s
    Decimal.quotient fuzz_helm.Risk.Context.lag_ns fuzz_helm.Risk.Rules.check_drawdown check_mode
    exposure
closed_ok = tt

abbrev closed : GuardResult
closed = got (evaluate short_chain none halted_context).0 closed_ok

closed_in_halted : closed.flatten_all ≡ true
unfolding evaluate check compose check_stale Decimal.le fuzz_helm.Risk.Context.dec_ns_to_s
    Decimal.quotient fuzz_helm.Risk.Context.lag_ns fuzz_helm.Risk.Rules.check_drawdown check_mode
    exposure
closed_in_halted = refl

-- The same request in NORMAL, with the bound on the notional and on the leverage.
abbrev long_chain : RiskGuard
long_chain =
    guard_of
      (stale ∷ Rule.max_position_notional (dec 30 2) ∷ Rule.max_gross_leverage (dec 1 2) ∷ [])

entered_ok : IsOk (evaluate long_chain none entry_context).0
unfolding evaluate check fuzz_helm.Risk.Rules.check_notional Decimal.le
    fuzz_helm.Risk.Context.cap_increase Decimal.quotient Decimal.mul
    fuzz_helm.Risk.Rules.check_leverage Decimal.sub fuzz_helm.Risk.Verdict.shrink fits compose
    check_stale fuzz_helm.Risk.Context.dec_ns_to_s fuzz_helm.Risk.Context.lag_ns exposure
entered_ok = tt

abbrev entered : GuardResult
entered = got (evaluate long_chain none entry_context).0 entered_ok

entered_flatten : entered.flatten_all ≡ false
unfolding evaluate check fuzz_helm.Risk.Rules.check_notional Decimal.le
    fuzz_helm.Risk.Context.cap_increase Decimal.quotient Decimal.mul
    fuzz_helm.Risk.Rules.check_leverage Decimal.sub fuzz_helm.Risk.Verdict.shrink fits compose
    check_stale fuzz_helm.Risk.Context.dec_ns_to_s fuzz_helm.Risk.Context.lag_ns exposure
entered_flatten = refl

evaluate-Limits_example :
    (Decimal.le entered.increase_approved (dec 2 0) ≡ true)
    × Limits entered.increase_approved (dec 2 0) (map (λ r. r.verdict) entered.records)
evaluate-Limits_example =
    evaluate-Limits long_chain none entry_context refl (got-eq _ entered_ok) entered_flatten

evaluate-journals_example :
    Checked false entry_context long_chain.rules entered.records
    × Extends entry_context Journal.empty entered.records
        (evaluate long_chain none entry_context).1.journal
evaluate-journals_example =
    evaluate-journals long_chain none entry_context refl (got-eq _ entered_ok)

-- A close of a position of 2.
abbrev close : RiskContext
close =
    of_request (record entry { current_qty = dec 2 0; target_qty = dec 0 0; drawdown = dec 13 2 })
      (dec 0 0) (dec 0 0) (dec 0 0)

left_ok : IsOk (evaluate short_chain none close).0
unfolding evaluate check compose check_stale Decimal.le fuzz_helm.Risk.Context.dec_ns_to_s
    Decimal.quotient fuzz_helm.Risk.Context.lag_ns fuzz_helm.Risk.Rules.check_drawdown check_mode
    exposure
left_ok = tt

abbrev left : GuardResult
left = got (evaluate short_chain none close).0 left_ok

close_reduces : IsReduction close
unfolding Decimal.le
close_reduces = refl

-- The rule on the drawdown signals a halt.
close-Signals : Signals short_chain close
unfolding check fuzz_helm.Risk.Rules.check_drawdown Decimal.le
close-Signals = (Rule.max_drawdown_halt (dec 12 2), _, inr (inl refl), refl, refl)

evaluate-reduction_example : left.verdict ≡ allow
evaluate-reduction_example =
    evaluate-reduction short_chain none close close_reduces (got-eq _ left_ok)

-- Everything is closed, because of the signal alone.
evaluate-closes_example :
    (left.approved_qty ≡ d0) × (left.increase_approved ≡ d0) × (left.flatten_all ≡ true)
evaluate-closes_example =
    evaluate-closes short_chain none close (got-eq _ left_ok) (inr (inr close-Signals))

evaluate-trips_example :
    (is_tripped (evaluate short_chain none close).1.killswitch ≡ true) × (left.halt ≡ true)
evaluate-trips_example = evaluate-trips short_chain none close (got-eq _ left_ok) refl close-Signals

-- The rules one by one.
stale_checked :
    check stale false entry_context ≡ ok (check_stale (dec 50 1) (dec 90 2) entry_context)
unfolding check
stale_checked = refl

entry_increases : Decimal.lt d0 entry_context.increase_qty ≡ true
unfolding Decimal.le
entry_increases = refl

abbrev more : RiskContext
more =
    of_request (record entry { current_qty = dec 1 0; risk_state = RiskState.cooldown }) (dec 1 0)
      (dec 1 0) (dec 2 0)

more_increases : Decimal.lt d0 more.increase_qty ≡ true
unfolding Decimal.le
more_increases = refl

more_present : Decimal.eq more.base_qty d0 ≡ false
unfolding Decimal.le
more_present = refl

more_refused : (check_mode CooldownPolicy.scaled_entries false more).verdict ≡ veto
unfolding check_mode Decimal.le
more_refused = refl

-- Verdicts.
abbrev half : Verdict
half = record { kind = VerdictKind.shrink; factor = record { num = 1; den = 2 } }

abbrev third : Verdict
third = record { kind = VerdictKind.shrink; factor = record { num = 1; den = 3 } }

two-IsValid : All IsValid (half ∷ third ∷ [])
unfolding fits
two-IsValid = (refl, (refl, tt))

composed_ok : IsOk (compose (half ∷ third ∷ []))
unfolding compose fuzz_helm.Risk.Verdict.make fits
composed_ok = tt

abbrev composed : Verdict
composed = got (compose (half ∷ third ∷ [])) composed_ok

exposed_ok : IsOk (exposure composed (dec 12 0))
unfolding exposure Decimal.le
exposed_ok = tt

compose-Limits_example :
    (Decimal.le (got (exposure composed (dec 12 0)) exposed_ok) (dec 12 0) ≡ true)
    × Limits (got (exposure composed (dec 12 0)) exposed_ok) (dec 12 0) (half ∷ third ∷ [])
compose-Limits_example =
    compose-Limits (half ∷ third ∷ []) (dec 12 0) two-IsValid (got-eq _ composed_ok)
      (got-eq _ exposed_ok)

compose-perm_example : compose (half ∷ third ∷ []) ≡ compose (third ∷ half ∷ [])
compose-perm_example =
    compose-perm (half ∷ third ∷ []) (third ∷ half ∷ []) ∣ Permᴰ.swap refl refl ∣₁

compose-ok_example : (r : Verdict) × (compose (half ∷ third ∷ []) ≡ ok r) × IsValid r
compose-ok_example = compose-ok (half ∷ third ∷ []) two-IsValid
