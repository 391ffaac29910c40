-- ===== src/Risk/Rules/Defs.antt =====
-- The rules of risk/rules/ and `RiskModeGate` of risk/guard.py: one constructor for each class.
use fuzz_helm.Base.{
  ℕ, Bool, true, false, not, ◌&&◌, ◌||◌, ltb, leb, Option, none, some, String, Result, ok, ◌>>=◌,
  if◌then◌else◌,
}
use fuzz_helm.Base.Int.{ℤ, pos, eqb_ℤ, ltb_ℤ}
use fuzz_helm.Decimal
use fuzz_helm.Decimal.{Decimal, d0, d1}
use fuzz_helm.Core.Enums.{RiskState, Side, same_state}
use fuzz_helm.Core.Clock.{utc_day_start_ns}
use fuzz_helm.Core.Value.{Value, Fields, with_field}
use fuzz_helm.Risk.Config.{CooldownPolicy}
use fuzz_helm.Risk.State.{severity, state_text}
use fuzz_helm.Risk.Verdict.{Verdict, RuleVerdict, allow, veto}
use fuzz_helm.Risk.Context.{
  RiskContext, target_side, post_notional, lag_ns, effective_day_open, cap_increase, ratio,
  dec_ns_to_s,
}
use fuzz_helm.Risk.Margin.{side_liq_price, signed_dtl_atr, reduced_max_leverage, max_qty_for_dtl}

pub data Rule : Type 0 where
  stale_data : Decimal → Decimal → Rule
  max_position_notional max_gross_leverage max_daily_loss max_drawdown_halt : Decimal → Rule
  liquidation_buffer : Decimal → Decimal → Rule
  risk_mode : CooldownPolicy → Rule

abbrev pub name : Rule → String
name (Rule.stale_data lag dq) = "stale_data"
name (Rule.max_position_notional x) = "max_position_notional"
name (Rule.max_gross_leverage x) = "max_gross_leverage"
name (Rule.max_daily_loss x) = "max_daily_loss"
name (Rule.max_drawdown_halt x) = "max_drawdown_halt"
name (Rule.liquidation_buffer k b) = "liquidation_buffer"
name (Rule.risk_mode p) = "risk_mode"

-- `VETO if test and ctx.increase_qty > 0 else ALLOW`
abbrev veto_if : Bool → RiskContext → Verdict
veto_if test c = if test && Decimal.lt d0 c.increase_qty then veto else allow

abbrev decided : String → Verdict → Option Decimal → Option Decimal → Fields → Bool → RuleVerdict
decided rule v observed limit payload halt = record {
  rule = rule;
  verdict = v;
  observed = observed;
  limit = limit;
  payload = payload;
  halt = halt;
}

-- `StaleDataGuard.check`
unfoldable pub check_stale : Decimal → Decimal → RiskContext → RuleVerdict
check_stale max_lag min_dq c =
    let lag = dec_ns_to_s (lag_ns c) in
    let lag_bad = Decimal.lt max_lag lag in
    let dq_bad = Decimal.lt c.dq_score min_dq in
    let by_dq = dq_bad && not lag_bad in
    decided "stale_data" (veto_if (lag_bad || dq_bad) c) (some (if by_dq then c.dq_score else lag))
      (some (if by_dq then min_dq else max_lag))
      (Fields.field "lag_s" (Value.decimal lag) (
        Fields.field "max_lag_s" (Value.decimal max_lag) (
          Fields.field "dq_score" (Value.decimal c.dq_score) (
            Fields.field "min_dq" (Value.decimal min_dq) (
              Fields.field "lag_breached" (Value.bool lag_bad) (
                Fields.field "dq_breached" (Value.bool dq_bad)
                  (Fields.field "increase_qty" (Value.decimal c.increase_qty) Fields.end)))))))
      false

-- The end of the two capital rules: no capital, else a bound on the position.
abbrev capped :
    String → RiskContext → Option Decimal → Decimal → Fields → Decimal → Result RuleVerdict
capped rule c observed limit payload q_max =
    if Decimal.le c.equity d0
    then ok (
        decided rule (veto_if true c) observed (some limit)
          (with_field "reason" (Value.text "non_positive_equity") payload) false)
    else do
      v ← cap_increase c q_max
      ok (
          decided rule v observed (some limit)
            (with_field "q_max_post" (Value.decimal q_max) payload) false)

-- `MaxPositionNotional.check`: price and leverage are positive in every context.
unfoldable pub check_notional : Decimal → RiskContext → Result RuleVerdict
check_notional limit c =
    let margin = Decimal.quotient (post_notional c) c.leverage_setting in
    capped "max_position_notional" c (ratio margin c.equity) limit
      (Fields.field "interpretation" (Value.text "initial_margin_over_equity") (
        Fields.field "margin_post" (Value.decimal margin) (
          Fields.field "leverage_setting" (Value.decimal c.leverage_setting)
            (Fields.field "increase_qty" (Value.decimal c.increase_qty) Fields.end))))
      (Decimal.quotient (Decimal.mul (Decimal.mul limit c.equity) c.leverage_setting) c.price)

-- `MaxGrossLeverage.check`
unfoldable pub check_leverage : Decimal → RiskContext → Result RuleVerdict
check_leverage limit c =
    let gross = Decimal.add c.gross_notional_other (post_notional c) in
    capped "max_gross_leverage" c (ratio gross c.equity) limit
      (Fields.field "gross_notional_post" (Value.decimal gross) (
        Fields.field "gross_notional_other" (Value.decimal c.gross_notional_other)
          (Fields.field "increase_qty" (Value.decimal c.increase_qty) Fields.end)))
      (Decimal.quotient (Decimal.sub (Decimal.mul limit c.equity) c.gross_notional_other) c.price)

-- `observed is None or observed <= self.limit`
abbrev loss_breached : Option Decimal → Decimal → Bool
loss_breached none limit = true
loss_breached (some x) limit = Decimal.le x limit

-- `ctx.day_start_ns is not None and ctx.day_start_ns != day`
abbrev stale_day : Option ℤ → ℤ → Bool
stale_day none day = false
stale_day (some d) day = not (eqb_ℤ d day)

-- `MaxDailyLoss.check`, with `limit` the negated fraction.
unfoldable pub check_daily_loss : Decimal → RiskContext → RuleVerdict
check_daily_loss limit c =
    let day = utc_day_start_ns c.ts_ns in
    let stale = stale_day c.day_start_ns day in
    let pnl = if stale then d0 else c.pnl_day in
    let e_open = if stale then c.equity else effective_day_open c in
    let observed = ratio pnl e_open in
    let breached = loss_breached observed limit in
    decided "max_daily_loss" (veto_if breached c) observed (some limit)
      (Fields.field "pnl_day" (Value.decimal pnl) (
        Fields.field "equity_day_open" (Value.decimal e_open) (
          Fields.field "day_start_ns" (Value.int day) (
            Fields.field "reset_applied" (Value.bool stale) (
              Fields.field "breached" (Value.bool breached)
                (Fields.field "increase_qty" (Value.decimal c.increase_qty) Fields.end))))))
      false

-- `MaxDrawdownHalt.check`: the only rule that signals a halt.
unfoldable pub check_drawdown : Decimal → RiskContext → RuleVerdict
check_drawdown limit c =
    let breached = Decimal.le limit c.drawdown in
    decided "max_drawdown_halt" (veto_if breached c) (some c.drawdown) (some limit)
      (Fields.field "breached" (Value.bool breached)
        (Fields.field "increase_qty" (Value.decimal c.increase_qty) Fields.end))
      breached

abbrev side_of : RiskContext → Side
side_of c = if ltb_ℤ (pos 0) (target_side c.request) then Side.long else Side.short

abbrev pub is_long : Side → Bool
is_long Side.long = true
is_long _ = false

-- The repair of `LiquidationBufferGuard.check`: the increase is cut to the tighter of two positions.
unfoldable pub check_repair :
    Decimal → Decimal → RiskContext → Side → Decimal → Decimal → Fields → Result RuleVerdict
check_repair limit b c side wallet dtl payload = do
  l_red ← reduced_max_leverage c.stop_distance c.price c.mmr b
  q_dtl ← max_qty_for_dtl side wallet c.price c.atr limit c.mmr c.maint_amount
  let q_red = Decimal.quotient (Decimal.mul l_red wallet) c.price
  let q_cap = Decimal.min q_red q_dtl
  let binding = if Decimal.le q_red q_dtl then "reduced_max_leverage" else "dtl_limit"
  v ← cap_increase c q_cap
  ok (
      decided "liquidation_buffer" v (some dtl) (some limit)
        (with_field "cap_binding" (Value.text binding) (
          with_field "leverage_cap"
            (Value.decimal (Decimal.quotient (Decimal.mul q_cap c.price) wallet))
            (with_field "q_cap_post" (Value.decimal q_cap) (
              with_field "dtl_max_leverage"
                (Value.decimal (Decimal.quotient (Decimal.mul q_dtl c.price) wallet))
                (with_field "reduced_max_leverage" (Value.decimal l_red) payload)))))
        false)

-- The signed distance decides whether anything has to be repaired.
unfoldable pub check_signed :
    Decimal → Decimal → RiskContext → Side → Decimal → Decimal → Fields → Result RuleVerdict
unfolding check_repair
check_signed limit b c side wallet p_liq seen = do
  dtl ← signed_dtl_atr side c.price p_liq c.atr
  if Decimal.le limit dtl
      then ok (decided "liquidation_buffer" allow (some dtl) (some limit) seen false)
      else check_repair limit b c side wallet dtl seen

-- `check` of the same class on a position and a positive wallet.
unfoldable pub check_distance :
    Decimal → Decimal → RiskContext → Side → Decimal → Fields → Result RuleVerdict
unfolding check_signed
check_distance limit b c side wallet payload = do
  p_liq ← side_liq_price side c.post_qty c.price wallet c.mmr c.maint_amount
  let seen =
      with_field "leverage_post" (Value.decimal (Decimal.quotient (post_notional c) wallet)) (
        with_field "wallet" (Value.decimal wallet)
          (with_field "liq_price" (Value.decimal p_liq) payload))
  if is_long side && Decimal.le p_liq d0
      then ok (
          decided "liquidation_buffer" allow none (some limit)
            (with_field "reason" (Value.text "liquidation_unreachable") seen) false)
      else check_signed limit b c side wallet p_liq seen

-- `LiquidationBufferGuard.check`
unfoldable pub check_liquidation : Decimal → Decimal → RiskContext → Result RuleVerdict
unfolding check_distance
check_liquidation limit b c =
    let payload =
      Fields.field "increase_qty" (Value.decimal c.increase_qty)
        (Fields.field "b" (Value.decimal b) Fields.end) in
    let wallet = Decimal.sub c.equity (Decimal.mul c.gross_notional_other c.mmr) in
    let no_wallet = Decimal.le wallet d0 in
    let reason = if no_wallet then "non_positive_wallet" else "atr_unavailable" in
    if Decimal.eq c.post_qty d0
    then ok (
        decided "liquidation_buffer" allow none (some limit)
          (with_field "reason" (Value.text "no_position_after_order") payload) false)
    else if no_wallet || Decimal.le c.atr d0
    then ok (
        decided "liquidation_buffer" (veto_if true c) none (some limit)
          (with_field "reason" (Value.text reason) payload) false)
    else check_distance limit b c (side_of c) wallet payload

abbrev is_scaled : CooldownPolicy → Bool
is_scaled CooldownPolicy.scaled_entries = true
is_scaled CooldownPolicy.reduce_only = false

abbrev policy_text : CooldownPolicy → String
policy_text CooldownPolicy.scaled_entries = "scaled_entries"
policy_text CooldownPolicy.reduce_only = "reduce_only"

-- `RiskModeGate.check`; `tripped` is the state of the kill switch, false where there is none.
unfoldable pub gate_state : Bool → RiskContext → RiskState
gate_state tripped c = if tripped then RiskState.halted else c.risk_state

unfoldable pub gate_limit : CooldownPolicy → RiskContext → ℕ
gate_limit policy c =
    if is_scaled policy && (Decimal.lt d0 c.increase_qty && Decimal.eq c.base_qty d0) then 2 else 1

unfoldable pub check_mode : CooldownPolicy → Bool → RiskContext → RuleVerdict
unfolding gate_state gate_limit
check_mode policy tripped c =
    let level = severity (gate_state tripped c) in
    let limit = gate_limit policy c in
    let new_entry = Decimal.lt d0 c.increase_qty && Decimal.eq c.base_qty d0 in
    decided "risk_mode" (veto_if (ltb limit level) c) (some (Decimal.of_int (pos level)))
      (some (Decimal.of_int (pos limit)))
      (Fields.field "state" (Value.text (state_text c.risk_state)) (
        Fields.field "kill_switch" (Value.bool tripped) (
          Fields.field "cooldown_policy" (Value.text (policy_text policy)) (
            Fields.field "new_entry" (Value.bool new_entry) (
              Fields.field "reduce_only" (Value.bool (ltb 1 level)) (
                Fields.field "entries_allowed"
                  (Value.bool (leb level (if is_scaled policy then 2 else 1)))
                  (Fields.field "flatten_all"
                    (Value.bool (same_state (gate_state tripped c) RiskState.halted))
                    (Fields.field "increase_qty" (Value.decimal c.increase_qty) Fields.end))))))))
      false

-- `rule.check(ctx)`
unfoldable pub check : Rule → Bool → RiskContext → Result RuleVerdict
check (Rule.stale_data lag dq) tripped c = ok (check_stale lag dq c)
check (Rule.max_position_notional x) tripped c = check_notional x c
check (Rule.max_gross_leverage x) tripped c = check_leverage x c
check (Rule.max_daily_loss x) tripped c = ok (check_daily_loss x c)
check (Rule.max_drawdown_halt x) tripped c = ok (check_drawdown x c)
check (Rule.liquidation_buffer k b) tripped c = check_liquidation k b c
check (Rule.risk_mode p) tripped c = ok (check_mode p tripped c)
