-- ===== src/Risk/Rules/Laws.antt =====
-- What every rule guarantees, whatever it looks at.
use mathlib.Core.Path.{subst}
use fuzz_helm.Base.{
  ◌≤◌, ◌<◌, ◌≡◌, ap, refl, ◌⊎◌, inl, inr, Bool, true, false, ◌&&◌, ◌||◌, Result, ok, err, ◌>>=◌,
  Bool-cases, if◌then◌else◌, arith,
}
use fuzz_helm.Decimal
use fuzz_helm.Decimal.{Decimal, d0}
use fuzz_helm.Core.Enums.{RiskState, Side, VerdictKind}
use fuzz_helm.Core.Value.{Fields}
use fuzz_helm.Risk.Margin.{side_liq_price, signed_dtl_atr, reduced_max_leverage, max_qty_for_dtl}
use fuzz_helm.Risk.State.{severity}
use fuzz_helm.Risk.Config.{CooldownPolicy}
use fuzz_helm.Risk.Verdict.{Fraction, Verdict, RuleVerdict, allow, veto, fits, make, shrink}
use fuzz_helm.Risk.Verdict.Compose.{IsValid}
use fuzz_helm.Risk.Context.{RiskContext, cap_increase}
use fuzz_helm.Risk.Rules.Defs.{
  Rule, check, is_long, check_stale, check_notional, check_leverage, check_daily_loss,
  check_drawdown, check_repair, check_signed, check_distance, check_liquidation, check_mode,
  gate_limit, gate_state,
}

-- A request that does not increase the position.
abbrev pub IsReduction : RiskContext → Type 0
IsReduction c = Decimal.lt d0 c.increase_qty ≡ false

-- A valid verdict, which lets a reduction pass.
pub record IsSound (c : RiskContext) (v : Verdict) : Type 0 where
  pub valid : IsValid v
  pub passes : IsReduction c → v ≡ allow

-- What a call that returns a verdict, or raises, guarantees of it.
abbrev GivesVerdict : RiskContext → Result Verdict → Type 0
GivesVerdict c (ok v) = IsSound c v
GivesVerdict c (err e) = Unit

abbrev pub Gives : RiskContext → Result RuleVerdict → Type 0
Gives c (ok r) = IsSound c r.verdict
Gives c (err e) = Unit

allow-IsSound : (c : RiskContext) → IsSound c allow
unfolding fits
allow-IsSound c = record { valid = refl; passes = λ r. refl }

-- A veto on an increase.
veto_if-IsSound :
    (t : Bool) (c : RiskContext)
    → IsSound c (if t && Decimal.lt d0 c.increase_qty then veto else allow)
unfolding fits
veto_if-IsSound t c = record { valid = ground arith; passes = λ r. ground arith }

if-Gives :
    (t : Bool) (c : RiskContext) (x y : Result RuleVerdict)
    → Gives c x
    → Gives c y
    → Gives c (if t then x else y)
if-Gives true c x y g h = g
if-Gives false c x y g h = h

bind-Gives :
    {A : Type 0} (m : Result A) (c : RiskContext) (f : A → Result RuleVerdict)
    → ((a : A) → Gives c (f a))
    → Gives c (m >>= f)
bind-Gives (ok a) c f g = g a
bind-Gives (err e) c f g = tt

bind-GivesVerdict :
    (m : Result Verdict) (c : RiskContext) (f : Verdict → Result RuleVerdict)
    → GivesVerdict c m
    → ((v : Verdict) → IsSound c v → Gives c (f v))
    → Gives c (m >>= f)
bind-GivesVerdict (ok v) c f g h = h v g
bind-GivesVerdict (err e) c f g h = tt

shrink-GivesVerdict :
    (c : RiskContext) (f : Fraction)
    → Decimal.le c.increase_qty d0 ≡ false
    → GivesVerdict c (shrink f)
unfolding shrink make
shrink-GivesVerdict c f h = elim (Bool-cases (fits VerdictKind.shrink f)) [
  | inl e ↦ rw e (record { valid = e; passes = λ r. cc })
  | inr e ↦ rw e tt
]

cap_increase-GivesVerdict : (c : RiskContext) (q : Decimal) → GivesVerdict c (cap_increase c q)
unfolding cap_increase fits
cap_increase-GivesVerdict c q = elim (Bool-cases (Decimal.le c.increase_qty d0)) [
  | inl e ↦ rw e (allow-IsSound c)
  | inr e ↦ elim (Bool-cases (Decimal.le c.post_qty q)) [
    | inl f ↦ rw (e, f) (allow-IsSound c)
    | inr f ↦ elim (Bool-cases (Decimal.le (Decimal.sub q c.base_qty) d0)) [
      | inl g ↦ rw (e, f, g) (record { valid = refl; passes = λ r. ground arith })
      | inr g ↦ rw (e, f, g) (shrink-GivesVerdict c _ e)
    ]
  ]
]

capped-Gives :
    (c : RiskContext) (q : Decimal) (v : RuleVerdict) (f : Verdict → RuleVerdict)
    → IsSound c v.verdict
    → ((u : Verdict) → IsSound c u → IsSound c (f u).verdict)
    → Gives c (if Decimal.le c.equity d0 then ok v else (cap_increase c q >>= λ u. ok (f u)))
capped-Gives c q v f g h =
    if-Gives (Decimal.le c.equity d0) c (ok v) (cap_increase c q >>= λ u. ok (f u)) g
      (bind-GivesVerdict (cap_increase c q) c (λ u. ok (f u)) (cap_increase-GivesVerdict c q) h)

notional-Gives : (x : Decimal) (c : RiskContext) → Gives c (check_notional x c)
unfolding check_notional
notional-Gives x c = capped-Gives c _ _ _ (veto_if-IsSound true c) (λ u s. s)

leverage-Gives : (x : Decimal) (c : RiskContext) → Gives c (check_leverage x c)
unfolding check_leverage
leverage-Gives x c = capped-Gives c _ _ _ (veto_if-IsSound true c) (λ u s. s)

repair-Gives :
    (k b : Decimal) (c : RiskContext) (side : Side) (w d : Decimal) (p : Fields)
    → Gives c (check_repair k b c side w d p)
unfolding check_repair
repair-Gives k b c side w d p =
    bind-Gives (reduced_max_leverage c.stop_distance c.price c.mmr b) c _ λ l.
      bind-Gives (max_qty_for_dtl side w c.price c.atr k c.mmr c.maint_amount) c _ λ q.
        let cap = Decimal.min (Decimal.quotient (Decimal.mul l w) c.price) q in
        bind-GivesVerdict (cap_increase c cap) c _ (cap_increase-GivesVerdict c cap) (λ u s. s)

signed-Gives :
    (k b : Decimal) (c : RiskContext) (side : Side) (w l : Decimal) (p : Fields)
    → Gives c (check_signed k b c side w l p)
unfolding check_signed
signed-Gives k b c side w l p = bind-Gives (signed_dtl_atr side c.price l c.atr) c _ λ d.
    if-Gives (Decimal.le k d) c _ (check_repair k b c side w d p) (allow-IsSound c)
      (repair-Gives k b c side w d p)

distance-Gives :
    (k b : Decimal) (c : RiskContext) (side : Side) (w : Decimal) (p : Fields)
    → Gives c (check_distance k b c side w p)
unfolding check_distance
distance-Gives k b c side w p =
    bind-Gives (side_liq_price side c.post_qty c.price w c.mmr c.maint_amount) c _ λ l.
      if-Gives (is_long side && Decimal.le l d0) c _ (check_signed k b c side w l _)
        (allow-IsSound c) (signed-Gives k b c side w l _)

liquidation-Gives : (k b : Decimal) (c : RiskContext) → Gives c (check_liquidation k b c)
unfolding check_liquidation
liquidation-Gives k b c =
    let wallet = Decimal.sub c.equity (Decimal.mul c.gross_notional_other c.mmr) in
    elim (Bool-cases (Decimal.eq c.post_qty d0)) [
      | inl e ↦ rw e (allow-IsSound c)
      | inr e ↦ elim (Bool-cases (Decimal.le wallet d0 || Decimal.le c.atr d0)) [
        | inl f ↦ rw (e, f) (veto_if-IsSound true c)
        | inr f ↦ rw (e, f) (distance-Gives k b c _ wallet _)
      ]
    ]

pub check-Gives : (rule : Rule) (tripped : Bool) (c : RiskContext) → Gives c (check rule tripped c)
unfolding check check_stale check_daily_loss check_drawdown check_mode
check-Gives (Rule.stale_data x y) tripped c = veto_if-IsSound _ c
check-Gives (Rule.max_position_notional x) tripped c = notional-Gives x c
check-Gives (Rule.max_gross_leverage x) tripped c = leverage-Gives x c
check-Gives (Rule.max_daily_loss x) tripped c = veto_if-IsSound _ c
check-Gives (Rule.max_drawdown_halt x) tripped c = veto_if-IsSound _ c
check-Gives (Rule.liquidation_buffer k b) tripped c = liquidation-Gives k b c
check-Gives (Rule.risk_mode p) tripped c = veto_if-IsSound _ c

-- The soundness that the single rules give, for a call that returned.
pub check-IsSound :
    (rule : Rule) (tripped : Bool) (c : RiskContext) {r : RuleVerdict}
    → check rule tripped c ≡ ok r
    → IsSound c r.verdict
check-IsSound rule tripped c h = subst (Gives c) h (check-Gives rule tripped c)

gate_limit-le : (p : CooldownPolicy) (c : RiskContext) → gate_limit p c ≤ 2
unfolding gate_limit
gate_limit-le CooldownPolicy.scaled_entries c = ground arith
gate_limit-le CooldownPolicy.reduce_only c = omega arith

gate_limit-present :
    (p : CooldownPolicy) (c : RiskContext) → Decimal.eq c.base_qty d0 ≡ false → gate_limit p c ≡ 1
unfolding gate_limit
gate_limit-present CooldownPolicy.scaled_entries c e = ground arith
gate_limit-present CooldownPolicy.reduce_only c e = refl

above_limit :
    (p : CooldownPolicy) (tripped : Bool) (c : RiskContext)
    → Decimal.lt d0 c.increase_qty ≡ true
    → gate_limit p c < severity (gate_state tripped c)
    → (check_mode p tripped c).verdict ≡ veto
unfolding check_mode
above_limit p tripped c h k = ground arith

gate_state-halted :
    (tripped : Bool) (c : RiskContext)
    → (tripped ≡ true) ⊎ (c.risk_state ≡ RiskState.halted)
    → severity (gate_state tripped c) ≡ 3
unfolding gate_state
gate_state-halted true c h = refl
gate_state-halted false c (inl h) = cc
gate_state-halted false c (inr h) = ap severity h

gate_state-cooldown :
    (tripped : Bool) (c : RiskContext)
    → c.risk_state ≡ RiskState.cooldown
    → 2 ≤ severity (gate_state tripped c)
unfolding gate_state
gate_state-cooldown true c h = omega arith
gate_state-cooldown false c h = omega (arith, ap severity h)

-- In HALTED, and with a tripped kill switch, the mode gate refuses every increase, under both policies.
pub check_mode-halted :
    (p : CooldownPolicy) (tripped : Bool) (c : RiskContext)
    → Decimal.lt d0 c.increase_qty ≡ true
    → (tripped ≡ true) ⊎ (c.risk_state ≡ RiskState.halted)
    → (check_mode p tripped c).verdict ≡ veto
check_mode-halted p tripped c h k =
    above_limit p tripped c h (omega (arith, gate_limit-le p c, gate_state-halted tripped c k))

-- In COOLDOWN the mode gate refuses every increase of a position that is already there, under both
-- policies.
pub check_mode-cooldown :
    (p : CooldownPolicy) (tripped : Bool) (c : RiskContext)
    → Decimal.lt d0 c.increase_qty ≡ true
    → c.risk_state ≡ RiskState.cooldown
    → Decimal.eq c.base_qty d0 ≡ false
    → (check_mode p tripped c).verdict ≡ veto
check_mode-cooldown p tripped c h k e =
    above_limit p tripped c h
      (omega (arith, gate_limit-present p c e, gate_state-cooldown tripped c k))

-- What the mode gate refuses under `scaled_entries` it refuses under `reduce_only`.
pub check_mode-policy :
    (tripped : Bool) (c : RiskContext)
    → (check_mode CooldownPolicy.scaled_entries tripped c).verdict ≡ veto
    → (check_mode CooldownPolicy.reduce_only tripped c).verdict ≡ veto
unfolding check_mode gate_limit
check_mode-policy tripped c h = ground arith
