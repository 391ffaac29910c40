-- ===== src/Risk/State/Kappa.antt =====
-- The size multiplier of the state machine against the severity of its state.
use fuzz_helm.Base.{◌≤◌, ◌≡◌, ◌∙◌, ap, refl, true, some, ok, arith}
use fuzz_helm.Decimal
use fuzz_helm.Decimal.{Decimal, d0, d1}
use fuzz_helm.Decimal.Order.{le_refl, le_trans}
use fuzz_helm.Core.Enums.{RiskState}
use fuzz_helm.Risk.Config.{StateMachineCfg, validate}
use fuzz_helm.Risk.Config.Laws.{Kappas, validate-Kappas}
use fuzz_helm.Risk.State.Defs.{RiskStateMachine, kappa_mode, severity}

-- The multiplier of a state, read off the four.
abbrev value : {c : StateMachineCfg} → Kappas c → RiskState → Decimal
value k RiskState.normal = k.n
value k RiskState.warning = k.w
value k RiskState.cooldown = k.d
value k RiskState.halted = k.h

value-at : {c : StateMachineCfg} (k : Kappas c) (s : RiskState) → c.kappa_mode s ≡ some (value k s)
value-at k RiskState.normal = k.at_normal
value-at k RiskState.warning = k.at_warning
value-at k RiskState.cooldown = k.at_cooldown
value-at k RiskState.halted = k.at_halted

d-le-n : {c : StateMachineCfg} (k : Kappas c) → Decimal.le k.d k.n ≡ true
d-le-n k = le_trans k.d k.w k.n k.d-le-w k.w-le-n

value_antitone :
    {c : StateMachineCfg} (k : Kappas c) (s t : RiskState)
    → severity s ≤ severity t
    → Decimal.le (value k t) (value k s) ≡ true
value_antitone k RiskState.normal RiskState.normal h = le_refl k.n
value_antitone k RiskState.normal RiskState.warning h = k.w-le-n
value_antitone k RiskState.normal RiskState.cooldown h = d-le-n k
value_antitone k RiskState.normal RiskState.halted h = le_trans k.h k.d k.n k.h-le-d (d-le-n k)
value_antitone k RiskState.warning RiskState.warning h = le_refl k.w
value_antitone k RiskState.warning RiskState.cooldown h = k.d-le-w
value_antitone k RiskState.warning RiskState.halted h = le_trans k.h k.d k.w k.h-le-d k.d-le-w
value_antitone k RiskState.cooldown RiskState.cooldown h = le_refl k.d
value_antitone k RiskState.cooldown RiskState.halted h = k.h-le-d
value_antitone k RiskState.halted RiskState.halted h = le_refl k.h
value_antitone k _ _ h = absurd (omega arith)

kappa_mode-value :
    (m : RiskStateMachine) {c : StateMachineCfg} (k : Kappas c)
    → m.cfg ≡ c
    → kappa_mode m ≡ ok (value k m.state)
unfolding kappa_mode
kappa_mode-value m k e = rw (ap (λ g. g.kappa_mode m.state) e ∙ value-at k m.state, kappa_mode)

severity-le : (s : RiskState) → severity s ≤ 3
severity-le s = ground arith

-- Under an accepted configuration every machine has a size multiplier between 0 and 1, and of two
-- machines with that configuration the one in the more severe state never has the larger one.
pub kappa_mode_antitone :
    (m m' : RiskStateMachine) {c : StateMachineCfg}
    → validate m.cfg ≡ ok c
    → m'.cfg ≡ m.cfg
    → severity m.state ≤ severity m'.state
    → (k : Decimal) × (k' : Decimal) × (kappa_mode m ≡ ok k)
      × (kappa_mode m' ≡ ok k')
      × (Decimal.le k' k ≡ true)
      × (Decimal.le k d1 ≡ true)
      × (Decimal.le d0 k' ≡ true)
kappa_mode_antitone m m' v e h =
    let (_, k) = validate-Kappas m.cfg v in
    (
      value k m.state,
      value k m'.state,
      kappa_mode-value m k refl,
      kappa_mode-value m' k e,
      value_antitone k m.state m'.state h,
      le_trans (value k m.state) k.n d1 (value_antitone k RiskState.normal m.state (omega arith))
          k.top,
      le_trans d0 k.h (value k m'.state) k.zero_le
          (value_antitone k m'.state RiskState.halted (severity-le m'.state)),
    )
