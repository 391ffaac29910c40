-- ===== src/Risk/State/Release.antt =====
-- The release of HALTED by an administrator.
use fuzz_helm.Base.{
  ◌≡◌, ◌≢◌, refl, sym, ◌∙◌, ap, true, false, Option, some, [], ◌∷◌, map, ok_of_ne_err, String, ok,
  err, permission_denied, >>=-eq-ok, ok-injective, arith,
}
use fuzz_helm.Base.Int.{ℤ}
use fuzz_helm.Decimal.{Decimal}
use fuzz_helm.Core.Enums.{RiskState, Role}
use fuzz_helm.Risk.KillSwitch
use fuzz_helm.Risk.KillSwitch.{KillSwitch, AuditRecord}
use fuzz_helm.Core.Value.{Fields}
use fuzz_helm.Risk.Tracker
use fuzz_helm.Risk.State.Defs.{
  RiskStateMachine, Released, transitions, apply_event, release, release_halted, release_transition,
  audit_state, actor_or_role, clock_or_last, machine_record,
}

-- Anyone but an administrator is refused, in every state.
pub machine_release_denied :
    (m : RiskStateMachine) (clock : Option ℤ) (role : Role) (actor : Option String)
    → role ≢ Role.admin
    → release m clock role actor ≡ err permission_denied
unfolding release
machine_release_denied m clock role actor h = ground arith

-- The multipliers of the two states that a release audits are configured.
abbrev pub HasKappa : RiskStateMachine → Type 0
HasKappa m =
    ((k : Decimal) × (m.cfg.kappa_mode RiskState.halted ≡ some k))
    × ((k : Decimal) × (m.cfg.kappa_mode RiskState.cooldown ≡ some k))

-- What a release of HALTED gives: COOLDOWN with a new dwell count, an open latch, peak and opening
-- capital of the day moved to the last capital, and two audit records, the latch's first.
abbrev pub Restarts : RiskStateMachine → Released → Type 0
Restarts m (m', moved, audits) =
    (m'.state ≡ RiskState.cooldown)
    × (m'.dwell ≡ 0)
    × (m'.killswitch.tripped ≡ false)
    × (m'.tracker ≡ (Tracker.rebase m.tracker).0)
    × (map (λ a. a.action) audits ≡ "killswitch.release" ∷ "risk.release" ∷ [])

release_transition-kappa :
    (m : RiskStateMachine) (clock : Option ℤ) (actor : Option String)
    → (release_transition m clock actor).0.cfg.kappa_mode ≡ m.cfg.kappa_mode
unfolding release_transition apply_event
release_transition-kappa m clock actor = ground arith

release_transition-state :
    (m : RiskStateMachine) (clock : Option ℤ) (actor : Option String)
    → m.state ≡ RiskState.halted
    → ((release_transition m clock actor).0.state ≡ RiskState.cooldown)
      × ((release_transition m clock actor).0.dwell ≡ 0)
      × ((release_transition m clock actor).0.killswitch ≡ m.killswitch)
      × ((release_transition m clock actor).0.tracker ≡ (Tracker.rebase m.tracker).0)
unfolding release_transition apply_event transitions
release_transition-state m clock actor h = ground arith

audit_state-ok :
    (m : RiskStateMachine) (st : RiskState) {k : Decimal}
    → m.state ≡ st
    → m.cfg.kappa_mode st ≡ some k
    → (f : Fields) × (audit_state m ≡ ok f)
unfolding audit_state
audit_state-ok m st at e = ok_of_ne_err (audit_state m) (λ x h. ground arith)

-- The latch's part of a release.
opens :
    (k : KillSwitch) (clock : Option ℤ) (actor : Option String) (ts : Option ℤ)
    → k.tripped ≡ true
    → KillSwitch.release k clock Role.admin actor ts
      ≡ ok (KillSwitch.opened k, some (KillSwitch.release_record k clock Role.admin actor ts))
unfolding KillSwitch.release
opens k clock actor ts h = rw h

release-halted :
    (m : RiskStateMachine) (clock : Option ℤ) (actor : Option String)
    → m.state ≡ RiskState.halted
    → release m clock Role.admin actor ≡ release_halted m clock Role.admin actor
unfolding release
release-halted m clock actor h = rw h

-- What the release returns, from the states that its audit record shows.
abbrev outcome : RiskStateMachine → Option ℤ → Option String → Fields → Fields → Released
outcome m clock actor before after =
    let ts = clock_or_last clock m.last_ts in
    let r =
      release_transition (record m { killswitch = KillSwitch.opened m.killswitch }) clock
        (actor_or_role actor) in
    (
      r.0,
      r.1,
      KillSwitch.release_record m.killswitch clock Role.admin actor (some ts)
          ∷ machine_record ts Role.admin actor before after
          ∷ [],
    )

-- A release by an administrator of a machine in HALTED with a tripped latch raises nothing, where the
-- multipliers of HALTED and COOLDOWN are configured.
pub release-total :
    (m : RiskStateMachine) (clock : Option ℤ) (actor : Option String)
    → HasKappa m
    → m.state ≡ RiskState.halted
    → m.killswitch.tripped ≡ true
    → (r : Released) × (release m clock Role.admin actor ≡ ok r)
unfolding release_halted
release-total m clock actor (kh, kc) s h =
    let (f, ef) = audit_state-ok m RiskState.halted s kh.1 in
    let m₁ = record m { killswitch = KillSwitch.opened m.killswitch } in
    let m₂ = (release_transition m₁ clock (actor_or_role actor)).0 in
    let (f', ef') =
      audit_state-ok m₂ RiskState.cooldown
        (release_transition-state m₁ clock (actor_or_role actor) s).0
        (ap (λ g. g RiskState.cooldown) (release_transition-kappa m₁ clock (actor_or_role actor))
          ∙ kc.1) in
    let ek = opens m.killswitch clock actor (some (clock_or_last clock m.last_ts)) h in
    (outcome m clock actor f f', release-halted m clock actor s ∙ rw (ef, ek, ef'))

restarted :
    (m : RiskStateMachine) (clock : Option ℤ) (actor : Option String) (k : KillSwitch)
    (a b : AuditRecord)
    → m.state ≡ RiskState.halted
    → k.tripped ≡ false
    → a.action ≡ "killswitch.release"
    → b.action ≡ "risk.release"
    → let r = release_transition (record m { killswitch = k }) clock actor in
      Restarts m (r.0, r.1, a ∷ b ∷ [])
restarted m clock actor k a b s o e e' =
    let (st, dw, ks, tk) = release_transition-state (record m { killswitch = k }) clock actor s in
    (st, dw, rw ks o, tk, rw (e, e'))

-- A release by an administrator of a machine in HALTED with a tripped latch, if it raises nothing,
-- restarts the machine: it is in COOLDOWN with a new dwell
-- count and an open latch, the tracker is rebased, and the two audit records were written in order.
pub release-Restarts :
    (m : RiskStateMachine) (clock : Option ℤ) (actor : Option String) {r : Released}
    → m.state ≡ RiskState.halted
    → m.killswitch.tripped ≡ true
    → release m clock Role.admin actor ≡ ok r
    → Restarts m r
unfolding release_halted
release-Restarts m clock actor s h e =
    let ek = opens m.killswitch clock actor (some (clock_or_last clock m.last_ts)) h in
    let (before, _, e₁) = >>=-eq-ok (audit_state m) _ (sym (release-halted m clock actor s) ∙ e) in
    let (after, _, e₂) =
      >>=-eq-ok
        (audit_state
          (release_transition (record m { killswitch = KillSwitch.opened m.killswitch }) clock
            (actor_or_role actor)).0)
        _ (rw ek at e₁) in
    let ts = clock_or_last clock m.last_ts in
    rw (← ok-injective e₂) (
      restarted m clock (actor_or_role actor) (KillSwitch.opened m.killswitch)
        (KillSwitch.release_record m.killswitch clock Role.admin actor (some ts))
        (machine_record ts Role.admin actor before after) s refl refl refl)
