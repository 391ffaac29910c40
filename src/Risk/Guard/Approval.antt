-- ===== src/Risk/Guard/Approval.antt =====
-- What `evaluate` approves: nothing when everything has to be closed, every reduction, and otherwise no
-- more than the request and than each rule allows.
use fuzz_helm.Base.{
  ◌≡◌, ◌∙◌, ap, refl, sym, ◌⊎◌, inl, inr, Bool, true, false, if◌then◌else◌, ◌||◌, Option, none,
  some, List, [], ◌∷◌, map, All, Listed, ok, >>=-eq-ok, ok-injective, arith,
}
use fuzz_helm.Base.Int.{ℤ}
use fuzz_helm.Decimal
use fuzz_helm.Decimal.{Decimal, d0}
use fuzz_helm.Core.Enums.{RiskState, same_state}
use fuzz_helm.Risk.Context.{RiskContext}
use fuzz_helm.Risk.KillSwitch
use fuzz_helm.Risk.KillSwitch.{KillSwitch}
use fuzz_helm.Risk.Rules.{Rule, check}
use fuzz_helm.Risk.Rules.Laws.{IsReduction, check-IsSound}
use fuzz_helm.Risk.Verdict.{Verdict, RuleVerdict, allow, one, compose, compose_from, exposure}
use fuzz_helm.Risk.Verdict.Compose.{IsValid}
use fuzz_helm.Risk.Verdict.Bound.{Limits, compose-Limits}
use fuzz_helm.Risk.Guard.Defs.{
  RiskGuard, GuardResult, any_halt, floor_to_step, trip_on, target_of, decide, evaluate, is_tripped,
}
use fuzz_helm.Risk.Guard.Journal.{Checked, evaluate-ok, run_rules-all}

abbrev verdicts : List RuleVerdict → List Verdict
verdicts rvs = map (λ r. r.verdict) rvs

-- Everything has to be closed.
abbrev closes : Option KillSwitch → RiskContext → List RuleVerdict → Bool
closes k c rvs = any_halt rvs || (is_tripped k || same_state c.risk_state RiskState.halted)

Checked-IsValid :
    (t : Bool) (c : RiskContext) (rules : List Rule) (rvs : List RuleVerdict)
    → Checked t c rules rvs
    → All IsValid (verdicts rvs)
Checked-IsValid t c [] [] h = tt
Checked-IsValid t c (rule ∷ rules) (rv ∷ rvs) h =
    ((check-IsSound rule t c h.0).valid, Checked-IsValid t c rules rvs h.1)
Checked-IsValid t c [] (rv ∷ rvs) h = elim h [ ]
Checked-IsValid t c (rule ∷ rules) [] h = elim h [ ]

-- Every verdict on a reduction is `allow`, and so is their composition.
reduction-compose :
    (t : Bool) (c : RiskContext) (rules : List Rule) (rvs : List RuleVerdict)
    → IsReduction c
    → Checked t c rules rvs
    → compose_from one false (verdicts rvs) ≡ ok allow
unfolding compose_from
reduction-compose t c [] [] r h = refl
reduction-compose t c (rule ∷ rules) (rv ∷ rvs) r h =
    rw ((check-IsSound rule t c h.0).passes r) (reduction-compose t c rules rvs r h.1)
reduction-compose t c [] (rv ∷ rvs) r h = elim h [ ]
reduction-compose t c (rule ∷ rules) [] r h = elim h [ ]

-- The steps of a successful `decide`.
decide-ok :
    (c : RiskContext) (k : Option KillSwitch) (rvs : List RuleVerdict) {r : GuardResult}
    → decide c k rvs ≡ ok r
    → (v : Verdict) × (x : Decimal) × (y : Decimal) × (compose (verdicts rvs) ≡ ok v)
      × (exposure v c.increase_qty ≡ ok x)
      × (floor_to_step c.step_size x ≡ ok y)
      × (r ≡ record {
        verdict = v;
        records = rvs;
        approved_qty = if closes k c rvs then d0 else target_of c y;
        requested_qty = c.target_qty;
        current_qty = c.current_qty;
        increase_requested = c.increase_qty;
        increase_approved = if closes k c rvs then d0 else y;
        flatten_all = closes k c rvs;
        halt = any_halt rvs;
      })
unfolding decide
decide-ok c k rvs h =
    let (v, e, h1) = >>=-eq-ok (compose (verdicts rvs)) _ h in
    let (x, f, h2) = >>=-eq-ok (exposure v c.increase_qty) _ h1 in
    let (y, g, h3) = >>=-eq-ok (floor_to_step c.step_size x) _ h2 in
    (v, x, y, e, f, g, sym (ok-injective h3))

-- A rule of the chain answers the context with a halt signal.
abbrev pub Signals : RiskGuard → RiskContext → Type 0
Signals g c =
    (rule : Rule) × (rv : RuleVerdict) × Listed rule g.rules
    × (check rule (is_tripped g.killswitch) c ≡ ok rv)
    × (rv.halt ≡ true)

signal-any :
    (t : Bool) (c : RiskContext) (rules : List Rule) (rvs : List RuleVerdict) (rule : Rule)
    (rv : RuleVerdict)
    → Checked t c rules rvs
    → Listed rule rules
    → check rule t c ≡ ok rv
    → rv.halt ≡ true
    → any_halt rvs ≡ true
unfolding any_halt
signal-any t c (r ∷ rules) (s ∷ rvs) rule rv (e, h) (inl same) f halt =
    let answer : s.halt ≡ true =
      ap (λ v. v.halt) (ok-injective (sym e ∙ (ap (λ x. check x t c) same ∙ f))) ∙ halt in
    rw answer refl
signal-any t c (r ∷ rules) (s ∷ rvs) rule rv (e, h) (inr later) f halt =
    let rest = signal-any t c rules rvs rule rv h later f halt in ground arith
signal-any t c [] rvs rule rv h listed f halt = absurd listed
signal-any t c (r ∷ rules) [] rule rv h listed f halt = elim h [ ]

Signals-any :
    (g : RiskGuard) (c : RiskContext) (rvs : List RuleVerdict)
    → Checked (is_tripped g.killswitch) c g.rules rvs
    → Signals g c
    → any_halt rvs ≡ true
Signals-any g c rvs h (rule, rv, listed, f, halt) =
    signal-any (is_tripped g.killswitch) c g.rules rvs rule rv h listed f halt

closes-true :
    (k : Option KillSwitch) (c : RiskContext) (rvs : List RuleVerdict)
    → (is_tripped k ≡ true) ⊎ ((c.risk_state ≡ RiskState.halted) ⊎ (any_halt rvs ≡ true))
    → closes k c rvs ≡ true
closes-true k c rvs (inl h) = ground arith
closes-true k c rvs (inr (inl h)) = rw h (ground arith)
closes-true k c rvs (inr (inr h)) = rw h refl

-- With a tripped kill switch, in HALTED, and where a rule of the chain answers the context with a halt
-- signal, a successful `evaluate` approves the position 0 and no increase, and asks to close everything.
pub evaluate-closes :
    (g : RiskGuard) (clock : Option ℤ) (c : RiskContext) {r : GuardResult}
    → (evaluate g clock c).0 ≡ ok r
    → (is_tripped g.killswitch ≡ true) ⊎ ((c.risk_state ≡ RiskState.halted) ⊎ Signals g c)
    → (r.approved_qty ≡ d0) × (r.increase_approved ≡ d0) × (r.flatten_all ≡ true)
evaluate-closes g clock c h w =
    let (rvs, f, d, e) = evaluate-ok g clock c h in
    let (v, x, y, e1, e2, e3, eq) = decide-ok c g.killswitch rvs d in
    let checked = run_rules-all g.rules (is_tripped g.killswitch) c g.journal f in
    let all = closes-true g.killswitch c rvs (elim w [
      | inl tripped ↦ inl tripped
      | inr (inl halted) ↦ inr (inl halted)
      | inr (inr signals) ↦ inr (inr (Signals-any g c rvs checked signals))
    ]) in
    rw (eq, all) (refl, refl, refl)

-- After a successful `evaluate` in which a rule of the chain answered the context with a halt signal, the
-- kill switch of the guard, if it has one, is tripped, and the result says that there was a halt.
pub evaluate-trips :
    (g : RiskGuard) (clock : Option ℤ) (c : RiskContext) {r : GuardResult} {k : KillSwitch}
    → (evaluate g clock c).0 ≡ ok r
    → g.killswitch ≡ some k
    → Signals g c
    → (is_tripped (evaluate g clock c).1.killswitch ≡ true) × (r.halt ≡ true)
unfolding trip_on KillSwitch.trip
evaluate-trips g clock c {k} h s signals =
    let (rvs, f, d, e) = evaluate-ok g clock c h in
    let (v, x, y, e1, e2, e3, eq) = decide-ok c g.killswitch rvs d in
    let checked = run_rules-all g.rules (is_tripped g.killswitch) c g.journal f in
    let halt = ap (λ r. r.halt) eq ∙ Signals-any g c rvs checked signals in
    (rw (e, s, halt) (ground arith), halt)

-- A request that does not increase the position passes all rules: the composed verdict of a successful
-- `evaluate` is `allow`.
pub evaluate-reduction :
    (g : RiskGuard) (clock : Option ℤ) (c : RiskContext) {r : GuardResult}
    → IsReduction c
    → (evaluate g clock c).0 ≡ ok r
    → r.verdict ≡ allow
unfolding compose
evaluate-reduction g clock c red h =
    let (rvs, f, d, e) = evaluate-ok g clock c h in
    let (v, x, y, e1, e2, e3, eq) = decide-ok c g.killswitch rvs d in
    let all = run_rules-all g.rules (is_tripped g.killswitch) c g.journal f in
    rw eq
      (ok-injective (sym e1 ∙ reduction-compose (is_tripped g.killswitch) c g.rules rvs red all))

no_step :
    (step : Option Decimal) {x y : Decimal} → step ≡ none → floor_to_step step x ≡ ok y → x ≡ y
unfolding floor_to_step
no_step none s h = ok-injective h
no_step (some k) s h = cc

not_closed : (b : Bool) (y : Decimal) {x : Decimal} → b ≡ false → (if b then y else x) ≡ x
not_closed false y h = refl
not_closed true y h = cc

-- Without a lot step, and where nothing has to be closed, the increase that a successful `evaluate`
-- approves is at most the requested one, and at most what each single rule allows of it.
pub evaluate-Limits :
    (g : RiskGuard) (clock : Option ℤ) (c : RiskContext) {r : GuardResult}
    → c.step_size ≡ none
    → (evaluate g clock c).0 ≡ ok r
    → r.flatten_all ≡ false
    → (Decimal.le r.increase_approved c.increase_qty ≡ true)
      × Limits r.increase_approved c.increase_qty (verdicts r.records)
evaluate-Limits g clock c s h n =
    let (rvs, f, d, e) = evaluate-ok g clock c h in
    let (v, x, y, e1, e2, e3, eq) = decide-ok c g.killswitch rvs d in
    let all = run_rules-all g.rules (is_tripped g.killswitch) c g.journal f in
    let open_ = sym (ap (λ r. r.flatten_all) eq) ∙ n in
    let same = sym (no_step c.step_size s e3) in
    let increase =
      ap (λ r. r.increase_approved) eq ∙ (not_closed (closes g.killswitch c rvs) d0 open_ ∙ same) in
    let limits =
      compose-Limits (verdicts rvs) c.increase_qty
        (Checked-IsValid (is_tripped g.killswitch) c g.rules rvs all) e1 e2 in
    rw (increase, ap (λ r. r.records) eq) limits
