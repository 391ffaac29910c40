-- ===== src/Risk/Guard/Journal.antt =====
-- What `evaluate` writes to the journal: one row for each rule, in the order of the chain.
use fuzz_helm.Base.{
  ◌+◌, ◌≡◌, ◌∙◌, ap, refl, sym, inl, inr, Bool, true, Option, some, String, List, [], ◌∷◌, ◌++◌,
  map, length, ok, >>=-eq-ok, ok-injective, Result-cases, err_ne_ok, arith,
}
use fuzz_helm.Base.Int.{ℤ}
use mathlib.Core.List.{append_assoc, append-nil}
use fuzz_helm.Risk.Context.{RiskContext}
use fuzz_helm.Risk.Journal.{RiskJournal, rule_record, record_rule, append, has_consumers}
use fuzz_helm.Risk.Rules.{Rule, check}
use fuzz_helm.Risk.Verdict.{RuleVerdict, compose, exposure}
use fuzz_helm.Risk.KillSwitch.{KillSwitch}
use fuzz_helm.Risk.Guard.Defs.{
  RiskGuard, GuardResult, run_rules, floor_to_step, decide, trip_on, evaluate, is_tripped,
}

-- The verdicts are those of the rules, in their order.
abbrev pub Checked : Bool → RiskContext → List Rule → List RuleVerdict → Type 0
Checked t c [] [] = Unit
Checked t c (rule ∷ rules) (rv ∷ rvs) = (check rule t c ≡ ok rv) × Checked t c rules rvs
Checked t c _ _ = ⊥

-- A journal that keeps its rows, after a list of verdicts.
abbrev pub Extends : RiskContext → RiskJournal → List RuleVerdict → RiskJournal → Type 0
Extends c j rvs j' =
    (j'.records ≡ j.records ++ map (rule_record j.run_id c.ts_ns (some c.instrument)) rvs)
    × (j'.count ≡ j.count + length rvs)

record_rule-keep :
    (ts : ℤ) (i : Option String) (rv : RuleVerdict) (j : RiskJournal)
    → j.keep ≡ true
    → (record_rule ts i rv j).keep ≡ true
unfolding record_rule append has_consumers
record_rule-keep ts i rv j h = rw h refl

record_rule-records :
    (ts : ℤ) (i : Option String) (rv : RuleVerdict) (j : RiskJournal)
    → j.keep ≡ true
    → (record_rule ts i rv j).records ≡ j.records ++ (rule_record j.run_id ts i rv ∷ [])
unfolding record_rule append has_consumers
record_rule-records ts i rv j h = rw h refl

record_rule-count :
    (ts : ℤ) (i : Option String) (rv : RuleVerdict) (j : RiskJournal)
    → (record_rule ts i rv j).count ≡ j.count + 1
unfolding record_rule append
record_rule-count ts i rv j = ground arith

record_rule-run_id :
    (ts : ℤ) (i : Option String) (rv : RuleVerdict) (j : RiskJournal)
    → (record_rule ts i rv j).run_id ≡ j.run_id
unfolding record_rule append
record_rule-run_id ts i rv j = ground arith

Extends-cons :
    (c : RiskContext) (j j' : RiskJournal) (rv : RuleVerdict) (rvs : List RuleVerdict)
    → j.keep ≡ true
    → Extends c (record_rule c.ts_ns (some c.instrument) rv j) rvs j'
    → Extends c j (rv ∷ rvs) j'
Extends-cons c j j' rv rvs k (e, f) =
    let i = some c.instrument in
    (
      rw (e, record_rule-records c.ts_ns i rv j k, record_rule-run_id c.ts_ns i rv j)
          (append_assoc j.records _ _),
      omega (arith, f, record_rule-count c.ts_ns i rv j),
    )

run_rules-Checked :
    (rules : List Rule) (t : Bool) (c : RiskContext) (j : RiskJournal) {rvs : List RuleVerdict}
    → j.keep ≡ true
    → (run_rules rules t c j).0 ≡ ok rvs
    → Checked t c rules rvs × Extends c j rvs (run_rules rules t c j).1
unfolding run_rules
run_rules-Checked [] t c j k h = rw (← ok-injective h) (tt, (sym (append-nil _), omega arith))
run_rules-Checked (rule ∷ rules) t c j k h = elim (Result-cases (check rule t c)) [
  | inr (e, f) ↦ absurd (err_ne_ok (rw (run_rules, f) at h))
  | inl (rv, f) ↦
      let j' = record_rule c.ts_ns (some c.instrument) rv j in
      let (rest, g, e) = >>=-eq-ok (run_rules rules t c j').0 _ (rw (run_rules, f) at h) in
      let (checked, extends) =
        run_rules-Checked rules t c j' (record_rule-keep c.ts_ns (some c.instrument) rv j k) g in
      rw (run_rules, f, ← ok-injective e)
        ((f, checked), Extends-cons c j (run_rules rules t c j').1 rv rest k extends)
]

-- The same for every journal, as far as the verdicts go.
pub run_rules-all :
    (rules : List Rule) (t : Bool) (c : RiskContext) (j : RiskJournal) {rvs : List RuleVerdict}
    → (run_rules rules t c j).0 ≡ ok rvs
    → Checked t c rules rvs
unfolding run_rules
run_rules-all [] t c j h = rw (← ok-injective h) tt
run_rules-all (rule ∷ rules) t c j h = elim (Result-cases (check rule t c)) [
  | inr (e, f) ↦ absurd (err_ne_ok (rw (run_rules, f) at h))
  | inl (rv, f) ↦
      let j' = record_rule c.ts_ns (some c.instrument) rv j in
      let (rest, g, e) = >>=-eq-ok (run_rules rules t c j').0 _ (rw (run_rules, f) at h) in
      rw (← ok-injective e) (f, run_rules-all rules t c j' g)
]

-- A successful call of `evaluate`, taken apart.
pub evaluate-ok :
    (g : RiskGuard) (clock : Option ℤ) (c : RiskContext) {r : GuardResult}
    → (evaluate g clock c).0 ≡ ok r
    → (rvs : List RuleVerdict) × ((run_rules g.rules (is_tripped g.killswitch) c g.journal).0
        ≡ ok rvs)
      × (decide c g.killswitch rvs ≡ ok r)
      × ((evaluate g clock c).1 ≡ record g {
        journal = (run_rules g.rules (is_tripped g.killswitch) c g.journal).1;
        killswitch = trip_on r.halt c.ts_ns clock g.killswitch;
      })
unfolding evaluate
evaluate-ok g clock c h =
    let run = run_rules g.rules (is_tripped g.killswitch) c g.journal in
    elim (Result-cases run.0) [
      | inr (e, f) ↦ absurd (err_ne_ok (rw (evaluate, f) at h))
      | inl (rvs, f) ↦ elim (Result-cases (decide c g.killswitch rvs)) [
        | inr (e, d) ↦ absurd (err_ne_ok (rw (evaluate, f, d) at h))
        | inl (r', d) ↦
            let e = ok-injective (rw (evaluate, f, d) at h) in
            (rvs, f, d ∙ ap ok e, rw (evaluate, f, d, e) refl)
      ]
    ]

decide-records :
    (c : RiskContext) (k : Option KillSwitch) (rvs : List RuleVerdict) {r : GuardResult}
    → decide c k rvs ≡ ok r
    → rvs ≡ r.records
unfolding decide
decide-records c k rvs h =
    let (v, e, h1) = >>=-eq-ok (compose (map (λ r. r.verdict) rvs)) _ h in
    let (x, f, h2) = >>=-eq-ok (exposure v c.increase_qty) _ h1 in
    let (y, g, h3) = >>=-eq-ok (floor_to_step c.step_size x) _ h2 in
    ap (λ r. r.records) (ok-injective h3)

-- A successful `evaluate` of a guard whose journal keeps its rows: the records of the result are the
-- verdicts of all the rules of the chain, in its order, each computed on this context and the switch
-- before the call; the journal has one more row for each of them, in the same order, and counts them.
pub evaluate-journals :
    (g : RiskGuard) (clock : Option ℤ) (c : RiskContext) {r : GuardResult}
    → g.journal.keep ≡ true
    → (evaluate g clock c).0 ≡ ok r
    → Checked (is_tripped g.killswitch) c g.rules r.records
      × Extends c g.journal r.records (evaluate g clock c).1.journal
evaluate-journals g clock c k h =
    let (rvs, f, d, e) = evaluate-ok g clock c h in
    rw (e, ← decide-records c g.killswitch rvs d)
      (run_rules-Checked g.rules (is_tripped g.killswitch) c g.journal k f)
