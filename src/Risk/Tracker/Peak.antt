-- ===== src/Risk/Tracker/Peak.antt =====
-- The running peak of `EquityTracker`, and the opening capital of the day.
use fuzz_helm.Base.{
  ◌≡◌, refl, inl, inr, true, false, Option, none, some, List, [], ◌∷◌, All, ◌∙◌, ap, ◌↔◌,
  raise_if-eq-ok, ok-injective, if◌then◌else◌, Result, ok, err, ◌>>=◌, >>=-eq-ok, Bool-cases, arith,
  value_error,
}
use fuzz_helm.Base.Int.{ℤ, ltb_ℤ, eqb_ℤ}
use fuzz_helm.Decimal
use fuzz_helm.Decimal.{Decimal}
use fuzz_helm.Decimal.Order.{le_refl, le_trans, le_of_not-le}
use fuzz_helm.Core.Clock.{utc_day_start_ns}
use fuzz_helm.Risk.Tracker.Defs.{
  EquityTracker, EquitySnapshot, update, observed, make, peak_of, after, goes_back,
}

-- Every observation of a run, in order; the run stops at an exception.
unfoldable pub update_all : EquityTracker → List (ℤ × Decimal) → Result EquityTracker
update_all t [] = ok t
update_all t ((ts, e) ∷ rest) = update t ts e >>= λ r. update_all r.0 rest

-- The peak bounds a capital.
abbrev pub Bounds : EquityTracker → Decimal → Type 0
Bounds t e = (p : Decimal) × (t.peak ≡ some p) × (Decimal.le e p ≡ true)

peak_of-le : (o : Option Decimal) (e : Decimal) → Decimal.le e (peak_of o e) ≡ true
peak_of-le none e = le_refl e
peak_of-le (some p) e = elim (Bool-cases (Decimal.le e p)) [
  | inl h ↦ rw h h
  | inr h ↦ rw h (le_refl e)
]

peak_of_mono : (p e : Decimal) → Decimal.le p (peak_of (some p) e) ≡ true
peak_of_mono p e = elim (Bool-cases (Decimal.le e p)) [
  | inl h ↦ rw h (le_refl p)
  | inr h ↦ rw h (le_of_not-le p e h)
]

update-ok :
    (t : EquityTracker) (ts : ℤ) (e : Decimal) {r : EquityTracker × EquitySnapshot}
    → update t ts e ≡ ok r
    → (goes_back t.last_ts ts ≡ false) × (after t ts e ≡ r)
unfolding update
update-ok t ts e h =
    let k = raise_if-eq-ok (goes_back t.last_ts ts) value_error (ok (after t ts e)) h in
    (k.0, ok-injective k.1)

after-peak :
    (t : EquityTracker) (ts : ℤ) (e : Decimal) → (after t ts e).0.peak ≡ some (peak_of t.peak e)
unfolding after observed
after-peak t ts e = refl

update-Bounds :
    (t : EquityTracker) (ts : ℤ) (e : Decimal) {r : EquityTracker × EquitySnapshot}
    → update t ts e ≡ ok r
    → Bounds r.0 e
update-Bounds t ts e h =
    rw (← (update-ok t ts e h).1) (peak_of t.peak e, after-peak t ts e, peak_of-le t.peak e)

update-keeps_Bounds :
    (t : EquityTracker) (ts : ℤ) (e x : Decimal) {r : EquityTracker × EquitySnapshot}
    → Bounds t x
    → update t ts e ≡ ok r
    → Bounds r.0 x
update-keeps_Bounds t ts e x (p, at, h) u = rw (← (update-ok t ts e u).1) (
  peak_of (some p) e,
  after-peak t ts e ∙ ap (λ o. some (peak_of o e)) at,
  le_trans x p (peak_of (some p) e) h (peak_of_mono p e),
)

update_all-keeps_Bounds :
    (t : EquityTracker) (os : List (ℤ × Decimal)) (x : Decimal) {t' : EquityTracker}
    → Bounds t x
    → update_all t os ≡ ok t'
    → Bounds t' x
unfolding update_all
update_all-keeps_Bounds t [] x b h = rw (← ok-injective h) b
update_all-keeps_Bounds t ((ts, e) ∷ rest) x b h =
    let (r, u, k) = >>=-eq-ok (update t ts e) (λ r. update_all r.0 rest) h in
    update_all-keeps_Bounds r.0 rest x (update-keeps_Bounds t ts e x b u) k

update_all-All :
    (t : EquityTracker) (os : List (ℤ × Decimal)) {t' : EquityTracker}
    → update_all t os ≡ ok t'
    → All (λ o. Bounds t' o.1) os
unfolding update_all
update_all-All t [] h = tt
update_all-All t ((ts, e) ∷ rest) h =
    let (r, u, k) = >>=-eq-ok (update t ts e) (λ r. update_all r.0 rest) h in
    (update_all-keeps_Bounds r.0 rest e (update-Bounds t ts e u) k, update_all-All r.0 rest k)

-- After any run of observations that raises no exception, the peak is at least every capital of the run.
pub update_all-peak :
    (t : EquityTracker) (os : List (ℤ × Decimal)) {t' : EquityTracker}
    → update_all t os ≡ ok t'
    → All (λ o. Bounds t' o.1) os
update_all-peak t os h = update_all-All t os h

after-day_open :
    (t : EquityTracker) (ts ts' : ℤ) (e e' : Decimal)
    → (after (after t ts e).0 ts' e').1.equity_day_open ≡ (
        if eqb_ℤ (utc_day_start_ns ts') (utc_day_start_ns ts)
        then (after t ts e).1.equity_day_open
        else e)
unfolding after observed make
after-day_open t ts ts' e e' = refl

-- Two observations in a row: a second one in the same UTC day keeps the opening capital of the day; one
-- in another day opens with the capital of the first.
pub update-day_open :
    (t : EquityTracker) (ts ts' : ℤ) (e e' : Decimal) {r r' : EquityTracker × EquitySnapshot}
    → update t ts e ≡ ok r
    → update r.0 ts' e' ≡ ok r'
    → r'.1.equity_day_open
      ≡ (if eqb_ℤ (utc_day_start_ns ts') (utc_day_start_ns ts) then r.1.equity_day_open else e)
update-day_open t ts ts' e e' {r} h k =
    rw (← (update-ok r.0 ts' e' k).1, ← (update-ok t ts e h).1) (after-day_open t ts ts' e e')

after-last_ts : (t : EquityTracker) (ts : ℤ) (e : Decimal) → (after t ts e).0.last_ts ≡ some ts
unfolding after observed
after-last_ts t ts e = refl

update-later :
    (t : EquityTracker) (ts ts' : ℤ) (e' : Decimal)
    → t.last_ts ≡ some ts
    → (update t ts' e' ≡ err value_error) ↔ (ltb_ℤ ts' ts ≡ true)
unfolding update
update-later t ts ts' e' h = ground arith

-- After an accepted observation a second one raises exactly when its time lies before the first's.
pub update-raises :
    (t : EquityTracker) (ts ts' : ℤ) (e e' : Decimal) {r : EquityTracker × EquitySnapshot}
    → update t ts e ≡ ok r
    → (update r.0 ts' e' ≡ err value_error) ↔ (ltb_ℤ ts' ts ≡ true)
update-raises t ts ts' e e' {r} h =
    update-later r.0 ts ts' e' (rw (← (update-ok t ts e h).1) (after-last_ts t ts e))
