-- ===== src/Execution/Costs/Next.antt =====
-- The next funding time: it is later, it is a funding time, and there is none before it.
use fuzz_helm.Base.{
  ℕ, ◌+◌, ◌*◌, ◌/◌, ◌%◌, ◌≤◌, ◌<◌, ◌==◌, true, false, List, [], ◌∷◌, Option, none, some, ltb, ◌≡◌,
  refl, sym, arith, inl, inr, Bool-cases, subst, All,
}
use mathlib.Core.Bool.{false≢true}
use fuzz_helm.Core.Clock.{ns_per_day}
use fuzz_helm.Execution.Costs.Funding.{
  is_in, day_of, is_funding_time, first_after, next_funding_time, tomorrow,
}
use fuzz_helm.Execution.Costs.Schedule.{WithinDay}

-- The hours in order.
abbrev pub Ascending : List ℕ → Type 0
Ascending [] = Unit
Ascending (off ∷ offs) = All (λ later. off < later) offs × Ascending offs

is_in-All : (P : ℕ → Type 0) (a : ℕ) (offs : List ℕ) → All P offs → is_in a offs ≡ true → P a
is_in-All P a [] h found = absurd (false≢true found)
is_in-All P a (off ∷ offs) (p, h) found = elim (Bool-cases (a == off)) [
  | inl same ↦ subst P (sym (ground arith)) p
  | inr differ ↦ is_in-All P a offs h (rw differ at found)
]

-- What the loop over the offsets of day d found.
First : ℕ → ℕ → List ℕ → Option ℕ → Type 0
First d t offs none = (a : ℕ) → is_in a offs ≡ true → d * ns_per_day + a ≤ t
First d t offs (some s) =
    (a : ℕ) × (is_in a offs ≡ true)
    × (s ≡ d * ns_per_day + a)
    × (t < s)
    × ((b : ℕ) → is_in b offs ≡ true → b < a → d * ns_per_day + b ≤ t)

not_before :
    (d t off b : ℕ) (offs : List ℕ)
    → All (λ later. off < later) offs
    → is_in b (off ∷ offs) ≡ true
    → b < off
    → d * ns_per_day + b ≤ t
not_before d t off b offs later found h = elim (Bool-cases (b == off)) [
  | inl same ↦ absurd (ground arith)
  | inr differ ↦
      let after = is_in-All (λ c. off < c) b offs later (rw differ at found) in absurd (omega arith)
]

kept-First :
    (d t off : ℕ) (offs : List ℕ) (out : Option ℕ)
    → d * ns_per_day + off ≤ t
    → First d t offs out
    → First d t (off ∷ offs) out
unfolding First
kept-First d t off offs none passed h = λ a found. elim (Bool-cases (a == off)) [
  | inl same ↦ ground arith
  | inr differ ↦ h a (rw differ at found)
]
kept-First d t off offs (some s) passed (a, found, at, later, least) = (
  a,
  ground arith,
  at,
  later,
  λ b found_b below. elim (Bool-cases (b == off)) [
    | inl same ↦ ground arith
    | inr differ ↦ least b (rw differ at found_b) below
  ],
)

first_after-First :
    (d t : ℕ) (offs : List ℕ)
    → Ascending offs
    → First d t offs (first_after (d * ns_per_day) t offs)
unfolding first_after First
first_after-First d t [] h = λ a found. absurd (false≢true found)
first_after-First d t (off ∷ offs) (later, h) = elim (Bool-cases (ltb t (d * ns_per_day + off))) [
  | inl ahead ↦ rw ahead (
    off,
    ground arith,
    refl,
    ground arith,
    λ b found below. not_before d t off b offs later found below,
  )
  | inr behind ↦ rw behind (
      kept-First d t off offs (first_after (d * ns_per_day) t offs) (ground arith)
        (first_after-First d t offs h))
]

not_due :
    (offs : List ℕ) (u : ℕ)
    → ((is_in (u % ns_per_day) offs ≡ true) → ⊥)
    → is_funding_time offs u ≡ false
unfolding is_funding_time
not_due offs u h = elim (Bool-cases (is_in (u % ns_per_day) offs)) [
  | inl due ↦ absurd (h due)
  | inr free ↦ free
]

least_today :
    (t a : ℕ) (offs : List ℕ)
    → a < ns_per_day
    → ((b : ℕ) → is_in b offs ≡ true → b < a → t / ns_per_day * ns_per_day + b ≤ t)
    → (u : ℕ) → t < u
    → u < t / ns_per_day * ns_per_day + a
    → is_funding_time offs u ≡ false
least_today t a offs below least u after before =
    not_due offs u
      (λ due. let passed = least (u % ns_per_day) due (omega arith) in absurd (omega arith))

least_tomorrow :
    (t off : ℕ) (offs : List ℕ)
    → off < ns_per_day
    → All (λ later. off < later) offs
    → ((b : ℕ) → is_in b (off ∷ offs) ≡ true → t / ns_per_day * ns_per_day + b ≤ t)
    → (u : ℕ) → t < u
    → u < t / ns_per_day * ns_per_day + ns_per_day + off
    → is_funding_time (off ∷ offs) u ≡ false
least_tomorrow t off offs below later passed u after before = not_due (off ∷ offs) u (λ due.
    elim (Bool-cases (u / ns_per_day == t / ns_per_day)) [
      | inl today ↦ let gone = passed (u % ns_per_day) due in absurd (ground arith)
      | inr not_today ↦ elim (Bool-cases (u % ns_per_day == off)) [
        | inl first ↦ absurd (ground arith)
        | inr differ ↦
            let beyond = is_in-All (λ c. off < c) (u % ns_per_day) offs later (rw differ at due) in
            absurd (ground arith)
      ]
    ])

due_at :
    (d a : ℕ) (offs : List ℕ)
    → a < ns_per_day
    → is_in a offs ≡ true
    → is_funding_time offs (d * ns_per_day + a) ≡ true
unfolding is_funding_time
due_at d a offs h listed =
    let offset : (d * ns_per_day + a) % ns_per_day ≡ a = omega arith in rw offset listed

-- A value of `next_funding_time` that is what it should be.
IsNext : List ℕ → ℕ → Option ℕ → Type 0
IsNext offs t out =
    (s : ℕ) × (out ≡ some s)
    × (t < s)
    × (is_funding_time offs s ≡ true)
    × ((u : ℕ) → t < u → u < s → is_funding_time offs u ≡ false)

tomorrow-IsNext :
    (t off : ℕ) (offs : List ℕ) (out : Option ℕ)
    → WithinDay (off ∷ offs)
    → Ascending (off ∷ offs)
    → First (t / ns_per_day) t (off ∷ offs) out
    → IsNext (off ∷ offs) t (tomorrow (t / ns_per_day * ns_per_day) (off ∷ offs) out)
unfolding First IsNext tomorrow
tomorrow-IsNext t off offs none within order passed =
    let next_day : (t / ns_per_day + 1) * ns_per_day + off
        ≡ t / ns_per_day * ns_per_day + ns_per_day + off =
      omega arith in
    (
      t / ns_per_day * ns_per_day + ns_per_day + off,
      refl,
      omega arith,
      rw next_day at (due_at (t / ns_per_day + 1) off (off ∷ offs) (within.0) (ground arith)),
      least_tomorrow t off offs (within.0) (order.0) passed,
    )
tomorrow-IsNext t off offs (some s) within order (a, listed, at, later, least) =
    let below = is_in-All (λ c. c < ns_per_day) a (off ∷ offs) within listed in
    (
      s,
      refl,
      later,
      rw at (due_at (t / ns_per_day) a (off ∷ offs) below listed),
      λ u after before. least_today t a (off ∷ offs) below least u after (rw at at before),
    )

-- With at least one funding hour, the hours in order and within the day, the next funding time of any
-- moment is found; it is strictly later, it is a funding time, and no funding time lies in between.
pub next_funding_time-least :
    (off : ℕ) (offs : List ℕ) (t : ℕ)
    → WithinDay (off ∷ offs)
    → Ascending (off ∷ offs)
    → (s : ℕ) × (next_funding_time (off ∷ offs) t ≡ some s)
      × (t < s)
      × (is_funding_time (off ∷ offs) s ≡ true)
      × ((u : ℕ) → t < u → u < s → is_funding_time (off ∷ offs) u ≡ false)
unfolding next_funding_time IsNext
next_funding_time-least off offs t within order =
    let start : t / ns_per_day * ns_per_day ≡ day_of t = omega arith in
    subst
      (λ day. IsNext (off ∷ offs) t (tomorrow day (off ∷ offs) (first_after day t (off ∷ offs))))
      start
      (tomorrow-IsNext t off offs (first_after (t / ns_per_day * ns_per_day) t (off ∷ offs)) within
        order (first_after-First (t / ns_per_day) t (off ∷ offs) order))
