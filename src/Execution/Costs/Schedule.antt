-- ===== src/Execution/Costs/Schedule.antt =====
-- The times at which funding is due: what the two walks over the days find.
use fuzz_helm.Base.{
  ℕ, zero, suc, ◌+◌, ◌*◌, ◌/◌, ◌%◌, ◌≤◌, ◌<◌, ◌==◌, Bool, false, ◌&&◌, ◌||◌, List, [], ◌∷◌, ◌++◌,
  Option, some, ltb, leb, ◌≡◌, refl, ◌∙◌, arith, inl, inr, Bool-cases, All,
}
use fuzz_helm.Core.Clock.{ns_per_day}
use fuzz_helm.Execution.Costs.Funding.{
  is_in, day_of, is_funding_time, times_of_day, joined, times_from, funding_times,
}

-- The offsets are times of a day.
abbrev pub WithinDay : List ℕ → Type 0
WithinDay offs = All (λ off. off < ns_per_day) offs

day_parts : (u : ℕ) → u ≡ u / ns_per_day * ns_per_day + u % ns_per_day
day_parts u = omega arith

at_offset :
    (d off u : ℕ)
    → off < ns_per_day
    → (u == d * ns_per_day + off) ≡ ((u / ns_per_day == d) && (u % ns_per_day == off))
at_offset d off u h = ground arith

is_in-append : (u : ℕ) (xs ys : List ℕ) → is_in u (xs ++ ys) ≡ (is_in u xs || is_in u ys)
is_in-append u [] ys = refl
is_in-append u (x ∷ xs) ys = ground (arith, is_in-append u xs ys)

is_in-times_of_day :
    (d t_from t_to u : ℕ) (offs : List ℕ)
    → WithinDay offs
    → is_in u (times_of_day (d * ns_per_day) t_from t_to offs)
      ≡ ((ltb t_from u && leb u t_to) && ((u / ns_per_day == d) && is_in (u % ns_per_day) offs))
unfolding times_of_day
is_in-times_of_day d t_from t_to u [] h = ground arith
is_in-times_of_day d t_from t_to u (off ∷ offs) (below, h) =
    ground (arith, is_in-times_of_day d t_from t_to u offs h, at_offset d off u below)

-- What `times_from` should find.
abbrev due : ℕ → ℕ → ℕ → List ℕ → ℕ → Bool
due d t_from t_to offs u =
    leb d (u / ns_per_day) && ((ltb t_from u && leb u t_to) && is_in (u % ns_per_day) offs)

-- A result with the times that satisfy the test, and no others.
Found : Option (List ℕ) → (ℕ → Bool) → Type 0
Found out test = (ts : List ℕ) × (out ≡ some ts) × ((u : ℕ) → is_in u ts ≡ test u)

joined-Found :
    (xs : List ℕ) (rest : Option (List ℕ)) (p q r : ℕ → Bool)
    → ((u : ℕ) → is_in u xs ≡ p u)
    → Found rest q
    → ((u : ℕ) → (p u || q u) ≡ r u)
    → Found (joined xs rest) r
unfolding Found joined
joined-Found xs rest p q r hp (ys, found, hq) hr =
    (xs ++ ys, rw found refl, λ u. is_in-append u xs ys ∙ rw (hp u, hq u) (hr u))

past_end :
    (d t_from t_to u : ℕ) (offs : List ℕ)
    → leb (d * ns_per_day) t_to ≡ false
    → false ≡ due d t_from t_to offs u
past_end d t_from t_to u offs h = ground (arith, day_parts u)

day_and_rest :
    (d t_from t_to u : ℕ) (b : Bool)
    → (((ltb t_from u && leb u t_to) && ((u / ns_per_day == d) && b))
        || (leb (d + 1) (u / ns_per_day) && ((ltb t_from u && leb u t_to) && b)))
      ≡ (leb d (u / ns_per_day) && ((ltb t_from u && leb u t_to) && b))
day_and_rest d t_from t_to u b = ground arith

nothing_due :
    (d t_from t_to : ℕ) (offs : List ℕ)
    → leb (d * ns_per_day) t_to ≡ false
    → Found (some []) (due d t_from t_to offs)
unfolding Found
nothing_due d t_from t_to offs ends = ([], refl, λ u. past_end d t_from t_to u offs ends)

times_from-Found :
    (fuel d t_from t_to : ℕ) (offs : List ℕ)
    → WithinDay offs
    → t_to / ns_per_day + 2 ≤ fuel + d
    → 1 ≤ fuel
    → Found (times_from fuel (d * ns_per_day) t_from t_to offs) (due d t_from t_to offs)
unfolding times_from
times_from-Found zero d t_from t_to offs h enough some_fuel = absurd (omega arith)
times_from-Found (suc fuel) d t_from t_to offs h enough some_fuel =
    elim (Bool-cases (leb (d * ns_per_day) t_to)) [
      | inl goes_on ↦
          let next_day : d * ns_per_day + ns_per_day ≡ (d + 1) * ns_per_day = omega arith in
          rw (goes_on, next_day)
            (joined-Found (times_of_day (d * ns_per_day) t_from t_to offs)
              (times_from fuel ((d + 1) * ns_per_day) t_from t_to offs)
              (λ u.
                (ltb t_from u && leb u t_to)
                && ((u / ns_per_day == d) && is_in (u % ns_per_day) offs))
              (due (d + 1) t_from t_to offs) (due d t_from t_to offs)
              (λ u. is_in-times_of_day d t_from t_to u offs h)
              (times_from-Found fuel (d + 1) t_from t_to offs h (omega arith) (ground arith))
              (λ u. day_and_rest d t_from t_to u (is_in (u % ns_per_day) offs)))
      | inr ends ↦ rw ends (nothing_due d t_from t_to offs ends)
    ]

start_day :
    (t_from t_to u : ℕ) (b : Bool)
    → (leb (t_from / ns_per_day) (u / ns_per_day) && ((ltb t_from u && leb u t_to) && b))
      ≡ ((ltb t_from u && leb u t_to) && b)
start_day t_from t_to u b = ground arith

-- The walk of `funding_times` over the days ends before its fuel runs out, for every interval, and finds
-- exactly the funding times after the start and not after the end. The offsets are times of a day.
pub funding_times-due :
    (offs : List ℕ) (t_from t_to : ℕ)
    → WithinDay offs
    → (ts : List ℕ) × (funding_times offs t_from t_to ≡ some ts)
      × ((u : ℕ) → is_in u ts ≡ ((ltb t_from u && leb u t_to) && is_funding_time offs u))
unfolding funding_times is_funding_time Found
funding_times-due offs t_from t_to h = elim (Bool-cases (leb t_to t_from)) [
  | inl empty ↦ rw empty ([], refl, λ u. ground arith)
  | inr days ↦
      let first_day : day_of t_from ≡ t_from / ns_per_day * ns_per_day = omega arith in
      let (ts, found, spec) =
        times_from-Found (t_to / ns_per_day + 2) (t_from / ns_per_day) t_from t_to offs h
          (omega arith) (omega arith) in
      rw (days, first_day)
        (ts, found, λ u. spec u ∙ start_day t_from t_to u (is_in (u % ns_per_day) offs))
]
