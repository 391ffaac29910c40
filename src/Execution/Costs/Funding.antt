-- ===== src/Execution/Costs/Funding.antt =====
-- execution/cost_model.py: when the funding is due. Times are nanoseconds since the epoch, which the
-- data transfer objects keep from being negative.
use fuzz_helm.Base.{
  ℕ, zero, suc, ◌+◌, ◌-◌, ◌*◌, ◌/◌, ◌%◌, ◌==◌, Bool, false, ◌&&◌, ◌||◌, List, [], ◌∷◌, ◌++◌, map,
  Option, none, some, ltb, leb, if◌then◌else◌,
}
use fuzz_helm.Core.Clock.{ns_per_day}
use fuzz_helm.Execution.Costs.Defs.{CostModelConfig}

-- `NS_PER_HOUR`
abbrev ns_per_hour : ℕ
ns_per_hour = 3_600_000_000_000

-- `_funding_offsets_ns`
unfoldable pub offsets : CostModelConfig → List ℕ
offsets c = map (λ h. h * ns_per_hour) c.funding_hours_utc

abbrev pub is_in : ℕ → List ℕ → Bool
is_in a [] = false
is_in a (b ∷ bs) = a == b || is_in a bs

-- The start of the UTC day of a time.
abbrev pub day_of : ℕ → ℕ
day_of t = t - t % ns_per_day

unfoldable pub is_funding_time : List ℕ → ℕ → Bool
is_funding_time offs t = is_in (t % ns_per_day) offs

-- The loop of `next_funding_time`; without an offset there would be an `IndexError` after it.
unfoldable pub first_after : ℕ → ℕ → List ℕ → Option ℕ
first_after day t [] = none
first_after day t (off ∷ offs) =
    let later = first_after day t offs in if ltb t (day + off) then some (day + off) else later

unfoldable pub tomorrow : ℕ → List ℕ → Option ℕ → Option ℕ
tomorrow day offs (some t) = some t
tomorrow day [] none = none
tomorrow day (off ∷ offs) none = some (day + ns_per_day + off)

-- `next_funding_time`, none where the source would raise.
unfoldable pub next_funding_time : List ℕ → ℕ → Option ℕ
unfolding first_after tomorrow
next_funding_time offs t = tomorrow (day_of t) offs (first_after (day_of t) t offs)

-- The inner loop of `funding_times`.
unfoldable pub times_of_day : ℕ → ℕ → ℕ → List ℕ → List ℕ
times_of_day day t_from t_to [] = []
times_of_day day t_from t_to (off ∷ offs) =
    let rest = times_of_day day t_from t_to offs in
    if ltb t_from (day + off) && leb (day + off) t_to then (day + off) ∷ rest else rest

unfoldable pub joined : List ℕ → Option (List ℕ) → Option (List ℕ)
joined xs none = none
joined xs (some ys) = some (xs ++ ys)

-- The loop over the days, on fuel; none where the fuel runs out.
unfoldable pub times_from : ℕ → ℕ → ℕ → ℕ → List ℕ → Option (List ℕ)
unfolding times_of_day joined
times_from zero day t_from t_to offs = none
times_from (suc fuel) day t_from t_to offs =
    let rest = times_from fuel (day + ns_per_day) t_from t_to offs in
    if leb day t_to then joined (times_of_day day t_from t_to offs) rest else some []

-- `funding_times`: a round for every day, and one that ends the loop.
unfoldable pub funding_times : List ℕ → ℕ → ℕ → Option (List ℕ)
unfolding times_from
funding_times offs t_from t_to =
    if leb t_to t_from
    then some []
    else times_from (t_to / ns_per_day + 2) (day_of t_from) t_from t_to offs
