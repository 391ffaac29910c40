-- ===== src/Risk/KillSwitch/Laws.antt =====
-- The latch: the first reason stays until an administrator releases it.
use fuzz_helm.Base.{
  ◌+◌, ◌≡◌, ◌↔◌, Bool-cases, ◌≢◌, refl, inl, inr, true, false, Option, none, some, String, List, [],
  ◌∷◌, ok, err, permission_denied, arith,
}
use fuzz_helm.Base.Int.{ℤ}
use fuzz_helm.Core.Enums.{Role}
use fuzz_helm.Risk.KillSwitch.Defs.{
  KillSwitch, AuditRecord, trip, release, now, opened, release_record,
}

-- A run of trips, each with its reason and time.
pub trip_all : KillSwitch → Option ℤ → List (String × Option ℤ) → KillSwitch
trip_all k clock [] = k
trip_all k clock ((why, ts) ∷ rest) = trip_all (trip k clock why ts).0 clock rest

trip_tripped :
    (k : KillSwitch) (clock : Option ℤ) (why : String) (ts : Option ℤ)
    → k.tripped ≡ true
    → (trip k clock why ts).0 ≡ k
unfolding trip
trip_tripped k clock why ts h = ground arith

trip_all_tripped :
    (k : KillSwitch) (clock : Option ℤ) (calls : List (String × Option ℤ))
    → k.tripped ≡ true
    → trip_all k clock calls ≡ k
unfolding trip_all
trip_all_tripped k clock [] h = refl
trip_all_tripped k clock ((why, ts) ∷ rest) h =
    rw (trip_tripped k clock why ts h) (trip_all_tripped k clock rest h)

-- The switch after it was tripped for a reason.
abbrev pub tripped_for : KillSwitch → Option ℤ → String → Option ℤ → KillSwitch
tripped_for k clock why ts = record {
  tripped = true;
  reason = some why;
  tripped_at_ns = some (now k clock ts);
  trip_count = k.trip_count + 1;
}

trip_open :
    (k : KillSwitch) (clock : Option ℤ) (why : String) (ts : Option ℤ)
    → k.tripped ≡ false
    → (trip k clock why ts).0 ≡ tripped_for k clock why ts
unfolding trip
trip_open k clock why ts h = ground arith

-- Of a run of trips of an open switch the first one counts: its reason and its time stay, and the
-- counter grows by one.
pub trip_all-first :
    (k : KillSwitch) (clock : Option ℤ) (why : String) (ts : Option ℤ)
    (rest : List (String × Option ℤ))
    → k.tripped ≡ false
    → trip_all k clock ((why, ts) ∷ rest) ≡ tripped_for k clock why ts
unfolding trip_all
trip_all-first k clock why ts rest h =
    rw (trip_open k clock why ts h) (trip_all_tripped (tripped_for k clock why ts) clock rest refl)

-- Only an administrator opens the switch; anyone else gets an exception, tripped or not.
pub release_denied :
    (k : KillSwitch) (clock : Option ℤ) (role : Role) (actor : Option String) (ts : Option ℤ)
    → role ≢ Role.admin
    → release k clock role actor ts ≡ err permission_denied
unfolding release
release_denied k clock role actor ts h = ground arith

-- A release by an administrator leaves an open switch, keeps the trip counter, and writes an audit
-- record exactly where the switch was tripped.
pub release-opens :
    (k : KillSwitch) (clock : Option ℤ) (actor : Option String) (ts : Option ℤ)
    → (k' : KillSwitch) × (audit : Option AuditRecord) × (release k clock Role.admin actor ts
        ≡ ok (k', audit))
      × (k'.tripped ≡ false)
      × (k'.trip_count ≡ k.trip_count)
      × ((audit ≡ none) ↔ (k.tripped ≡ false))
unfolding release
release-opens k clock actor ts = elim (Bool-cases k.tripped) [
  | inl h ↦ (
    opened k,
    some (release_record k clock Role.admin actor ts),
    rw h,
    refl,
    refl,
    (λ e. cc, λ e. cc),
  )
  | inr h ↦ (k, none, rw h, h, refl, (λ e. h, λ e. refl))
]
