-- ===== src/Core/Clock.antt =====
-- core/clock.py: the clocks and the start of a UTC day. Times are nanoseconds since the epoch.
use fuzz_helm.Base.{ℕ, ◌*◌, Result, ok, ◌>>◌, raise_if, value_error}
use fuzz_helm.Base.Int.{ℤ, pos, ◌+ℤ◌, ◌-ℤ◌, ltb_ℤ, mod_ℤ}

abbrev pub ns_per_sec : ℕ
ns_per_sec = 1_000_000_000

abbrev pub ns_per_day : ℕ
ns_per_day = 86_400 * ns_per_sec

-- `FixedClock`: it always reads the time that it was made with.
pub record FixedClock : Type 0 where
  pub fixed_t : ℤ

unfoldable pub fixed_now_ns : FixedClock → ℤ
fixed_now_ns c = c.fixed_t

-- `ManualClock`: the state is the time.
pub record ManualClock : Type 0 where
  pub t : ℤ

unfoldable pub now_ns : ManualClock → ℤ
now_ns c = c.t

unfoldable pub set : ManualClock → ℤ → Result ManualClock
set c t_ns = do raise_if (ltb_ℤ t_ns c.t) value_error; ok (record { t = t_ns })

unfoldable pub advance : ManualClock → ℤ → Result ManualClock
unfolding set
advance c dt = set c (c.t +ℤ dt)

unfoldable pub utc_day_start_ns : ℤ → ℤ
utc_day_start_ns t = t -ℤ pos (mod_ℤ t ns_per_day)
