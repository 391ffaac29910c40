-- ===== src/Ingest/Watchdog/Silence.antt =====
-- One silence, one firing; and which closes end the attempts to reconnect.
use fuzz_helm.Base.{
  ℕ, ◌+◌, ◌≤◌, ◌<◌, ◌≡◌, ◌≢◌, ◌↔◌, refl, true, false, ◌⊎◌, inl, inr, some, List, [], ◌∷◌, arith,
}
use fuzz_helm.Base.Int.{ℤ}
use fuzz_helm.Ingest.Watchdog.Defs.{
  HeartbeatWatchdog, poll, deadline_ns, expired, is_fatal, classify_close_code,
  classify_http_status,
}

-- A run of polls without a frame between them.
abbrev pub polls : HeartbeatWatchdog → List ℤ → HeartbeatWatchdog
polls w [] = w
polls w (t ∷ ts) = polls (poll w t).1 ts

poll_disarmed : (w : HeartbeatWatchdog) (t : ℤ) → w.armed ≡ false → (poll w t).1 ≡ w
unfolding poll deadline_ns
poll_disarmed w t h = ground arith

polls_disarmed : (w : HeartbeatWatchdog) (ts : List ℤ) → w.armed ≡ false → polls w ts ≡ w
polls_disarmed w [] h = refl
polls_disarmed w (t ∷ ts) h = rw (poll_disarmed w t h) (polls_disarmed w ts h)

-- A poll leaves the watchdog as it is, or fires: then it was armed, and is not any more.
poll-cases :
    (w : HeartbeatWatchdog) (t : ℤ)
    → ((poll w t).1 ≡ w) ⊎ ((poll w t).1 ≡ record w { armed = false; fires = w.fires + 1 })
unfolding poll deadline_ns
poll-cases w t = ground arith

-- Polls without a frame between them, in any number and at any times, count at most one firing.
pub polls-fires : (w : HeartbeatWatchdog) (ts : List ℤ) → (polls w ts).fires ≤ w.fires + 1
polls-fires w [] = omega arith
polls-fires w (t ∷ ts) = elim (poll-cases w t) [
  | inl e ↦ rw (polls, e) (polls-fires w ts)
  | inr e ↦
      rw (polls, e, polls_disarmed (record w { armed = false; fires = w.fires + 1 }) ts refl)
        (omega arith)
]

-- An armed watchdog fires at a poll exactly when the deadline has passed.
pub poll-expired :
    (w : HeartbeatWatchdog) (now : ℤ)
    → w.armed ≡ true
    → ((poll w now).1.fires ≡ w.fires + 1) ↔ (expired w now ≡ true)
unfolding poll deadline_ns expired
poll-expired w now h = ground arith

-- The close codes that end the attempts to reconnect are 1002, 1003, 1007, 1009 and 1010.
pub classify-is_fatal :
    (c : ℕ)
    → (is_fatal (classify_close_code (some c)) ≡ true)
      ↔ ((c ≡ 1002) ⊎ ((c ≡ 1003) ⊎ ((c ≡ 1007) ⊎ ((c ≡ 1009) ⊎ (c ≡ 1010)))))
unfolding classify_close_code
classify-is_fatal c = ground arith

-- The handshake statuses that end the attempts are those from 400 to 499 but 418 and 429.
pub classify_http-is_fatal :
    (s : ℕ)
    → (is_fatal (classify_http_status s) ≡ true) ↔ ((400 ≤ s) × (s < 500) × (s ≢ 418) × (s ≢ 429))
unfolding classify_http_status
classify_http-is_fatal s = ground arith
