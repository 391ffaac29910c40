-- ===== src/Ingest/Watchdog/Defs.antt =====
-- `HeartbeatWatchdog` and the classification of closes of ingest/reconnect.py. The timeout is given in
-- nanoseconds, as the constructor rounds it.
use fuzz_helm.Base.{
  ℕ, ◌+◌, Bool, true, false, not, ◌&&◌, ◌||◌, Option, none, some, ltb, leb, ◌==◌, if◌then◌else◌,
}
use fuzz_helm.Base.Int.{ℤ, pos, ◌+ℤ◌, ◌-ℤ◌, ltb_ℤ, leb_ℤ}

pub record HeartbeatWatchdog : Type 0 where
  pub timeout_ns : ℕ
  pub last_ns : Option ℤ
  pub fires : ℕ
  pub armed : Bool

unfoldable pub beat : HeartbeatWatchdog → ℤ → HeartbeatWatchdog
beat w t = record w { last_ns = some t; armed = true }

unfoldable pub disarm : HeartbeatWatchdog → HeartbeatWatchdog
disarm w = record w { armed = false }

unfoldable pub deadline_ns : HeartbeatWatchdog → Option ℤ
deadline_ns w = elim w.last_ns [ none ↦ none | some t ↦ some (t +ℤ pos w.timeout_ns) ]

unfoldable pub expired : HeartbeatWatchdog → ℤ → Bool
unfolding deadline_ns
expired w now = elim (deadline_ns w) [ none ↦ false | some d ↦ leb_ℤ d now ]

-- `poll(now_ns)`: the moment of the firing, if there is one.
unfoldable pub poll : HeartbeatWatchdog → ℤ → Option ℤ × HeartbeatWatchdog
unfolding deadline_ns
poll w now = elim (deadline_ns w) [
  | none ↦ (none, w)
  | some d ↦
      if not w.armed || ltb_ℤ now d
      then (none, w)
      else (some d, record w { armed = false; fires = w.fires + 1 })
]

-- `check_gap(t_ns)`
unfoldable pub check_gap : HeartbeatWatchdog → ℤ → Option ℤ × HeartbeatWatchdog
unfolding beat
check_gap w t = elim w.last_ns [
  | none ↦ (none, beat w t)
  | some last ↦
      if ltb_ℤ (pos w.timeout_ns) (t -ℤ last)
      then (some (last +ℤ pos w.timeout_ns), beat (record w { fires = w.fires + 1 }) t)
      else (none, beat w t)
]

pub data CloseClass : Type 0 where
  normal going_away transient server_error rate_limited : CloseClass
  heartbeat_timeout protocol_error handshake_rejected : CloseClass

-- `FATAL`
abbrev pub is_fatal : CloseClass → Bool
is_fatal CloseClass.protocol_error = true
is_fatal CloseClass.handshake_rejected = true
is_fatal _ = false

-- `classify_close_code`, with the table `_BY_CODE`.
unfoldable pub classify_close_code : Option ℕ → CloseClass
classify_close_code none = CloseClass.transient
classify_close_code (some c) =
    if c == 1000
    then CloseClass.normal
    else if c == 1001 || c == 1012
    then CloseClass.going_away
    else if c == 1005 || c == 1006
    then CloseClass.transient
    else if c == 1011 || (c == 1013 || c == 1014)
    then CloseClass.server_error
    else if c == 1008
    then CloseClass.rate_limited
    else if c == 1002 || (c == 1003 || (c == 1007 || (c == 1009 || c == 1010)))
    then CloseClass.protocol_error
    else if leb 4000 c && ltb c 5000
    then CloseClass.server_error
    else CloseClass.transient

unfoldable pub classify_http_status : ℕ → CloseClass
classify_http_status s =
    if s == 418 || s == 429
    then CloseClass.rate_limited
    else if leb 500 s && ltb s 600
    then CloseClass.server_error
    else if leb 400 s && ltb s 500
    then CloseClass.handshake_rejected
    else CloseClass.transient
