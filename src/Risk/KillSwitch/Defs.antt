-- ===== src/Risk/KillSwitch/Defs.antt =====
-- risk/killswitch.py. `clock` is the reading of the injected clock, if there is one. A release hands its
-- record to the audit sink, so the record is part of the result.
use fuzz_helm.Base.{
  ℕ, ◌+◌, Bool, true, false, not, Option, none, some, String, Result, ok, ◌>>◌, raise_if,
  permission_denied, if◌then◌else◌,
}
use fuzz_helm.Base.Int.{ℤ, pos}
use fuzz_helm.Core.Enums.{Role, is_admin}
use fuzz_helm.Core.Value.{Value, Fields, opt_text, opt_int}

-- risk/journal.py: a row of the audit log.
pub record AuditRecord : Type 0 where
  pub ts_ns : ℤ
  pub action : String
  pub target : String
  pub actor_role : Role
  pub actor : Option String
  pub before : Fields
  pub after : Fields

pub record KillSwitch : Type 0 where
  pub tripped : Bool
  pub reason : Option String
  pub tripped_at_ns : Option ℤ
  pub trip_count : ℕ

-- `KillSwitch()`
abbrev pub fresh : KillSwitch
fresh = record { tripped = false; reason = none; tripped_at_ns = none; trip_count = 0 }

-- `self._tripped_at_ns or 0`
abbrev pub tripped_or_zero : Option ℤ → ℤ
tripped_or_zero none = pos 0
tripped_or_zero (some t) = t

-- `_now(ts_ns)`: the explicit time, else the clock, else the time of the trip.
unfoldable pub now : KillSwitch → Option ℤ → Option ℤ → ℤ
now k clock (some ts) = ts
now k (some t) none = t
now k none none = tripped_or_zero k.tripped_at_ns

-- The Boolean says whether this call tripped an open latch.
unfoldable pub trip : KillSwitch → Option ℤ → String → Option ℤ → KillSwitch × Bool
unfolding now
trip k clock why ts = if k.tripped then (k, false) else (
  record {
    tripped = true;
    reason = some why;
    tripped_at_ns = some (now k clock ts);
    trip_count = k.trip_count + 1;
  },
  true,
)

-- `state()`
unfoldable pub state : KillSwitch → Fields
state k = Fields.field "tripped" (Value.bool k.tripped) (
    Fields.field "reason" (opt_text k.reason)
      (Fields.field "tripped_at_ns" (opt_int k.tripped_at_ns) Fields.end))

-- What a release leaves of the switch.
abbrev pub opened : KillSwitch → KillSwitch
opened k = record k { tripped = false; reason = none; tripped_at_ns = none }

abbrev pub release_record : KillSwitch → Option ℤ → Role → Option String → Option ℤ → AuditRecord
release_record k clock role actor ts = record {
  ts_ns = now k clock ts;
  action = "killswitch.release";
  target = "kill_switch";
  actor_role = role;
  actor = actor;
  before = state k;
  after = state (opened k);
}

unfoldable pub release :
    KillSwitch
    → Option ℤ
    → Role
    → Option String
    → Option ℤ
    → Result (KillSwitch × Option AuditRecord)
unfolding now state
release k clock role actor ts = do
  raise_if (not (is_admin role)) permission_denied
  ok (if k.tripped then (opened k, some (release_record k clock role actor ts)) else (k, none))
