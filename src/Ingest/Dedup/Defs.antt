-- ===== src/Ingest/Dedup/Defs.antt =====
-- `Deduplicator` of ingest/dedup.py. An event is a candle, or one of the other kinds, of which only the
-- identifier and the two times are looked at. `later` stands for the comparison of the BLAKE2b digests of
-- the canonical bytes of two events.
use fuzz_helm.Base.{
  ℕ, ◌+◌, Bool, true, false, Option, none, some, String, List, [], ◌∷◌, ◌++◌, length, ltb, Result,
  ok, ◌>>◌, raise_if, value_error, if◌then◌else◌,
}
use text.Mathlib.Text.{◌==◌ as str_eq}
use fuzz_helm.Base.Int.{ℤ, pos, ltb_ℤ, neg_int}
use fuzz_helm.Core.Dto.{Candle, Src}

pub record OtherEvent : Type 0 where
  pub ts_event_ns : ℤ
  pub ts_ingest_ns : ℤ
  pub event_uid : String

pub data MarketEvent : Type 0 where
  candle : Candle → MarketEvent
  other : OtherEvent → MarketEvent

abbrev pub uid_of : MarketEvent → String
uid_of (MarketEvent.candle c) = c.event_uid
uid_of (MarketEvent.other e) = e.event_uid

-- `int(src)`
abbrev src_number : Src → ℕ
src_number Src.ws = 1
src_number Src.rest = 2
src_number Src.replay = 3

abbrev closed_number : Bool → ℤ
closed_number true = pos 1
closed_number false = pos 0

unfoldable pub precedence : MarketEvent → List ℤ
precedence (MarketEvent.candle c) =
    closed_number c.is_closed
    ∷ neg_int (pos (src_number c.src))
    ∷ c.ts_event_ns
    ∷ neg_int c.ts_ingest_ns
    ∷ []
precedence (MarketEvent.other e) = pos 1 ∷ pos 0 ∷ e.ts_event_ns ∷ neg_int e.ts_ingest_ns ∷ []

pub data Comparison : Type 0 where
  above equal below : Comparison

-- Two tuples of one length, compared from the left.
unfoldable pub compare_keys : List ℤ → List ℤ → Comparison
compare_keys (a ∷ ks) (b ∷ ls) =
    if ltb_ℤ b a
    then Comparison.above
    else if ltb_ℤ a b
    then Comparison.below
    else compare_keys ks ls
compare_keys _ _ = Comparison.equal

pub data DedupOutcome : Type 0 where
  new duplicate replaced : DedupOutcome

pub record Deduplicator : Type 0 where
  pub max_size : Option ℕ
  pub events : List (String × MarketEvent)
  pub new_count : ℕ
  pub duplicate_count : ℕ
  pub replaced_count : ℕ

-- `Deduplicator(max_size)`
abbrev too_small : Option ℕ → Bool
too_small none = false
too_small (some n) = ltb n 1

unfoldable pub deduplicator : Option ℕ → Result Deduplicator
deduplicator max_size = do
  raise_if (too_small max_size) value_error
  ok (record {
    max_size = max_size;
    events = [];
    new_count = 0;
    duplicate_count = 0;
    replaced_count = 0;
  })

unfoldable pub get : List (String × MarketEvent) → String → Option MarketEvent
get [] uid = none
get ((k, e) ∷ rest) uid = if str_eq k uid then some e else get rest uid

-- An event under a uid that is there already, at its place.
unfoldable pub put :
    List (String × MarketEvent) → String → MarketEvent → List (String × MarketEvent)
put [] uid e = (uid, e) ∷ []
put ((k, old) ∷ rest) uid e = if str_eq k uid then (k, e) ∷ rest else (k, old) ∷ put rest uid e

abbrev drop_first : List (String × MarketEvent) → List (String × MarketEvent)
drop_first [] = []
drop_first (e ∷ es) = es

abbrev is_over : Option ℕ → ℕ → Bool
is_over none n = false
is_over (some m) n = ltb m n

-- What remains where the oldest event has to go.
unfoldable pub evicted : Option ℕ → List (String × MarketEvent) → List (String × MarketEvent)
evicted max_size es = if is_over max_size (length es) then drop_first es else es

module _ (later : MarketEvent → MarketEvent → Bool) where
  -- `_outranks(new, old)`
  unfoldable pub outranks : MarketEvent → MarketEvent → Bool
  outranks e old = elim (compare_keys (precedence e) (precedence old)) [
    | Comparison.above ↦ true
    | Comparison.below ↦ false
    | Comparison.equal ↦ later e old
  ]

  unfoldable pub offer : Deduplicator → MarketEvent → DedupOutcome × Deduplicator
  unfolding outranks evicted get put
  offer d e = elim (get d.events (uid_of e)) [
    | none ↦ (
      DedupOutcome.new,
      record d {
        events = evicted d.max_size (d.events ++ ((uid_of e, e) ∷ []));
        new_count = d.new_count + 1;
      },
    )
    | some old ↦
        if outranks e old
        then (
          DedupOutcome.replaced,
          record d { events = put d.events (uid_of e) e; replaced_count = d.replaced_count + 1 },
        )
        else (DedupOutcome.duplicate, record d { duplicate_count = d.duplicate_count + 1 })
  ]

  abbrev kept : DedupOutcome → MarketEvent → List MarketEvent → List MarketEvent
  kept DedupOutcome.duplicate e es = es
  kept _ e es = e ∷ es

  -- `offer_all`: what was new or replaced an event, in the order of arrival.
  unfoldable pub offer_all : Deduplicator → List MarketEvent → List MarketEvent × Deduplicator
  unfolding offer
  offer_all d [] = ([], d)
  offer_all d (e ∷ es) =
      let (outcome, d') = offer d e in
      let (rest, after) = offer_all d' es in (kept outcome e rest, after)
