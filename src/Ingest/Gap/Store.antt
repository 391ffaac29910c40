-- ===== src/Ingest/Gap/Store.antt =====
-- The gaps that a `GapDetector` of ingest/gap_detector.py has found: opening one, filling its keys one by
-- one, and the attempts to fill it from the exchange. `now` is the reading of the clock. A set of keys is
-- a list without repetitions; a dict is a list of pairs in the order of insertion.
use fuzz_helm.Base.{
  ℕ, ◌+◌, ◌-◌, Bool, true, false, not, ◌&&◌, ◌==◌, Option, none, some, String, List, [], ◌∷◌, ◌++◌,
  length, Result, ok, err, ◌>>=◌, key_error, if◌then◌else◌,
}
use fuzz_helm.Base.Int.{ℤ, eqb_ℤ}
use fuzz_helm.Core.Enums.{Stream, GapStatus, GapDetectorKind}
use fuzz_helm.Ingest.Gap.Defs.{GapRecord, transition, same_status}

abbrev same_stream : Stream → Stream → Bool
same_stream Stream.klines Stream.klines = true
same_stream Stream.trades Stream.trades = true
same_stream Stream.depth Stream.depth = true
same_stream Stream.mark Stream.mark = true
same_stream _ _ = false

-- A key of a stream, and the gap that it is missing from.
pub record Owned : Type 0 where
  pub stream : Stream
  pub key : ℤ
  pub gap_id : ℕ

pub record GapStore : Type 0 where
  pub instrument : String
  pub latest_ns : Option ℤ
  pub gaps : List (ℕ × GapRecord)
  pub missing : List (ℕ × List ℤ)
  pub owner : List Owned
  pub next_id : ℕ
  pub late_fills : ℕ

-- `d[key]`
unfoldable pub lookup : {A : Type 0} → List (ℕ × A) → ℕ → Result A
lookup [] key = err key_error
lookup ((k, v) ∷ rest) key = if k == key then ok v else lookup rest key

-- `d[key] = value`
unfoldable pub assign : {A : Type 0} → List (ℕ × A) → ℕ → A → List (ℕ × A)
assign [] key value = (key, value) ∷ []
assign ((k, v) ∷ rest) key value =
    if k == key then (k, value) ∷ rest else (k, v) ∷ assign rest key value

-- `s.discard(key)`
unfoldable pub discard : ℤ → List ℤ → List ℤ
discard key [] = []
discard key (k ∷ ks) = if eqb_ℤ k key then discard key ks else k ∷ discard key ks

abbrev owns : Stream → ℤ → Owned → Bool
owns stream key o = same_stream o.stream stream && eqb_ℤ o.key key

unfoldable pub owner_of : Stream → ℤ → List Owned → Option ℕ
owner_of stream key [] = none
owner_of stream key (o ∷ os) = if owns stream key o then some o.gap_id else owner_of stream key os

unfoldable pub disown : Stream → ℤ → List Owned → List Owned
disown stream key [] = []
disown stream key (o ∷ os) =
    if owns stream key o then disown stream key os else o ∷ disown stream key os

-- `self._owner[(stream, k)] = gid` for each key.
unfoldable pub own_all : Stream → ℕ → List ℤ → List Owned → List Owned
unfolding disown
own_all stream gid [] os = os
own_all stream gid (k ∷ ks) os =
    own_all stream gid ks
      (disown stream k os ++ (record { stream = stream; key = k; gap_id = gid } ∷ []))

abbrev new_gap :
    GapStore
    → Stream
    → GapDetectorKind
    → List ℤ
    → ℤ
    → ℤ
    → Option ℤ
    → Option ℤ
    → Option String
    → ℤ
    → GapRecord
new_gap d stream detector keys ts_lo ts_hi seq_lo seq_hi tf now = record {
  gap_id = d.next_id;
  instrument = d.instrument;
  stream = stream;
  detector = detector;
  ts_lo_ns = ts_lo;
  ts_hi_ns = ts_hi;
  expected_count = length keys;
  status = GapStatus.open_gap;
  filled_rows = 0;
  attempts = 0;
  seq_lo = seq_lo;
  seq_hi = seq_hi;
  tf = tf;
  detected_at_ns = now;
  closed_at_ns = none;
  exchange_ns = d.latest_ns;
}

-- `_open`
unfoldable pub open_with : GapStore → GapRecord → List ℤ → GapRecord × GapStore
unfolding assign own_all
open_with d g keys = (
  g,
  record d {
    next_id = d.next_id + 1;
    gaps = assign d.gaps g.gap_id g;
    missing = assign d.missing g.gap_id keys;
    owner = own_all g.stream g.gap_id keys d.owner;
  },
)

unfoldable pub open_new :
    GapStore
    → Stream
    → GapDetectorKind
    → List ℤ
    → ℤ
    → ℤ
    → Option ℤ
    → Option ℤ
    → Option String
    → ℤ
    → GapRecord × GapStore
unfolding open_with
open_new d stream detector keys ts_lo ts_hi seq_lo seq_hi tf now =
    open_with d (new_gap d stream detector keys ts_lo ts_hi seq_lo seq_hi tf now) keys

abbrev pub is_empty : List ℤ → Bool
is_empty [] = true
is_empty (k ∷ ks) = false

abbrev is_filling : GapRecord → Bool
is_filling g = same_status g.status GapStatus.filling

-- `_fill`: whether the key was missing, the gap that it closed, and the store.
unfoldable pub fill : GapStore → Stream → ℤ → ℤ → Result (Bool × List GapRecord × GapStore)
unfolding owner_of disown discard lookup assign
fill d stream key now = elim (owner_of stream key d.owner) [
  | none ↦ ok (false, [], d)
  | some gid ↦ do
    before ← lookup d.missing gid
    g ← lookup d.gaps gid
    let miss = discard key before
    let rows = g.expected_count - length miss
    let d' = record d {
      owner = disown stream key d.owner;
      late_fills = d.late_fills + 1;
      missing = assign d.missing gid miss;
    }
    let closed = transition g GapStatus.filled now (some rows) false
    if is_empty miss && not (is_filling g)
        then (closed >>= λ h. ok (true, h ∷ [], record d' { gaps = assign d.gaps gid h }))
        else if is_filling g
        then ok (true, [], record d' { gaps = assign d.gaps gid (record g { filled_rows = rows }) })
        else ok (true, [], d')
]

unfoldable pub begin_fill : GapStore → ℕ → ℤ → Result (GapRecord × GapStore)
unfolding lookup assign
begin_fill d gid now = do
  g ← lookup d.gaps gid
  h ← transition g GapStatus.filling now none true
  ok (h, record d { gaps = assign d.gaps gid h })

-- The status after an attempt: everything, something or nothing came.
unfoldable pub resolved : List ℤ → ℕ → GapStatus
resolved [] rows = GapStatus.filled
resolved (k ∷ ks) rows = if rows == 0 then GapStatus.unfillable else GapStatus.partial

unfoldable pub resolve : GapStore → ℕ → ℤ → Result (GapRecord × GapStore)
unfolding lookup assign resolved
resolve d gid now = do
  g ← lookup d.gaps gid
  miss ← lookup d.missing gid
  let rows = g.expected_count - length miss
  h ← transition g (resolved miss rows) now (some rows) false
  ok (h, record d { gaps = assign d.gaps gid h })

unfoldable pub open_gaps : List (ℕ × GapRecord) → List GapRecord
open_gaps [] = []
open_gaps ((gid, g) ∷ rest) =
    if same_status g.status GapStatus.filled then open_gaps rest else g ∷ open_gaps rest
