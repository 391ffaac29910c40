-- ===== src/Ingest/Gap/Detector.antt =====
-- The detection of gaps by `GapDetector` of ingest/gap_detector.py: the sweep over the minutes of a candle
-- stream and the candidate holes of a trade stream. `now` is the reading of the clock.
use fuzz_helm.Base.{
  ℕ, zero, suc, ◌+◌, ◌/◌, Bool, true, false, not, ◌&&◌, ◌||◌, ltb, Option, none, some, String, List,
  [], ◌∷◌, ◌++◌, length, Result, ok, ◌>>=◌, if◌then◌else◌,
}
use text.Mathlib.Text.{◌==◌ as str_eq}
use fuzz_helm.Base.Int.{ℤ, pos, pos_part, ◌+ℤ◌, ◌-ℤ◌, eqb_ℤ, ltb_ℤ, leb_ℤ}
use fuzz_helm.Core.Dto.{Candle}
use fuzz_helm.Core.Enums.{Stream, GapDetectorKind}
use fuzz_helm.Ingest.Gap.Defs.{GapRecord}
use fuzz_helm.Ingest.Gap.Store.{GapStore, open_new, fill, discard}

-- `_Hole`
pub record Hole : Type 0 where
  pub missing : List ℤ
  pub t_before_ns : ℤ
  pub t_after_ns : ℤ
  pub created_event_ns : ℤ

-- The state apart from the trades seen; `k_closed` is a set.
pub record GapDetector : Type 0 where
  pub store : GapStore
  pub tf : String
  pub tf_ns : ℕ
  pub grace_ns : ℕ
  pub max_reorder_ids : ℕ
  pub k_lo : Option ℤ
  pub k_closed : List ℤ
  pub pending : List Hole
  pub stale_klines : ℕ
  pub kline_minutes_settled : ℕ

abbrev later_of : Option ℤ → ℤ → Option ℤ
later_of none t = some t
later_of (some l) t = if ltb_ℤ l t then some t else some l

-- `_advance`: the time of the exchange is the greatest one seen.
unfoldable pub advance : GapDetector → ℤ → GapDetector
advance d t = record d { store = record d.store { latest_ns = later_of d.store.latest_ns t } }

unfoldable pub member : ℤ → List ℤ → Bool
member k [] = false
member k (l ∷ ls) = eqb_ℤ l k || member k ls

-- The least and the greatest of a list, given a first one.
unfoldable pub least : ℤ → List ℤ → ℤ
least m [] = m
least m (k ∷ ks) = least (if ltb_ℤ k m then k else m) ks

unfoldable pub greatest : ℤ → List ℤ → ℤ
greatest m [] = m
greatest m (k ∷ ks) = greatest (if ltb_ℤ m k then k else m) ks

unfoldable pub last_of : ℤ → List ℤ → ℤ
last_of m [] = m
last_of m (k ∷ ks) = last_of k ks

-- A run of missing minutes, opened as a gap where it is not empty (`_open_klines`).
unfoldable pub close_run : GapDetector → List ℤ → ℤ → List GapRecord × GapDetector
unfolding last_of
close_run d [] now = ([], d)
close_run d (m ∷ ms) now =
    let (g, store') =
      open_new d.store Stream.klines GapDetectorKind.time (m ∷ ms) m (last_of m ms) none none
        (some d.tf) now in
    (g ∷ [], record d { store = store' })

-- The loop of `_sweep_klines` over a number of minutes, from the minute `m`.
unfoldable pub settle : ℕ → GapDetector → ℤ → List ℤ → ℤ → List GapRecord × GapDetector
unfolding close_run member
settle zero d m run now = close_run d run now
settle (suc n) d m run now =
    let next = m +ℤ pos d.tf_ns in
    let absent = record d {
      k_lo = some next;
      kline_minutes_settled = d.kline_minutes_settled + 1;
    } in
    elim (member m d.k_closed) [
      | false ↦ settle n absent next (run ++ (m ∷ [])) now
      | true ↦
          let (out, closed) = close_run d run now in
          let there = record closed {
            k_closed = discard m d.k_closed;
            k_lo = some next;
            kline_minutes_settled = d.kline_minutes_settled + 1;
          } in
          let (rest, after) = settle n there next [] now in (out ++ rest, after)
    ]

-- The minutes from `lo` that ended `grace` ago: the condition of the loop holds this many times.
unfoldable pub minutes : GapDetector → ℤ → ℤ → ℕ
minutes d lo latest = pos_part ((latest -ℤ pos d.grace_ns) -ℤ lo) / d.tf_ns

unfoldable pub sweep_klines : GapDetector → ℤ → List GapRecord × GapDetector
unfolding settle minutes
sweep_klines d now = elim d.k_lo [
  | none ↦ ([], d)
  | some lo ↦ elim d.store.latest_ns [
    | none ↦ ([], d)
    | some latest ↦ settle (minutes d lo latest) d lo [] now
  ]
]

abbrev or_zero : Option ℤ → ℤ
or_zero none = pos 0
or_zero (some t) = t

-- A candidate is confirmed by force, by its width, or by the time that has passed since.
unfoldable pub is_confirmed : GapDetector → Bool → Hole → Bool
is_confirmed d force h =
    force
    || (ltb d.max_reorder_ids (length h.missing)
        || leb_ℤ (pos d.grace_ns) (or_zero d.store.latest_ns -ℤ h.created_event_ns))

abbrev first_of : List ℤ → ℤ
first_of [] = pos 0
first_of (k ∷ ks) = k

-- A confirmed hole as a gap; its set is never empty.
unfoldable pub open_hole : GapStore → Hole → ℤ → GapRecord × GapStore
unfolding least greatest
open_hole s h now =
    open_new s Stream.trades GapDetectorKind.seq h.missing h.t_before_ns h.t_after_ns
      (some (least (first_of h.missing) h.missing)) (some (greatest (first_of h.missing) h.missing))
      none now

-- The loop of `_confirm_holes`: the gaps, the holes that remain, and the store.
unfoldable pub confirm_all :
    GapDetector → Bool → List Hole → GapStore → ℤ → List GapRecord × List Hole × GapStore
unfolding is_confirmed open_hole
confirm_all d force [] s now = ([], [], s)
confirm_all d force (h ∷ hs) s now = elim (is_confirmed d force h) [
  | true ↦
      let (g, s') = open_hole s h now in
      let (out, keep, after) = confirm_all d force hs s' now in (g ∷ out, keep, after)
  | false ↦ let (out, keep, after) = confirm_all d force hs s now in (out, h ∷ keep, after)
]

unfoldable pub confirm_holes : GapDetector → Bool → ℤ → List GapRecord × GapDetector
unfolding confirm_all
confirm_holes d force now =
    let (out, keep, s) = confirm_all d force d.pending d.store now in
    (out, record d { pending = keep; store = s })

-- `on_time(ts_event_ns)`
unfoldable pub on_time : GapDetector → ℤ → ℤ → List GapRecord × GapDetector
unfolding advance sweep_klines confirm_holes
on_time d t now =
    let (a, d') = sweep_klines (advance d t) now in
    let (b, d'') = confirm_holes d' false now in (a ++ b, d'')

-- `flush()`
unfoldable pub flush : GapDetector → ℤ → List GapRecord × GapDetector
unfolding confirm_holes
flush d now = confirm_holes d true now

abbrev lo_or : Option ℤ → ℤ → ℤ
lo_or none o = o
lo_or (some lo) o = lo

-- The candle itself: a late one fills its key, or counts as stale; a closed one joins the set.
unfoldable pub take_kline : GapDetector → Candle → ℤ → Result (List GapRecord × GapDetector)
take_kline d c now =
    let stale = record d { stale_klines = d.stale_klines + 1 } in
    if ltb_ℤ c.open_time_ns (lo_or d.k_lo c.open_time_ns)
    then if c.is_closed
      then (fill d.store Stream.klines c.open_time_ns now >>= λ (filled, changed, s).
          ok (if filled then (changed, record d { store = s }) else ([], stale)))
      else ok ([], stale)
    else ok (
      [],
      if c.is_closed
          then record d { k_closed = discard c.open_time_ns d.k_closed ++ (c.open_time_ns ∷ []) }
          else d,
    )

-- `on_kline(c)`
unfoldable pub on_kline : GapDetector → Candle → ℤ → Result (List GapRecord × GapDetector)
unfolding advance take_kline sweep_klines confirm_holes
on_kline d c now =
    let seen = advance d c.ts_event_ns in
    let started = record seen { k_lo = some (lo_or seen.k_lo c.open_time_ns) } in
    if not (str_eq c.tf d.tf && str_eq c.instrument d.store.instrument)
    then ok ([], d)
    else (take_kline started c now >>= λ (changed, d').
        let (a, e) = sweep_klines d' now in
        let (b, e') = confirm_holes e false now in ok (changed ++ (a ++ b), e'))
