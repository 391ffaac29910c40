-- ===== src/Ingest/Gap/Trades.antt =====
-- The trades that a `GapDetector` of ingest/gap_detector.py has seen, and `on_trade`: a jump of the identifier
-- leaves a candidate hole, a late trade heals it or fills a gap. `now` is the reading of the clock.
use fuzz_helm.Base.{
  ℕ, zero, suc, ◌+◌, Bool, true, false, not, Option, none, some, String, List, [], ◌∷◌, ◌++◌,
  Result, ok, ◌>>=◌, if◌then◌else◌,
}
use text.Mathlib.Text.{◌==◌ as str_eq}
use fuzz_helm.Base.Int.{ℤ, pos, pos_part, ◌+ℤ◌, ◌-ℤ◌, eqb_ℤ, ltb_ℤ}
use fuzz_helm.Decimal.{Decimal}
use fuzz_helm.Core.Enums.{Stream}
use fuzz_helm.Ingest.Gap.Defs.{GapRecord}
use fuzz_helm.Ingest.Gap.Store.{fill, discard, is_empty}
use fuzz_helm.Ingest.Gap.Detector.{Hole, GapDetector, advance, member, sweep_klines, confirm_holes}

-- `Trade` of core/dto.py
pub record Trade : Type 0 where
  pub instrument : String
  pub venue : String
  pub agg_id : ℤ
  pub first_trade_id : Option ℤ
  pub last_trade_id : Option ℤ
  pub price : Decimal
  pub qty : Decimal
  pub is_buyer_maker : Bool
  pub ts_event_ns : ℤ
  pub ts_ingest_ns : ℤ
  pub event_uid : String

-- The detector with the greatest identifier seen, its time, and the counters of trades.
pub record TradeDetector : Type 0 where
  pub detector : GapDetector
  pub t_max : Option ℤ
  pub t_max_ts : ℤ
  pub healed_holes : ℕ
  pub duplicate_trades : ℕ

-- `range(lo, lo + n)`
unfoldable pub range_from : ℤ → ℕ → List ℤ
range_from lo zero = []
range_from lo (suc n) = lo ∷ range_from (lo +ℤ pos 1) n

-- `self._latest_ns or t`
abbrev pub latest_or : Option ℤ → ℤ → ℤ
latest_or none t = t
latest_or (some l) t = if eqb_ℤ l (pos 0) then t else l

-- The first hole that misses the identifier loses it, and goes when it is empty: whether there was such a
-- hole, whether it went, and the holes.
unfoldable pub heal : ℤ → List Hole → Bool × Bool × List Hole
unfolding member discard
heal a [] = (false, false, [])
heal a (h ∷ hs) =
    let (found, gone, rest) = heal a hs in
    let left = discard a h.missing in
    if member a h.missing
    then (true, is_empty left, if is_empty left then hs else record h { missing = left } ∷ hs)
    else (found, gone, h ∷ rest)

-- The hole between the greatest identifier `m` and the trade.
unfoldable pub hole_after : TradeDetector → Trade → ℤ → Hole
unfolding range_from
hole_after s t m = record {
  missing = range_from (m +ℤ pos 1) (pos_part (t.agg_id -ℤ (m +ℤ pos 1)));
  t_before_ns = s.t_max_ts;
  t_after_ns = t.ts_event_ns;
  created_event_ns = latest_or s.detector.store.latest_ns t.ts_event_ns;
}

-- A jump from `m` to the trade leaves a candidate.
unfoldable pub with_hole : TradeDetector → Trade → ℤ → GapDetector
unfolding hole_after
with_hole s t m =
    let d = s.detector in
    if ltb_ℤ (m +ℤ pos 1) t.agg_id
    then record d { pending = d.pending ++ (hole_after s t m ∷ []) }
    else d

-- A trade below the greatest identifier: it heals a hole, fills a gap, or repeats.
unfoldable pub late_trade : TradeDetector → Trade → ℤ → Result (List GapRecord × TradeDetector)
unfolding heal
late_trade s t now =
    let d = s.detector in
    let (found, gone, holes) = heal t.agg_id d.pending in
    if found
    then ok (
      [],
      record s {
        detector = record d { pending = holes };
        healed_holes = s.healed_holes + (if gone then 1 else 0);
      },
    )
    else (fill d.store Stream.trades t.agg_id now >>= λ (filled, changed, st). ok (
      changed,
      if filled
          then record s { detector = record d { store = st } }
          else record s { duplicate_trades = s.duplicate_trades + 1 },
    ))

-- The trade itself, after the time of the exchange has advanced.
unfoldable pub take_trade : TradeDetector → Trade → ℤ → Result (List GapRecord × TradeDetector)
unfolding with_hole late_trade
take_trade s t now = elim s.t_max [
  | none ↦ ok ([], record s { t_max = some t.agg_id; t_max_ts = t.ts_event_ns })
  | some m ↦
      if ltb_ℤ m t.agg_id
      then ok (
        [],
        record s { detector = with_hole s t m; t_max = some t.agg_id; t_max_ts = t.ts_event_ns },
      )
      else if ltb_ℤ t.agg_id m
      then late_trade s t now
      else ok ([], record s { duplicate_trades = s.duplicate_trades + 1 })
]

-- `on_trade(t)`
unfoldable pub on_trade : TradeDetector → Trade → ℤ → Result (List GapRecord × TradeDetector)
unfolding advance take_trade confirm_holes sweep_klines
on_trade s t now =
    let seen = record s { detector = advance s.detector t.ts_event_ns } in
    if not (str_eq t.instrument s.detector.store.instrument)
    then ok ([], s)
    else (take_trade seen t now >>= λ (changed, s').
        let (a, d) = confirm_holes s'.detector false now in
        let (b, d') = sweep_klines d now in ok (changed ++ (a ++ b), record s' { detector = d' }))
