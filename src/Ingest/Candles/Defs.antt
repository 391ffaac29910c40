-- ===== src/Ingest/Candles/Defs.antt =====
-- `CandleAggregator` of ingest/candles.py. A dict is a list of pairs in the order of insertion, a set is a
-- list; `tf_ns` is the length of the timeframe and positive.
use fuzz_helm.Base.{
  ℕ, zero, suc, ◌+◌, ◌-◌, ◌/◌, ◌==◌, Bool, true, false, not, ◌&&◌, ◌||◌, ltb, Option, none, some,
  String, List, [], ◌∷◌, ◌++◌, length, if◌then◌else◌,
}
use text.Mathlib.Text.{◌==◌ as str_eq}
use fuzz_helm.Base.Int.{ℤ, pos, pos_part, ◌+ℤ◌, ◌-ℤ◌, eqb_ℤ, ltb_ℤ, leb_ℤ}
use fuzz_helm.Decimal
use fuzz_helm.Core.Dto.{Candle}

-- `same_values`
unfoldable pub same_values : Candle → Candle → Bool
same_values a b =
    Decimal.eq a.o b.o
    && (Decimal.eq a.h b.h
        && (Decimal.eq a.l b.l
            && (Decimal.eq a.c b.c
                && (Decimal.eq a.volume b.volume
                    && (Decimal.eq a.quote_volume b.quote_volume
                        && a.trades_count == b.trades_count)))))

pub record AggregatorStats : Type 0 where
  pub released : ℕ
  pub duplicates : ℕ
  pub conflicts : ℕ
  pub skipped : ℕ
  pub late_after_skip : ℕ
  pub stale_updates : ℕ
  pub max_held : ℕ

pub record CandleAggregator : Type 0 where
  pub tf : String
  pub instrument : Option String
  pub ordered : Bool
  pub tf_ns : ℕ
  pub next : Option ℤ
  pub held : List (ℤ × Candle)
  pub released : List (ℤ × Candle)
  pub retention : ℕ
  pub skipped : List ℤ
  pub current : Option Candle
  pub stats : AggregatorStats

unfoldable pub candle_at : ℤ → List (ℤ × Candle) → Option Candle
candle_at k [] = none
candle_at k ((j, c) ∷ d) = if eqb_ℤ j k then some c else candle_at k d

-- `d.pop(k)`, without its value.
unfoldable pub without : ℤ → List (ℤ × Candle) → List (ℤ × Candle)
without k [] = []
without k ((j, c) ∷ d) = if eqb_ℤ j k then d else (j, c) ∷ without k d

unfoldable pub store_at : ℤ → Candle → List (ℤ × Candle) → List (ℤ × Candle)
store_at k c [] = (k, c) ∷ []
store_at k c ((j, b) ∷ d) = if eqb_ℤ j k then (j, c) ∷ d else (j, b) ∷ store_at k c d

abbrev pub is_some : Option Candle → Bool
is_some none = false
is_some (some c) = true

unfoldable pub has_key : ℤ → List ℤ → Bool
has_key k [] = false
has_key k (l ∷ ls) = eqb_ℤ l k || has_key k ls

unfoldable pub is_skipped : CandleAggregator → ℤ → Bool
unfolding has_key candle_at
is_skipped a o = has_key o a.skipped && not (is_some (candle_at o a.released))

abbrev accepts_instrument : Option String → String → Bool
accepts_instrument none name = true
accepts_instrument (some i) name = str_eq name i

-- `_accepts`
unfoldable pub accepts : CandleAggregator → Candle → Bool
accepts a c = str_eq c.tf a.tf && accepts_instrument a.instrument c.instrument

-- `_track_current`: the snapshot that follows.
unfoldable pub track_current : Option Candle → Candle → Candle
track_current none c = c
track_current (some cur) c =
    let same_minute_newer =
      eqb_ℤ c.open_time_ns cur.open_time_ns
      && (leb_ℤ cur.ts_event_ns c.ts_event_ns && not cur.is_closed) in
    if ltb_ℤ cur.open_time_ns c.open_time_ns || same_minute_newer then c else cur

unfoldable pub store_all : List Candle → List (ℤ × Candle) → List (ℤ × Candle)
unfolding store_at
store_all [] d = d
store_all (c ∷ cs) d = store_all cs (store_at c.open_time_ns c d)

-- The oldest are forgotten.
unfoldable pub forget : ℕ → List (ℤ × Candle) → List (ℤ × Candle)
forget zero d = d
forget (suc n) [] = []
forget (suc n) (e ∷ d) = forget n d

-- `_emit(cs)`
unfoldable pub emit : CandleAggregator → List Candle → CandleAggregator
unfolding store_all forget
emit a cs =
    let all = store_all cs a.released in
    record a {
      released = forget (length all - a.retention) all;
      stats = record a.stats { released = a.stats.released + length cs };
    }

-- The loop of `_drain`, from the minute `nxt` with the candles held: what it takes out, the candles that
-- remain and the minute where it stops. Every turn uses up a candle held or passes a minute skipped.
unfoldable pub drain_loop :
    ℕ → ℕ → List ℤ → ℤ → List (ℤ × Candle) → List Candle × List (ℤ × Candle) × ℤ
unfolding candle_at without has_key
drain_loop zero tf_ns skipped nxt held = ([], held, nxt)
drain_loop (suc fuel) tf_ns skipped nxt held = elim (candle_at nxt held) [
  | some c ↦
      let (out, rest, stop) = drain_loop fuel tf_ns skipped (nxt +ℤ pos tf_ns) (without nxt held) in
      (c ∷ out, rest, stop)
  | none ↦ elim (has_key nxt skipped) [
    | true ↦ drain_loop fuel tf_ns skipped (nxt +ℤ pos tf_ns) held
    | false ↦ ([], held, nxt)
  ]
]

-- `_drain()` where the next minute is `nxt`.
unfoldable pub drain : CandleAggregator → ℤ → List Candle × CandleAggregator
unfolding drain_loop emit
drain a nxt =
    let (out, rest, stop) =
      drain_loop (length a.held + length a.skipped) a.tf_ns a.skipped nxt a.held in
    (out, emit (record a { held = rest; next = some stop }) out)

abbrev next_or : Option ℤ → ℤ → ℤ
next_or none o = o
next_or (some n) o = n

abbrev count_if : Bool → ℕ
count_if b = if b then 1 else 0

abbrev first_some : Option Candle → Option Candle → Option Candle
first_some none b = b
first_some (some a) b = some a

abbrev conflicts_with : Option Candle → Candle → Bool
conflicts_with none c = false
conflicts_with (some other) c = not (same_values other c)

-- A closed candle of a minute that is released, skipped or held.
unfoldable pub repeat_offer : CandleAggregator → Candle → CandleAggregator
unfolding candle_at has_key same_values
repeat_offer a c =
    let o = c.open_time_ns in
    let prior = candle_at o a.released in
    let other = first_some prior (candle_at o a.held) in
    record a {
      stats = record a.stats {
        duplicates = a.stats.duplicates + 1;
        late_after_skip =
            a.stats.late_after_skip + count_if (not (is_some prior) && has_key o a.skipped);
        conflicts = a.stats.conflicts + count_if (conflicts_with other c);
      };
    }

-- A closed candle that is held until its turn.
unfoldable pub hold : CandleAggregator → Candle → CandleAggregator
unfolding store_at
hold a c =
    let held' = store_at c.open_time_ns c a.held in
    let most = a.stats.max_held in
    record a {
      held = held';
      stats = record a.stats { max_held = if ltb most (length held') then length held' else most };
    }

-- `offer(c)` of a closed candle, where the next minute is `nxt`.
unfoldable pub offer_closed : CandleAggregator → Candle → ℤ → List Candle × CandleAggregator
unfolding candle_at has_key repeat_offer emit hold drain
offer_closed a c nxt =
    let o = c.open_time_ns in
    if is_some (candle_at o a.released) || (has_key o a.skipped || is_some (candle_at o a.held))
    then ([], repeat_offer a c)
    else if not a.ordered
    then (c ∷ [], emit a (c ∷ []))
    else if ltb_ℤ o nxt
    then ([], record a { stats = record a.stats { duplicates = a.stats.duplicates + 1 } })
    else drain (hold a c) nxt

-- `offer(c)` of an update of the running minute.
unfoldable pub offer_open : CandleAggregator → Candle → CandleAggregator
unfolding candle_at has_key track_current
offer_open a c =
    if is_some (candle_at c.open_time_ns a.released) || has_key c.open_time_ns a.skipped
    then record a { stats = record a.stats { stale_updates = a.stats.stale_updates + 1 } }
    else record a { current = some (track_current a.current c) }

-- `offer(c)`
unfoldable pub offer : CandleAggregator → Candle → List Candle × CandleAggregator
unfolding accepts track_current offer_open offer_closed
offer a c =
    let nxt = next_or a.next c.open_time_ns in
    let started = record a { next = if a.ordered then some nxt else a.next } in
    if not (accepts a c)
    then ([], a)
    else if not c.is_closed
    then ([], offer_open started c)
    else offer_closed (record started { current = some (track_current a.current c) }) c nxt

-- The loop of `skip` over a number of minutes from `m`.
unfoldable pub skip_from : ℕ → ℤ → CandleAggregator → CandleAggregator
unfolding candle_at has_key
skip_from zero m a = a
skip_from (suc n) m a =
    let known = is_some (candle_at m a.released) || is_some (candle_at m a.held) in
    let added = record a {
      skipped = if has_key m a.skipped then a.skipped else a.skipped ++ (m ∷ []);
      stats = record a.stats { skipped = a.stats.skipped + 1 };
    } in
    skip_from n (m +ℤ pos a.tf_ns) (if known then a else added)

abbrev drain_next : CandleAggregator → Option ℤ → List Candle × CandleAggregator
drain_next a none = ([], a)
drain_next a (some nxt) = drain a nxt

-- `skip(lo_open_ns, hi_open_ns)`
unfoldable pub skip : CandleAggregator → ℤ → ℤ → List Candle × CandleAggregator
unfolding skip_from drain
skip a lo hi =
    let minutes = (pos_part ((hi +ℤ pos 1) -ℤ lo) + (a.tf_ns - 1)) / a.tf_ns in
    let skipped = skip_from minutes lo a in
    if a.ordered then drain_next skipped skipped.next else ([], skipped)

unfoldable pub insert_by_key : ℤ × Candle → List (ℤ × Candle) → List (ℤ × Candle)
insert_by_key (k, c) [] = (k, c) ∷ []
insert_by_key (k, c) ((j, b) ∷ d) =
    if ltb_ℤ k j then (k, c) ∷ (j, b) ∷ d else (j, b) ∷ insert_by_key (k, c) d

-- The candles held in the order of their keys.
unfoldable pub in_order : List (ℤ × Candle) → List (ℤ × Candle)
unfolding insert_by_key
in_order [] = []
in_order (e ∷ d) = insert_by_key e (in_order d)

unfoldable pub candles : List (ℤ × Candle) → List Candle
candles [] = []
candles ((k, c) ∷ d) = c ∷ candles d

unfoldable pub last_open : Option ℤ → List Candle → Option ℤ
last_open n [] = n
last_open n (c ∷ cs) = last_open (some c.open_time_ns) cs

abbrev after : ℕ → Option ℤ → Option ℤ
after tf_ns none = none
after tf_ns (some o) = some (o +ℤ pos tf_ns)

-- `flush()`
unfoldable pub flush : CandleAggregator → List Candle × CandleAggregator
unfolding in_order candles last_open emit
flush a =
    let out = candles (in_order a.held) in
    let next' = after a.tf_ns (last_open none out) in
    if length a.held == 0 then ([], a) else (out, emit (record a { held = []; next = next' }) out)
