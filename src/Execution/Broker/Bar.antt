-- ===== src/Execution/Broker/Bar.antt =====
-- execution/paper_broker.py: what the broker does with a bar.
use fuzz_helm.Base.{
  ℕ, ◌==◌, Bool, true, false, not, ◌&&◌, ◌||◌, Option, none, some, List, [], ◌∷◌, ◌++◌, String, leb,
  if◌then◌else◌, Result, ok, err, ◌>>=◌, raise_if, value_error, index_error,
}
use fuzz_helm.Base.Dict.{Dict, lookup, put, string_key}
use fuzz_helm.Core.Enums.{Side, same_side, opposite, OrderStatus, RejectCode}
use fuzz_helm.Decimal.{Decimal, d0, d1}
use fuzz_helm.Decimal
use fuzz_helm.Execution.Number.{sign, decimal_number}
use fuzz_helm.Execution.Orders.{Fill, FundingCharge}
use fuzz_helm.Execution.Costs.{
  CostModelConfig, is_full, offsets, next_funding_time, funding_times, funding_payment,
}
use fuzz_helm.Execution.Broker.State.{
  DecBar, Order, InstState, Outside, Broker, Book, is_new, order_of,
}
use fuzz_helm.Execution.Broker.Fill.{fill_market_orders}
use fuzz_helm.Execution.Broker.Path.{after, chain, walk_triggers}

abbrev mark_at : Option Decimal → Decimal → Bool → Decimal
mark_at none open_price at_end = open_price
mark_at (some close) open_price at_end = if at_end then open_price else close

-- The loop of `_charge_funding`.
unfoldable pub charges :
    CostModelConfig → InstState → ℕ → Decimal → List ℕ → List (FundingCharge Decimal)
unfolding funding_payment
charges cost st t_to open_price [] = []
charges cost st t_to open_price (ts ∷ rest) =
    let mark = mark_at st.last_close open_price (ts == t_to) in
    record {
      instrument = st.spec.symbol_canon;
      ts_ns = ts;
      position_qty = st.position;
      mark_price = mark;
      rate = st.funding_rate;
      amount = funding_payment cost st.position mark st.funding_rate;
    }
    ∷ charges cost st t_to open_price rest

unfoldable pub is_due : Option ℕ → ℕ → Result Bool
is_due none t = err index_error
is_due (some next) t = ok (leb next t)

unfoldable pub charged_for :
    CostModelConfig
    → InstState
    → ℕ
    → Decimal
    → Option (List ℕ)
    → Option (Result (List (FundingCharge Decimal)))
unfolding charges
charged_for cost st t open_price none = none
charged_for cost st t open_price (some times) = some (ok (charges cost st t open_price times))

-- The funding of the bar, if the broker has a position and a funding time has passed.
unfoldable pub funding_of :
    CostModelConfig → InstState → DecBar → Option ℕ → Option (Result (List (FundingCharge Decimal)))
unfolding offsets next_funding_time funding_times is_due charged_for
funding_of cost st bar none = some (ok [])
funding_of cost st bar (some last) =
    if not (Decimal.eq st.position d0) && is_full cost.mode
    then after (is_due (next_funding_time (offsets cost) last) bar.open_time_ns) (λ due.
      if due
      then charged_for cost st bar.open_time_ns bar.o
          (funding_times (offsets cost) last bar.open_time_ns)
      else some (ok []))
    else some (ok [])

-- The sides of the new orders of a list that may open a position.
unfoldable pub entry_sides : Dict String Order → List String → Result (List Side)
unfolding order_of
entry_sides orders [] = ok []
entry_sides orders (coid ∷ rest) = do
  o ← order_of orders coid
  sides ← entry_sides orders rest
  ok (if is_new o.status && not o.req.reduce_only then o.req.side ∷ sides else sides)

abbrev pub has_side : Side → List Side → Bool
has_side s [] = false
has_side s (r ∷ rs) = same_side s r || has_side s rs

-- A reduce-only stop that can reduce neither this position nor one that an order will open.
abbrev pub orphan : Side → List Side → Order → Bool
orphan pos_sign sides o =
    o.req.reduce_only
    && (not (same_side pos_sign (opposite o.req.side))
        && not (has_side (opposite o.req.side) sides))

unfoldable pub drop_orphans :
    Side → List Side → List String → Dict String Order → Result (List String × Dict String Order)
unfolding order_of put
drop_orphans pos_sign sides [] orders = ok ([], orders)
drop_orphans pos_sign sides (coid ∷ rest) orders = do
  o ← order_of orders coid
  let drop = is_new o.status && orphan pos_sign sides o
  let orders' =
      if drop
      then put coid
          (record o {
            status = OrderStatus.canceled;
            reject_code = some RejectCode.reduce_only_order;
          })
          orders
      else orders
  left ← drop_orphans pos_sign sides rest orders'
  ok (if is_new o.status && not drop then (coid ∷ left.0, left.1) else left)

-- `_expire_orphan_stops`
unfoldable pub expire_orphan_stops : {X : Type 0} → Book X → Result (Book X)
unfolding entry_sides drop_orphans sign
expire_orphan_stops bk = do
  sides ← entry_sides bk.orders (bk.st.market_queue ++ bk.st.stop_orders)
  left ← drop_orphans (sign bk.st.position) sides bk.st.stop_orders bk.orders
  ok (record bk { orders = left.1; st = record (bk.st) { stop_orders = left.0 } })

-- An exponentially weighted average, begun by its first value.
abbrev ewma : Decimal → Option Decimal → Decimal → Decimal
ewma lam none x = x
ewma lam (some v) x = Decimal.add (Decimal.mul lam v) (Decimal.mul (Decimal.sub d1 lam) x)

next_var : Decimal → Option Decimal → Option Decimal → Decimal → Result (Option Decimal)
next_var lam none var c = ok var
next_var lam (some close) var c = do
  ratio ← Decimal.div c close
  let r = Decimal.sub ratio d1
  ok (some (ewma lam var (Decimal.mul r r)))

-- `_update_stats`, and the time of the bar.
unfoldable pub update_stats : Decimal → DecBar → InstState → Result InstState
unfolding next_var
update_stats lam bar st = do
  v ← next_var lam st.last_close st.var bar.c
  ok (record st {
    var = v;
    last_close = some bar.c;
    v_bar = some (ewma lam st.v_bar bar.volume);
    last_open_ns = some bar.open_time_ns;
  })

abbrev is_some : Option Decimal → Bool
is_some none = false
is_some (some p) = true

abbrev is_empty : List String → Bool
is_empty [] = true
is_empty (c ∷ cs) = false

-- A bar that is not after the last one.
abbrev pub not_later : Option ℕ → ℕ → Bool
not_later none t = false
not_later (some last) t = leb t last

-- `if st.market_queue: …`
unfoldable pub market_phase :
    {X : Type 0} → Outside X → CostModelConfig → DecBar → Book X → Result (Book X)
unfolding fill_market_orders
market_phase out cost bar bk =
    if is_empty bk.st.market_queue
    then ok bk
    else fill_market_orders out cost bar.o bar.open_time_ns bk

-- `if st.stop_orders or …: self._walk_triggers(…)`
unfoldable pub has_triggers : {X : Type 0} → Book X → Bool
has_triggers bk =
    not (is_empty bk.st.stop_orders)
    || (not (Decimal.eq bk.st.position d0) && (is_some bk.st.tp_price || is_some bk.st.liq_price))

unfoldable pub trigger_phase :
    {X : Type 0} → Outside X → CostModelConfig → DecBar → Book X → Option (Result (Book X))
unfolding walk_triggers has_triggers
trigger_phase out cost bar bk =
    if has_triggers bk then walk_triggers out cost bar.open_time_ns bar bk else some (ok bk)

-- `if st.stop_orders: …`
unfoldable pub orphan_phase : {X : Type 0} → Book X → Result (Book X)
unfolding expire_orphan_stops
orphan_phase bk = if is_empty bk.st.stop_orders then ok bk else expire_orphan_stops bk

-- The steps of `on_bar` on the book of the instrument.
unfoldable pub run_bar :
    {X : Type 0} → Outside X → CostModelConfig → DecBar → Book X → Option (Result (Book X))
unfolding market_phase trigger_phase orphan_phase
run_bar out cost bar bk =
    after (market_phase out cost bar bk)
      (λ bk1. chain (trigger_phase out cost bar bk1) (λ bk2. some (orphan_phase bk2)))

-- What the bar leaves of the broker.
abbrev pub closed_bar :
    {X : Type 0} → DecBar → Broker X → List (FundingCharge Decimal) → Book X → InstState → Broker X
closed_bar bar b paid bk st = record b {
  funding = b.funding ++ paid;
  states = put bar.instrument st b.states;
  orders = bk.orders;
  seq = bk.seq;
  outside = bk.outside;
}

abbrev pub book_of : {X : Type 0} → InstState → Broker X → Book X
book_of st b = record { st = st; orders = b.orders; seq = b.seq; outside = b.outside; fills = [] }

unfoldable pub bar_of :
    {X : Type 0}
    → Outside X
    → DecBar
    → Option InstState
    → Broker X
    → Option (Result (Broker X × List (Fill Decimal)))
unfolding funding_of run_bar update_stats put
bar_of out bar none b = some (err value_error)
bar_of out bar (some st) b =
    after (raise_if (not_later st.last_open_ns bar.open_time_ns) value_error) (λ unit.
      chain (funding_of b.cost st bar st.last_open_ns) (λ paid.
        chain (run_bar out b.cost bar (book_of st b)) (λ bk.
          after (update_stats b.lam bar bk.st)
            (λ st'. some (ok (closed_bar bar b paid bk st', bk.fills))))))

-- `on_bar`, none where a loop's fuel would run out.
unfoldable pub on_bar :
    {X : Type 0} → Outside X → DecBar → Broker X → Option (Result (Broker X × List (Fill Decimal)))
unfolding lookup bar_of
on_bar out bar b = bar_of out bar (lookup bar.instrument b.states) b
