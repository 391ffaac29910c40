-- ===== src/Execution/Broker/Fill.antt =====
-- execution/paper_broker.py: the execution of one order, and what follows a position that is closed.
use fuzz_helm.Base.{
  ℕ, Bool, true, false, not, ◌&&◌, ◌||◌, Option, none, some, List, [], ◌∷◌, ◌++◌, String, ltb,
  if◌then◌else◌, Result, ok, ◌>>=◌,
}
use fuzz_helm.Base.Dict.{Dict, put, string_key}
use fuzz_helm.Core.Enums.{
  Side, same_side, opposite, OrderType, OrderStatus, RejectCode, ExitReason, Liquidity,
}
use fuzz_helm.Decimal.{Decimal, d0}
use fuzz_helm.Decimal
use fuzz_helm.Execution.Number.{sign, unit, decimal_number}
use fuzz_helm.Execution.Orders.{OrderRequest, Fill}
use fuzz_helm.Execution.Costs.{
  CostModelConfig, FillQuote, quote, fee, has_price_impact, noise_scale,
}
use fuzz_helm.Execution.Broker.State.{Order, InstState, Outside, Book, is_new, order_of}

-- `_executable_qty`
unfoldable pub executable_qty : InstState → OrderRequest Decimal → Decimal
unfolding sign
executable_qty st req =
    if not req.reduce_only
    then req.qty
    else if Decimal.eq st.position d0 || same_side (sign st.position) req.side
    then d0
    else Decimal.min req.qty (Decimal.abs st.position)

positive_root : (Decimal → Decimal) → Option Decimal → Decimal
positive_root sqrt none = d0
positive_root sqrt (some var) = if Decimal.le var d0 then d0 else sqrt var

-- `_sigma`
unfoldable pub sigma_of : (Decimal → Decimal) → InstState → Decimal
unfolding positive_root
sigma_of sqrt st = positive_root sqrt st.var

-- `_vbar`
abbrev pub v_bar_of : Option Decimal → Decimal
v_bar_of none = d0
v_bar_of (some v) = v

-- The next variate; the generator moves only if there is noise.
unfoldable pub noise_for : {X : Type 0} → Outside X → CostModelConfig → X → X × Decimal
unfolding noise_scale
noise_for out cost x =
    if has_price_impact cost.mode && Decimal.lt d0 (noise_scale cost) then out.normal x else (x, d0)

-- A new reduce-only order that protects a position of the other side.
abbrev pub protects : Side → Order → Bool
protects side o = o.req.reduce_only && same_side o.req.side side

-- The loop of `_on_position_closed` over the stops: those that are left, and the orders.
unfoldable pub drop_protecting :
    Side → List String → Dict String Order → Result (List String × Dict String Order)
unfolding order_of put
drop_protecting side [] orders = ok ([], orders)
drop_protecting side (coid ∷ rest) orders = do
  o ← order_of orders coid
  let drop = is_new o.status && protects side o
  let orders' =
      if drop then put coid (record o { status = OrderStatus.canceled }) orders else orders
  left ← drop_protecting side rest orders'
  ok (if is_new o.status && not drop then (coid ∷ left.0, left.1) else left)

-- `_on_position_closed`
unfoldable pub on_position_closed : {X : Type 0} → Decimal → Book X → Result (Book X)
unfolding drop_protecting sign
on_position_closed old bk = do
  let st = bk.st
  left ← drop_protecting (opposite (sign old)) st.stop_orders bk.orders
  let own = same_side st.tp_side Side.flat || same_side st.tp_side (sign old)
  ok (record bk {
    orders = left.1;
    st = record st {
      stop_orders = left.0;
      tp_price = if own then none else st.tp_price;
      tp_side = if own then Side.flat else st.tp_side;
      liq_price = none;
    };
  })

is_stop : OrderType → Bool
is_stop OrderType.stop_market = true
is_stop OrderType.market = false

-- A stop that faces the position has its own reason.
unfoldable pub reason_of : Option ExitReason → Order → Decimal → Option ExitReason
unfolding is_stop sign
reason_of (some reason) o old = some reason
reason_of none o old =
    if is_stop o.req.otype && (not (Decimal.eq old d0) && not (same_side (sign old) o.req.side))
    then some ExitReason.stop
    else none

-- The position is gone or has turned.
abbrev pub closes : Decimal → Decimal → Bool
closes old new =
    not (Decimal.eq old d0) && (Decimal.eq new d0 || not (same_side (sign new) (sign old)))

-- The position after a fill of this quantity.
unfoldable pub position_after : {X : Type 0} → Order → Decimal → Book X → Decimal
unfolding unit
position_after o qty bk = Decimal.add bk.st.position (Decimal.mul (unit o.req.side) qty)

-- The fill that `_execute` records.
unfoldable pub fill_of : CostModelConfig → Order → Decimal → ℕ → Decimal → Decimal → Fill Decimal
unfolding fee
fill_of cost o qty ts price slip = record {
  client_order_id = o.req.client_order_id;
  venue_order_id = o.venue_order_id;
  instrument = o.req.instrument;
  side = o.req.side;
  qty = qty;
  price = price;
  fee = fee cost (Decimal.mul qty price) Liquidity.taker;
  liquidity = Liquidity.taker;
  slippage_bps = slip;
  ts_fill_ns = ts;
}

-- The fill, the order and the position that `_execute` records.
unfoldable pub filled_book :
    {X : Type 0}
    → CostModelConfig
    → Order
    → Decimal
    → ℕ
    → Option ExitReason
    → Book X
    → Decimal
    → Decimal
    → Book X
unfolding reason_of fill_of put position_after
filled_book cost o qty ts reason bk price slip = record bk {
  fills = bk.fills ++ (fill_of cost o qty ts price slip ∷ []);
  orders =
      put o.req.client_order_id
        (record o {
          status = OrderStatus.filled_order;
          filled_qty = qty;
          avg_price = some price;
          exit_reason = reason_of reason o bk.st.position;
        })
        bk.orders;
  st = record (bk.st) { position = position_after o qty bk };
}

-- The part of `_execute` that follows the quote.
unfoldable pub filled :
    {X : Type 0}
    → CostModelConfig
    → Order
    → Decimal
    → ℕ
    → Option ExitReason
    → Book X
    → Decimal
    → Decimal
    → Result (Book X)
unfolding filled_book on_position_closed
filled cost o qty ts reason bk price slip =
    let bk' = filled_book cost o qty ts reason bk price slip in
    if closes bk.st.position (position_after o qty bk)
    then on_position_closed bk.st.position bk'
    else ok bk'

-- The quote of an order, from the estimates of the instrument.
unfoldable pub quote_for :
    (Decimal → Decimal)
    → CostModelConfig
    → Order
    → Decimal
    → Decimal
    → InstState
    → Decimal
    → Result FillQuote
unfolding quote sigma_of
quote_for sqrt cost o p_ref qty st z =
    quote sqrt cost z o.req.side p_ref qty (sigma_of sqrt st) (v_bar_of st.v_bar) st.spec.tick_size

-- An order with a quantity to execute: its quote, and its fill.
unfoldable pub priced :
    {X : Type 0}
    → Outside X
    → CostModelConfig
    → Order
    → Decimal
    → ℕ
    → Option ExitReason
    → Book X
    → Decimal
    → Result (Book X)
unfolding noise_for quote_for filled
priced out cost o p_ref ts reason bk qty =
    let drawn = noise_for out cost bk.outside in
    quote_for out.sqrt cost o p_ref qty bk.st (drawn.1) >>= λ q.
    filled cost o qty ts reason (record bk { outside = drawn.0 }) q.price q.slippage_bps

-- `_execute`
unfoldable pub execute :
    {X : Type 0}
    → Outside X
    → CostModelConfig
    → Order
    → Decimal
    → ℕ
    → Option ExitReason
    → Book X
    → Result (Book X)
unfolding executable_qty priced put
execute out cost o p_ref ts reason bk =
    let qty = executable_qty bk.st o.req in
    if Decimal.le qty d0
    then ok (record bk {
      orders =
          put o.req.client_order_id
            (record o {
              status = OrderStatus.canceled;
              reject_code = some RejectCode.reduce_only_order;
            })
            bk.orders;
    })
    else priced out cost o p_ref ts reason bk qty

-- The loop of `_fill_market_orders`: the orders that stay in the queue, and the book.
unfoldable pub fill_queue :
    {X : Type 0}
    → Outside X
    → CostModelConfig
    → Decimal
    → ℕ
    → List String
    → Book X
    → Result (List String × Book X)
unfolding order_of execute
fill_queue out cost open_price t [] bk = ok ([], bk)
fill_queue out cost open_price t (coid ∷ rest) bk = do
  o ← order_of bk.orders coid
  let early = ltb t o.req.ts_created_ns
  bk' ← if is_new o.status && not early then execute out cost o open_price t none bk else ok bk
  left ← fill_queue out cost open_price t rest bk'
  ok (if is_new o.status && early then (coid ∷ left.0, left.1) else left)

-- `_fill_market_orders`
unfoldable pub fill_market_orders :
    {X : Type 0} → Outside X → CostModelConfig → Decimal → ℕ → Book X → Result (Book X)
unfolding fill_queue
fill_market_orders out cost open_price t bk = do
  left ← fill_queue out cost open_price t bk.st.market_queue bk
  let bk' = left.1
  ok (record bk' { st = record (bk'.st) { market_queue = left.0 } })
