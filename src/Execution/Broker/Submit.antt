-- ===== src/Execution/Broker/Submit.antt =====
-- execution/paper_broker.py: what the client asks of the broker between the bars.
use fuzz_helm.Base.{
  ℕ, ◌+◌, Bool, true, false, not, ◌&&◌, Option, none, some, List, [], ◌∷◌, ◌++◌, String,
  if◌then◌else◌, Result, ok, ◌>>=◌, ◌>>◌, raise_if, value_error,
}
use fuzz_helm.Base.Dict.{Dict, lookup, put, has, string_key}
use fuzz_helm.Core.Enums.{Side, same_side, OrderType, OrderStatus, RejectCode}
use fuzz_helm.Decimal.{Decimal, d0, d1, floor_qty, quantize_price}
use fuzz_helm.Decimal
use fuzz_helm.Execution.Orders.{OrderRequest, OrderAck, FundingCharge}
use fuzz_helm.Execution.Costs.{CostModelConfig}
use fuzz_helm.Execution.Broker.State.{
  Instrument, Order, InstState, Outside, Broker, is_new, order_of, require, new_state,
}

-- The states of the instruments; a later one takes the place of one with its symbol.
new_states : Decimal → Dict String InstState → List Instrument → Dict String InstState
unfolding put
new_states rate states [] = states
new_states rate states (s ∷ rest) =
    new_states rate (put s.symbol_canon (new_state s rate) states) rest

-- `PaperBroker(…)`
unfoldable pub new_broker :
    {X : Type 0} → CostModelConfig → List Instrument → X → Decimal → Decimal → Result (Broker X)
unfolding new_states
new_broker cost specs x lam rate = do
  raise_if (not (Decimal.lt d0 lam && Decimal.lt lam d1)) value_error
  ok (record {
    cost = cost;
    lam = lam;
    states = new_states rate [] specs;
    orders = [];
    funding = [];
    seq = 0;
    outside = x;
  })

-- The answer that refuses an order.
abbrev pub refusal : OrderRequest Decimal → RejectCode → ℕ → OrderAck
refusal req code now = record {
  client_order_id = req.client_order_id;
  venue_order_id = none;
  status = OrderStatus.rejected;
  reject_code = some code;
  ts_ns = now;
}

-- `_reject`: the refused order is remembered.
unfoldable pub reject :
    {X : Type 0} → OrderRequest Decimal → RejectCode → ℕ → Broker X → Broker X × OrderAck
unfolding put
reject req code now b = (
  record b {
    orders =
        put req.client_order_id
          (record {
            req = req;
            venue_order_id = none;
            status = OrderStatus.rejected;
            reject_code = some code;
            ts_ns = now;
            filled_qty = d0;
            avg_price = none;
            exit_reason = none;
          })
          b.orders;
  },
  refusal req code now,
)

abbrev queued : OrderType → String → InstState → InstState
queued OrderType.market coid st = record st { market_queue = st.market_queue ++ (coid ∷ []) }
queued OrderType.stop_market coid st = record st { stop_orders = st.stop_orders ++ (coid ∷ []) }

-- An order that passed the checks: numbered, remembered and queued.
unfoldable pub accept :
    {X : Type 0} → Outside X → OrderRequest Decimal → InstState → ℕ → Broker X → Broker X × OrderAck
unfolding put
accept out req st now b =
    let number = some (out.order_id (b.seq + 1)) in
    (
      record b {
        seq = b.seq + 1;
        orders =
            put req.client_order_id
              (record {
                req = req;
                venue_order_id = number;
                status = OrderStatus.new;
                reject_code = none;
                ts_ns = now;
                filled_qty = d0;
                avg_price = none;
                exit_reason = none;
              })
              b.orders;
        states = put req.instrument (queued req.otype req.client_order_id st) b.states;
      },
      record {
        client_order_id = req.client_order_id;
        venue_order_id = number;
        status = OrderStatus.new;
        reject_code = none;
        ts_ns = now;
      },
    )

-- `qty * st.last_close < st.spec.min_notional`, once there is a close.
abbrev pub below_min : Option Decimal → Decimal → Decimal → Bool
below_min none qty least = false
below_min (some close) qty least = Decimal.lt (Decimal.mul qty close) least

-- The stop price on the grid, for a stop order.
unfoldable pub stop_on_grid : OrderType → Option Decimal → Decimal → Result (Option Decimal)
unfolding quantize_price
stop_on_grid OrderType.stop_market (some price) tick = do
  sp ← quantize_price price tick
  ok (some (if Decimal.eq sp price then price else sp))
stop_on_grid OrderType.stop_market none tick = ok none
stop_on_grid OrderType.market price tick = ok price

-- `sp <= 0`, for a stop order.
abbrev pub bad_stop : OrderType → Option Decimal → Bool
bad_stop OrderType.stop_market (some sp) = Decimal.le sp d0
bad_stop _ _ = false

-- An order of a quantity that passed: its stop price, and its place in a queue.
unfoldable pub with_stop :
    {X : Type 0}
    → Outside X
    → OrderRequest Decimal
    → InstState
    → ℕ
    → Broker X
    → Decimal
    → Result (Broker X × OrderAck)
unfolding reject accept stop_on_grid
with_stop out req st now b qty = do
  sp ← stop_on_grid req.otype req.stop_price st.spec.tick_size
  if bad_stop req.otype sp
      then ok (reject req RejectCode.venue_error now b)
      else ok (
          accept out
            (record req { qty = if Decimal.eq qty req.qty then req.qty else qty; stop_price = sp })
            st now b)

-- An order of a positive quantity.
unfoldable pub sized :
    {X : Type 0}
    → Outside X
    → OrderRequest Decimal
    → InstState
    → ℕ
    → Broker X
    → Decimal
    → Result (Broker X × OrderAck)
unfolding reject with_stop
sized out req st now b qty =
    if not req.reduce_only && below_min st.last_close qty st.spec.min_notional
    then ok (reject req RejectCode.below_min_notional now b)
    else with_stop out req st now b qty

-- The checks of `submit` on a new order of a known instrument.
unfoldable pub checked :
    {X : Type 0}
    → Outside X
    → OrderRequest Decimal
    → InstState
    → ℕ
    → Broker X
    → Result (Broker X × OrderAck)
unfolding reject sized floor_qty
checked out req st now b = do
  qty ← floor_qty req.qty st.spec.step_size
  if Decimal.le qty d0
      then ok (reject req RejectCode.zero_qty now b)
      else sized out req st now b qty

unfoldable pub known :
    {X : Type 0}
    → Outside X
    → OrderRequest Decimal
    → Option InstState
    → ℕ
    → Broker X
    → Result (Broker X × OrderAck)
unfolding reject checked
known out req none now b = ok (reject req RejectCode.venue_error now b)
known out req (some st) now b = checked out req st now b

-- `submit`, with the clock's reading.
unfoldable pub submit :
    {X : Type 0} → Outside X → OrderRequest Decimal → ℕ → Broker X → Result (Broker X × OrderAck)
unfolding has lookup known
submit out req now b =
    if has req.client_order_id b.orders
    then ok (b, refusal req RejectCode.duplicate_client_id now)
    else known out req (lookup req.instrument b.states) now b

abbrev pub canceled : Order → Order
canceled o = if is_new o.status then record o { status = OrderStatus.canceled } else o

-- The orders of a queue that are still new are cancelled.
unfoldable pub cancel_queue : List String → Dict String Order → Result (Dict String Order)
unfolding order_of put
cancel_queue [] orders = ok orders
cancel_queue (coid ∷ rest) orders = do
  o ← order_of orders coid
  cancel_queue rest (put coid (canceled o) orders)

unfoldable pub cancel_known :
    {X : Type 0} → String → Option InstState → Broker X → Result (Broker X)
unfolding cancel_queue put
cancel_known instrument none b = ok b
cancel_known instrument (some st) b = do
  orders ← cancel_queue (st.market_queue ++ st.stop_orders) b.orders
  ok (record b {
    orders = orders;
    states =
        put instrument
          (record st { market_queue = []; stop_orders = []; tp_price = none; tp_side = Side.flat })
          b.states;
  })

-- `cancel_all`
unfoldable pub cancel_all : {X : Type 0} → String → Broker X → Result (Broker X)
unfolding lookup cancel_known
cancel_all instrument b = cancel_known instrument (lookup instrument b.states) b

-- `list.remove`, where the element is in the list.
unfoldable pub remove : String → List String → List String
remove a [] = []
remove a (b ∷ bs) = if string_key.same a b then bs else b ∷ remove a bs

unfoldable pub cancel_one :
    {X : Type 0} → String → Option Order → Broker X → Result (Broker X × Bool)
unfolding require remove put
cancel_one coid none b = ok (b, false)
cancel_one coid (some o) b = if not (is_new o.status) then ok (b, false) else (do
  st ← require b o.req.instrument
  ok (
    record b {
      orders = put coid (record o { status = OrderStatus.canceled }) b.orders;
      states =
          put o.req.instrument
            (record st {
              market_queue = remove coid st.market_queue;
              stop_orders = remove coid st.stop_orders;
            })
            b.states;
    },
    true,
  ))

-- `cancel`
unfoldable pub cancel : {X : Type 0} → String → Broker X → Result (Broker X × Bool)
unfolding lookup cancel_one
cancel coid b = cancel_one coid (lookup coid b.orders) b

unfoldable pub on_tick : Option Decimal → Decimal → Result (Option Decimal)
unfolding quantize_price
on_tick none tick = ok none
on_tick (some price) tick = quantize_price price tick >>= λ p. ok (some p)

unfoldable pub side_or_any : Option Side → Option Decimal → Side
side_or_any none price = Side.flat
side_or_any (some side) none = Side.flat
side_or_any (some side) (some price) = side

unfoldable pub is_flat : Option Side → Bool
is_flat none = false
is_flat (some side) = same_side side Side.flat

-- `set_take_profit`
unfoldable pub set_take_profit :
    {X : Type 0} → String → Option Decimal → Option Side → Broker X → Result (Broker X)
unfolding require put on_tick side_or_any is_flat
set_take_profit instrument price side b = do
  st ← require b instrument
  raise_if (is_flat side) value_error
  p ← on_tick price st.spec.tick_size
  ok (record b {
    states = put instrument (record st { tp_price = p; tp_side = side_or_any side price }) b.states;
  })

-- `set_liquidation_price`
unfoldable pub set_liquidation_price :
    {X : Type 0} → String → Option Decimal → Broker X → Result (Broker X)
unfolding require put
set_liquidation_price instrument price b = do
  st ← require b instrument
  ok (record b { states = put instrument (record st { liq_price = price }) b.states })

-- `set_funding_rate`
unfoldable pub set_funding_rate : {X : Type 0} → String → Decimal → Broker X → Result (Broker X)
unfolding require put
set_funding_rate instrument rate b = do
  st ← require b instrument
  ok (record b { states = put instrument (record st { funding_rate = rate }) b.states })

unfoldable pub open_of : Dict String Order → List String → Result (List (OrderRequest Decimal))
unfolding order_of
open_of orders [] = ok []
open_of orders (coid ∷ rest) = do
  o ← order_of orders coid
  reqs ← open_of orders rest
  ok (if is_new o.status then o.req ∷ reqs else reqs)

-- `open_orders`
unfoldable pub open_orders : {X : Type 0} → String → Broker X → Result (List (OrderRequest Decimal))
unfolding require open_of
open_orders instrument b = do
  st ← require b instrument
  open_of b.orders (st.market_queue ++ st.stop_orders)

-- `drain_funding`
abbrev pub drain_funding : {X : Type 0} → Broker X → Broker X × List (FundingCharge Decimal)
drain_funding b = (record b { funding = [] }, b.funding)
