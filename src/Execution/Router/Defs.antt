-- ===== src/Execution/Router/Defs.antt =====
-- execution/router.py, and the port `ExecutionVenue` of core/ports.py that it calls.
use fuzz_helm.Base.{
  ℕ, ◌+◌, ◌==◌, Bool, true, false, not, ◌&&◌, Option, none, some, List, [], ◌∷◌, String,
  if◌then◌else◌, Result, ok, err, key_error,
}
use fuzz_helm.Base.Dict.{Dict, lookup, put, string_key}
use fuzz_helm.Core.Dto.{Candle}
use fuzz_helm.Core.Enums.{same_side, OrderType, OrderStatus, RejectCode}
use fuzz_helm.Decimal.{Decimal}
use fuzz_helm.Decimal
use fuzz_helm.Execution.Orders.{OrderRequest, OrderAck, Fill}

-- A venue with the state V. A call that raises gives no answer, and may have changed the state; only a
-- venue that can be asked about an order has `query_order`.
pub record Venue (V : Type 0) : Type 0 where
  pub name : String
  pub submit : OrderRequest Decimal → V → V × Option OrderAck
  pub on_bar : Candle → V → V × List (Fill Decimal)
  pub cancel_all : String → V → V
  pub query_order : Option (String → String → V → V × Option (Option OrderAck))

pub record Router (V : Type 0) : Type 0 where
  pub state : V
  pub requests : Dict String (OrderRequest Decimal)
  pub acks : Dict String OrderAck
  pub venue_calls : ℕ

abbrev pub new_router : {V : Type 0} → V → Router V
new_router v = record { state = v; requests = []; acks = []; venue_calls = 0 }

abbrev same_type : OrderType → OrderType → Bool
same_type OrderType.market OrderType.market = true
same_type OrderType.stop_market OrderType.stop_market = true
same_type _ _ = false

abbrev same_option : {A : Type 0} → (A → A → Bool) → Option A → Option A → Bool
same_option same none none = true
same_option same (some a) (some b) = same a b
same_option same _ _ = false

abbrev same_bool : Bool → Bool → Bool
same_bool a b = if a then b else not b

-- `prev == req`: field by field, the decimals by value.
unfoldable pub same_request : OrderRequest Decimal → OrderRequest Decimal → Bool
same_request a b =
    string_key.same a.client_order_id b.client_order_id
    && (string_key.same a.instrument b.instrument
        && (same_side a.side b.side
            && (same_type a.otype b.otype
                && (Decimal.eq a.qty b.qty
                    && (same_option Decimal.eq a.stop_price b.stop_price
                        && (same_bool a.reduce_only b.reduce_only
                            && (same_option string_key.same a.decision_ref b.decision_ref
                                && a.ts_created_ns == b.ts_created_ns)))))))

-- `_now`: the clock's reading at the call, if there is a clock.
abbrev now : Option ℕ → OrderRequest Decimal → ℕ
now none req = req.ts_created_ns
now (some t) req = t

-- `OrderAck(…, REJECTED, code)`
abbrev pub rejection : Option ℕ → OrderRequest Decimal → RejectCode → OrderAck
rejection clock req code = record {
  client_order_id = req.client_order_id;
  venue_order_id = none;
  status = OrderStatus.rejected;
  reject_code = some code;
  ts_ns = now clock req;
}

module _ {V : Type 0} (venue : Venue V) where
  -- A query that raised tells nothing, like one that found nothing.
  abbrev answered : V × Option (Option OrderAck) → V × Option OrderAck
  answered (v, none) = (v, none)
  answered (v, some answer) = (v, answer)

  -- `_reconcile`
  unfoldable pub reconcile :
      Option (String → String → V → V × Option (Option OrderAck))
      → OrderRequest Decimal
      → V
      → V × Option OrderAck
  reconcile none req v = (v, none)
  reconcile (some query) req v = answered (query req.client_order_id req.instrument v)

  -- What the venue knows of an order: the answer, or after a failure what it can be asked.
  unfoldable pub placed : OrderRequest Decimal → V × Option OrderAck → V × Option OrderAck
  unfolding reconcile
  placed req (v, some ack) = (v, some ack)
  placed req (v, none) = reconcile venue.query_order req v

  -- A known order is remembered; an unknown one is refused, and its key stays free.
  unfoldable pub remembered :
      Option ℕ → Router V → OrderRequest Decimal → V × Option OrderAck → Router V × Result OrderAck
  unfolding put
  remembered clock r req (v, none) =
      (record r { state = v }, ok (rejection clock req RejectCode.venue_error))
  remembered clock r req (v, some ack) = (
    record r {
      state = v;
      requests = put req.client_order_id req r.requests;
      acks = put req.client_order_id ack r.acks;
    },
    ok ack,
  )

  -- `self._acks[coid]`
  unfoldable pub recalled : Option OrderAck → Result OrderAck
  recalled none = err key_error
  recalled (some ack) = ok ack

  -- A key that is taken: the same order gets its first answer, any other is refused.
  unfoldable pub repeated :
      Option ℕ → Router V → OrderRequest Decimal → OrderRequest Decimal → Router V × Result OrderAck
  unfolding lookup same_request recalled
  repeated clock r req prev =
      if same_request prev req
      then (r, recalled (lookup req.client_order_id r.acks))
      else (r, ok (rejection clock req RejectCode.duplicate_client_id))

  unfoldable pub dispatch :
      Option ℕ
      → Router V
      → OrderRequest Decimal
      → Option (OrderRequest Decimal)
      → Router V × Result OrderAck
  unfolding repeated placed remembered
  dispatch clock r req (some prev) = repeated clock r req prev
  dispatch clock r req none =
      remembered clock (record r { venue_calls = r.venue_calls + 1 }) req
        (placed req (venue.submit req r.state))

  unfoldable pub submit : Option ℕ → OrderRequest Decimal → Router V → Router V × Result OrderAck
  unfolding lookup dispatch
  submit clock req r = dispatch clock r req (lookup req.client_order_id r.requests)

  abbrev pub on_bar : Candle → Router V → Router V × List (Fill Decimal)
  on_bar bar r = let (v, fills) = venue.on_bar bar r.state in (record r { state = v }, fills)

  abbrev pub cancel_all : String → Router V → Router V
  cancel_all instrument r = record r { state = venue.cancel_all instrument r.state }

  unfoldable pub ack_of : Router V → String → Option OrderAck
  unfolding lookup
  ack_of r coid = lookup coid r.acks

-- What the worker asks of the router, with the clock's reading at a submission.
pub data Call : Type 0 where
  submitted : (clock : Option ℕ) (req : OrderRequest Decimal) → Call
  bar : (candle : Candle) → Call
  cancelled : (instrument : String) → Call

unfoldable pub after_call : {V : Type 0} → Venue V → Call → Router V → Router V
unfolding submit
after_call venue (submitted clock req) r = (submit venue clock req r).0
after_call venue (bar candle) r = (on_bar venue candle r).0
after_call venue (cancelled instrument) r = cancel_all venue instrument r

-- The router after calls, the first one first.
unfoldable pub after_calls : {V : Type 0} → Venue V → List Call → Router V → Router V
unfolding after_call
after_calls venue [] r = r
after_calls venue (c ∷ cs) r = after_calls venue cs (after_call venue c r)
