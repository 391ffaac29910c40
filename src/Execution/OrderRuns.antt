-- ===== src/Execution/OrderRuns.antt =====
-- Orders, the router and the funding schedule at concrete inputs.
use fuzz_helm.Base.{
  ℕ, ◌+◌, ◌<◌, ◌≡◌, refl, Bool, true, false, ◌&&◌, none, some, List, [], ◌∷◌, String, ok,
  if◌then◌else◌, ltb, leb, ◌*◌, arith,
}
use fuzz_helm.Base.Int.{pos}
use fuzz_helm.Base.Dict.{lookup, string_key}
use fuzz_helm.Core.Enums.{Side, OrderType, OrderStatus, RejectCode}
use fuzz_helm.Decimal.{Decimal, d0, d1, of_int}
use fuzz_helm.Decimal
use fuzz_helm.Execution.Number.{decimal_number}
use fuzz_helm.Execution.Orders.{OrderRequest, OrderAck}
use fuzz_helm.Execution.Router
use fuzz_helm.Execution.Router.{
  Venue, Router, new_router, rejection, placed, remembered, after_calls, Call, same_request,
}
use fuzz_helm.Execution.Router.Once.{submit-once}
use fuzz_helm.Execution.Router.Recovery.{submit-returns, submit-failed}
use fuzz_helm.Execution.Costs.{next_funding_time, is_funding_time, funding_times, is_in}
use fuzz_helm.Execution.Costs.Schedule.{WithinDay, funding_times-due}
use fuzz_helm.Execution.Costs.Next.{Ascending, next_funding_time-least}

abbrev pub order : String → Side → ℕ → Bool → ℕ → OrderRequest Decimal
order coid side qty reduce created = record {
  client_order_id = coid;
  instrument = "BTC";
  side = side;
  otype = OrderType.market;
  qty = of_int (pos qty);
  stop_price = none;
  reduce_only = reduce;
  decision_ref = none;
  ts_created_ns = created;
}

-- The state of the venue is how many orders it got.
abbrev counting : Venue ℕ
counting = record {
  name = "counting";
  submit = λ req seen. (
    seen + 1,
    some (record {
      client_order_id = req.client_order_id;
      venue_order_id = some "V";
      status = OrderStatus.new;
      reject_code = none;
      ts_ns = 5;
    }),
  );
  on_bar = λ bar seen. (seen, []);
  cancel_all = λ instrument seen. seen;
  query_order = none;
}

abbrev broken : Venue ℕ
broken = record counting { submit = λ req seen. (seen + 1, none) }

abbrev counted_ack : OrderAck
counted_ack = record {
  client_order_id = "a";
  venue_order_id = some "V";
  status = OrderStatus.new;
  reject_code = none;
  ts_ns = 5;
}

abbrev between : List Call
between = Call.submitted none (order "b" Side.short 1 false 3) ∷ Call.cancelled "BTC" ∷ []

abbrev first_router : Router ℕ
first_router = (Router.submit counting none (order "a" Side.long 2 false 1) (new_router 0)).0

submit-once_example :
    Router.submit counting none
      (order "a" Side.long 2 false 1)
      (after_calls counting between first_router)
    ≡ (
      after_calls counting between first_router,
      ok (
          if same_request (order "a" Side.long 2 false 1) (order "a" Side.long 2 false 1)
          then counted_ack
          else rejection none (order "a" Side.long 2 false 1) RejectCode.duplicate_client_id),
    )
unfolding lookup placed
submit-once_example =
    submit-once counting none none (new_router 0) (order "a" Side.long 2 false 1)
      (order "a" Side.long 2 false 1) counted_ack between refl refl refl

-- Two orders went out, and the repeated one did not.
two_calls :
    (Router.submit counting none
      (order "a" Side.long 2 false 1)
      (after_calls counting between first_router)).0.state
    ≡ 2
unfolding Router.submit after_calls Decimal.le
two_calls = refl

submit-returns_example :
    (ack : OrderAck) × ((Router.submit counting none
        (order "a" Side.long 2 false 1)
        (after_calls counting between (new_router 0))).1
      ≡ ok ack)
submit-returns_example = submit-returns counting none (order "a" Side.long 2 false 1) between 0

submit-failed_example :
    ((Router.submit broken none (order "a" Side.long 2 false 1) (new_router 0)).1
      ≡ ok (rejection none (order "a" Side.long 2 false 1) RejectCode.venue_error))
    × (Router.submit broken none
          (order "a" Side.long 2 false 1)
          ((Router.submit broken none (order "a" Side.long 2 false 1) (new_router 0)).0)
        ≡ remembered broken none
            (record (new_router 0) { state = 1; venue_calls = 2 })
            (order "a" Side.long 2 false 1)
            (placed broken
              (order "a" Side.long 2 false 1)
              (broken.submit (order "a" Side.long 2 false 1) 1)))
unfolding lookup placed
submit-failed_example =
    submit-failed broken none (order "a" Side.long 2 false 1) (new_router 0) 1 refl refl

abbrev hour : ℕ
hour = 3_600_000_000_000

abbrev thrice : List ℕ
thrice = 0 ∷ 8 * hour ∷ 16 * hour ∷ []

thrice-WithinDay : WithinDay thrice
thrice-WithinDay = (omega arith, (omega arith, (omega arith, tt)))

thrice-Ascending : Ascending thrice
thrice-Ascending = ((omega arith, (omega arith, tt)), ((omega arith, tt), (tt, tt)))

next_funding_time-least_example :
    (s : ℕ) × (next_funding_time thrice (9 * hour) ≡ some s)
    × (9 * hour < s)
    × (is_funding_time thrice s ≡ true)
    × ((u : ℕ) → 9 * hour < u → u < s → is_funding_time thrice u ≡ false)
next_funding_time-least_example =
    next_funding_time-least 0 (8 * hour ∷ 16 * hour ∷ []) (9 * hour) thrice-WithinDay
      thrice-Ascending

next_funding_at_nine : next_funding_time thrice (9 * hour) ≡ some (16 * hour)
unfolding next_funding_time
next_funding_at_nine = refl

funding_times-due_example :
    (ts : List ℕ) × (funding_times thrice (9 * hour) (41 * hour) ≡ some ts)
    × ((u : ℕ) → is_in u ts ≡ ((ltb (9 * hour) u && leb u (41 * hour)) && is_funding_time thrice u))
funding_times-due_example = funding_times-due thrice (9 * hour) (41 * hour) thrice-WithinDay

funding_times_over_a_day :
    funding_times thrice (9 * hour) (41 * hour)
    ≡ some (16 * hour ∷ 24 * hour ∷ 32 * hour ∷ 40 * hour ∷ [])
unfolding funding_times
funding_times_over_a_day = refl
