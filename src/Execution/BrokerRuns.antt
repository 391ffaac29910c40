-- ===== src/Execution/BrokerRuns.antt =====
-- The broker at concrete inputs.
use fuzz_helm.Base.{
  ℕ, ◌+◌, ◌≡◌, ◌≢◌, refl, true, false, ◌||◌, ◌⊎◌, none, some, List, [], ◌∷◌, ◌++◌, String, ok, IsOk,
  Result, Option, ap, length, got, got-eq, arith,
}
use fuzz_helm.Base.Int.{pos}
use fuzz_helm.Base.Dict.{lookup, string_key, Entries}
use fuzz_helm.Core.Enums.{Side, same_side, OrderStatus, RejectCode, ContractType}
use fuzz_helm.Decimal.{Decimal, d0, d1, of_int}
use fuzz_helm.Decimal
use fuzz_helm.Execution.Number.{sign, decimal_number}
use fuzz_helm.Execution.Orders.{OrderRequest, Fill}
use fuzz_helm.Execution.Costs.{CostMode, CostModelConfig, offsets}
use fuzz_helm.Execution.Costs.Schedule.{WithinDay}
use fuzz_helm.Execution.Broker
use fuzz_helm.Execution.Broker.{
  Instrument, DecBar, Order, Broker, Book, Outside, InstState, new_broker, refusal, execute, on_bar,
  open_orders, cancel_all, book_of, new_state,
}
use fuzz_helm.Execution.Broker.Again.{submit-again}
use fuzz_helm.Execution.Broker.Calls.{Step, Steps}
use fuzz_helm.Execution.Broker.Steps.{IsTimely, on_bar-IsTimely}
use fuzz_helm.Execution.Broker.Limits.{execute-reduces}
use fuzz_helm.Execution.Broker.Room.{has_id}
use fuzz_helm.Execution.Broker.Cancel.{Closed, cancel_all-Closed}
use fuzz_helm.Execution.Broker.Fuel.{on_bar-ends}
use fuzz_helm.Execution.OrderRuns.{order}

abbrev outside : Outside ℕ
outside = record {
  normal = λ x. (x + 1, d0);
  next_uuid = λ x. (x + 1, "exit");
  sqrt = λ a. a;
  order_id = λ n. "PB";
}

abbrev costs : CostModelConfig
costs = record {
  mode = CostMode.full;
  k_s = record { coef = pos 5; scale = 1 };
  taker_fee = record { coef = pos 4; scale = 4 };
  maker_fee = record { coef = pos 2; scale = 4 };
  default_spread_ticks = 1;
  funding_hours_utc = 0 ∷ 8 ∷ 16 ∷ [];
  noise_bps = d0;
}

abbrev spec : Instrument
spec = record {
  venue = "PAPER";
  symbol_venue = "BTCUSDT";
  symbol_canon = "BTC";
  base_asset = "BTC";
  quote_asset = "USDT";
  contract_type = ContractType.perp;
  tick_size = record { coef = pos 1; scale = 1 };
  step_size = record { coef = pos 1; scale = 3 };
  min_notional = of_int (pos 5);
  mmr = record { coef = pos 5; scale = 3 };
  maint_amount = d0;
  max_leverage = 3;
}

abbrev started : Broker ℕ
started = record {
  cost = costs;
  lam = record { coef = pos 94; scale = 2 };
  states = ("BTC", new_state spec d0) ∷ [];
  orders = [];
  funding = [];
  seq = 0;
  outside = 0;
}

abbrev entry : OrderRequest Decimal
entry = order "e" Side.long 2 false 60

entered_ok : IsOk (Broker.submit outside entry 60 started)
unfolding Broker.submit Decimal.le
entered_ok = tt

abbrev entered : Broker ℕ
entered = (got (Broker.submit outside entry 60 started) entered_ok).0

abbrev long_three : InstState
long_three = record (new_state spec d0) { position = of_int (pos 3) }

cancelled_ok : IsOk (cancel_all "BTC" entered)
unfolding cancel_all Broker.submit Decimal.le
cancelled_ok = tt

abbrev left_open : Broker ℕ
left_open = got (cancel_all "BTC" entered) cancelled_ok

-- The key is still taken after a cancellation.
submit-again_example :
    Broker.submit outside entry 70 left_open
    ≡ ok (left_open, refusal entry RejectCode.duplicate_client_id 70)
submit-again_example =
    submit-again outside entry entry 60 70 started entered left_open
      ((got (Broker.submit outside entry 60 started) entered_ok).1) (got-eq _ entered_ok)
      (Steps.next (Step.all_cancelled "BTC" (got-eq _ cancelled_ok)) Steps.done) refl

abbrev waiting : InstState
waiting = record (new_state spec d0) { market_queue = "e" ∷ [] }

waiting_known : lookup "BTC" entered.states ≡ some waiting
unfolding lookup Broker.submit Decimal.le
waiting_known = refl

cancel_all-Closed_example :
    ((c : String)
      → (Closed c entered.orders) ⊎ (has_id c (waiting.market_queue ++ waiting.stop_orders) ≡ true)
      → Closed c left_open.orders)
    × (open_orders "BTC" left_open ≡ ok [])
cancel_all-Closed_example =
    cancel_all-Closed "BTC" waiting entered left_open waiting_known (got-eq _ cancelled_ok)

abbrev bar : DecBar
bar = record {
  instrument = "BTC";
  open_time_ns = 120;
  o = of_int (pos 100);
  h = of_int (pos 110);
  l = of_int (pos 90);
  c = of_int (pos 105);
  volume = of_int (pos 7);
}

costs-WithinDay : WithinDay (offsets costs)
unfolding offsets
costs-WithinDay = (omega arith, (omega arith, (omega arith, tt)))

on_bar-ends_example : on_bar outside bar entered ≢ none
unfolding Broker.submit Decimal.le
on_bar-ends_example = on_bar-ends outside bar entered costs-WithinDay

-- What a call on fuel gives, where it returns.
abbrev IsDone : {A : Type 0} → Option (Result A) → Type 0
IsDone none = ⊥
IsDone (some r) = IsOk r

abbrev result : {A : Type 0} (m : Option (Result A)) → IsDone m → A
result none h = absurd h
result (some r) h = got r h

result-eq : {A : Type 0} (m : Option (Result A)) (h : IsDone m) → m ≡ some (ok (result m h))
result-eq none h = absurd h
result-eq (some r) h = ap some (got-eq r h)

-- The entry was created at 60, and the bar opens at 120.
bar-IsDone : IsDone (on_bar outside bar entered)
unfolding on_bar Broker.submit Decimal.le Decimal.add Decimal.sub
bar-IsDone = tt

abbrev after_bar : Broker ℕ × List (Fill Decimal)
after_bar = result (on_bar outside bar entered) bar-IsDone

entered-IsTimely : Entries (λ c o. IsTimely 120 o) entered.orders
unfolding Broker.submit Decimal.le
entered-IsTimely = ((λ filled. refl), tt)

on_bar-IsTimely_example : Entries (λ c o. IsTimely 120 o) (after_bar.0).orders
on_bar-IsTimely_example =
    on_bar-IsTimely outside bar entered (after_bar.0) (after_bar.1) entered-IsTimely
      (result-eq _ bar-IsDone)

one_fill : length (after_bar.1) ≡ 1
unfolding on_bar Broker.submit Decimal.le Decimal.add Decimal.sub
one_fill = refl

-- A bar from 30 leaves it.
abbrev early_bar : DecBar
early_bar = record bar { open_time_ns = 30 }

early-IsDone : IsDone (on_bar outside early_bar entered)
unfolding on_bar Broker.submit Decimal.le Decimal.add Decimal.sub
early-IsDone = tt

no_fill : (result (on_bar outside early_bar entered) early-IsDone).1 ≡ []
unfolding on_bar Broker.submit Decimal.le Decimal.add Decimal.sub
no_fill = refl

-- A reduce-only order of 5 against a position of 3.
abbrev exit : Order
exit = record {
  req = order "r" Side.short 5 true 1;
  venue_order_id = some "PB";
  status = OrderStatus.new;
  reject_code = none;
  ts_ns = 60;
  filled_qty = d0;
  avg_price = none;
  exit_reason = none;
}

abbrev held_book : Book ℕ
held_book = book_of long_three started

exit_ok : IsOk (execute outside costs exit (of_int (pos 100)) 120 none held_book)
unfolding execute Decimal.le Decimal.abs Decimal.add Decimal.sub
exit_ok = tt

abbrev exited : Book ℕ
exited = got (execute outside costs exit (of_int (pos 100)) 120 none held_book) exit_ok

execute-reduces_example :
    (exited.fills ≡ [])
    ⊎ ((f : Fill Decimal) × (exited.fills ≡ f ∷ [])
        × (f.side ≡ Side.short)
        × (Decimal.le f.qty (of_int (pos 5)) ≡ true)
        × (Decimal.le f.qty (Decimal.abs (of_int (pos 3))) ≡ true)
        × ((Decimal.eq (of_int (pos 3)) d0 || same_side (sign (of_int (pos 3))) Side.short)
            ≡ false))
execute-reduces_example =
    execute-reduces costs outside exit (of_int (pos 100)) 120 none held_book exited refl
      (got-eq _ exit_ok)
