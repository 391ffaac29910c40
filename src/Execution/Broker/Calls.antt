-- ===== src/Execution/Broker/Calls.antt =====
-- The calls of the broker in any order (execution/paper_broker.py): a key that is taken stays taken.
use fuzz_helm.Base.{
  ℕ, Bool, true, false, not, ◌&&◌, ◌≡◌, Option, none, some, List, [], ◌∷◌, ◌++◌, String, raise_if,
  value_error, ok,
}
use fuzz_helm.Base.Dict.{Dict, lookup, put, has, string_key}
use fuzz_helm.Core.Enums.{Side, RejectCode, OrderStatus}
use fuzz_helm.Decimal.{Decimal, d0, floor_qty}
use fuzz_helm.Decimal
use fuzz_helm.Execution.Orders.{OrderRequest, OrderAck, Fill}
use fuzz_helm.Execution.Broker.State.{
  DecBar, Order, InstState, Outside, Broker, is_new, order_of, require,
}
use fuzz_helm.Execution.Broker.Submit.{
  submit, known, checked, sized, with_stop, bad_stop, below_min, reject, accept, stop_on_grid,
  canceled, cancel, cancel_one, cancel_all, cancel_known, cancel_queue, set_take_profit,
  set_liquidation_price, set_funding_rate, drain_funding, on_tick, is_flat,
}
use fuzz_helm.Execution.Broker.Bar.{on_bar}
use fuzz_helm.Execution.Broker.Kept.{Returns, >>=-Returns, if-both, returned}
use fuzz_helm.Execution.Broker.Steps.{has_write, on_bar-has}

module _ {X : Type 0} (out : Outside X) where
  -- A call that returns, from one broker to the next.
  pub data Step : Broker X → Broker X → Type 0 where
    submitted :
        {b b' : Broker X} (req : OrderRequest Decimal) (now : ℕ) (ack : OrderAck)
        → submit out req now b ≡ ok (b', ack)
        → Step b b'
    bar_seen :
        {b b' : Broker X} (bar : DecBar) (fills : List (Fill Decimal))
        → on_bar out bar b ≡ some (ok (b', fills))
        → Step b b'
    cancelled :
        {b b' : Broker X} (coid : String) (done : Bool) → cancel coid b ≡ ok (b', done) → Step b b'
    all_cancelled :
        {b b' : Broker X} (instrument : String) → cancel_all instrument b ≡ ok b' → Step b b'
    profit_set :
        {b b' : Broker X} (instrument : String) (price : Option Decimal) (side : Option Side)
        → set_take_profit instrument price side b ≡ ok b'
        → Step b b'
    liquidation_set :
        {b b' : Broker X} (instrument : String) (price : Option Decimal)
        → set_liquidation_price instrument price b ≡ ok b'
        → Step b b'
    rate_set :
        {b b' : Broker X} (instrument : String) (rate : Decimal)
        → set_funding_rate instrument rate b ≡ ok b'
        → Step b b'
    drained : {b : Broker X} → Step b (drain_funding b).0

  pub data Steps : Broker X → Broker X → Type 0 where
    done : {b : Broker X} → Steps b b
    next : {a b c : Broker X} → Step a b → Steps b c → Steps a c

  -- The key is among the orders.
  abbrev Taken : String → Broker X → Type 0
  Taken c b = has c b.orders ≡ true

  known-Taken :
      (c : String) (req : OrderRequest Decimal) (st : Option InstState) (now : ℕ) (b : Broker X)
      → Taken c b
      → Returns (λ r. Taken c (r.0)) (known out req st now b)
  unfolding known checked sized with_stop reject accept
  known-Taken c req none now b h = has_write c req.client_order_id _ b.orders h
  known-Taken c req (some st) now b h =
      let P = Returns (λ (r : Broker X × OrderAck). Taken c (r.0)) in
      let refused = λ (code : RejectCode).
        has_write c req.client_order_id
          (record {
            req = req;
            venue_order_id = none;
            status = OrderStatus.rejected;
            reject_code = some code;
            ts_ns = now;
            filled_qty = d0;
            avg_price = none;
            exit_reason = none;
          })
          b.orders h in
      >>=-Returns (λ r. Taken c (r.0)) (floor_qty req.qty st.spec.step_size) _
        (λ qty e.
          if-both P (Decimal.le qty d0) (ok (reject req RejectCode.zero_qty now b))
            (sized out req st now b qty) (λ t. refused RejectCode.zero_qty)
            (λ t.
              if-both P (not req.reduce_only && below_min st.last_close qty st.spec.min_notional)
                (ok (reject req RejectCode.below_min_notional now b))
                (with_stop out req st now b qty) (λ u. refused RejectCode.below_min_notional)
                (λ u.
                  >>=-Returns (λ r. Taken c (r.0))
                    (stop_on_grid req.otype req.stop_price st.spec.tick_size) _
                    (λ sp f.
                      if-both P (bad_stop req.otype sp)
                        (ok (reject req RejectCode.venue_error now b)) _
                        (λ v. refused RejectCode.venue_error)
                        (λ v. has_write c req.client_order_id _ b.orders h)))))

  cancel_queue-has :
      (c : String) (q : List String) (d : Dict String Order)
      → has c d ≡ true
      → Returns (λ d'. has c d' ≡ true) (cancel_queue q d)
  unfolding cancel_queue
  cancel_queue-has c [] d h = h
  cancel_queue-has c (j ∷ q) d h =
      >>=-Returns (λ d'. has c d' ≡ true) (order_of d j) _
        (λ o e. cancel_queue-has c q (put j (canceled o) d) (has_write c j (canceled o) d h))

  cancel_known-Taken :
      (c instrument : String) (st : Option InstState) (b : Broker X)
      → Taken c b
      → Returns (Taken c) (cancel_known instrument st b)
  unfolding cancel_known
  cancel_known-Taken c instrument none b h = h
  cancel_known-Taken c instrument (some st) b h =
      >>=-Returns (Taken c) (cancel_queue (st.market_queue ++ st.stop_orders) b.orders) _ (λ d e.
        returned (λ d'. has c d' ≡ true) _
          (cancel_queue-has c (st.market_queue ++ st.stop_orders) b.orders h) e)

  cancel_one-Taken :
      (c coid : String) (o : Option Order) (b : Broker X)
      → Taken c b
      → Returns (λ r. Taken c (r.0)) (cancel_one coid o b)
  unfolding cancel_one
  cancel_one-Taken c coid none b h = h
  cancel_one-Taken c coid (some o) b h =
      if-both (Returns (λ r. Taken c (r.0))) (not (is_new o.status)) (ok (b, false)) _ (λ t. h)
        (λ t.
          >>=-Returns (λ r. Taken c (r.0)) (require b o.req.instrument) _
            (λ st e. has_write c coid _ b.orders h))

  Step-Taken : (c : String) {b b' : Broker X} → Step b b' → Taken c b → Taken c b'
  unfolding submit cancel cancel_all set_take_profit set_liquidation_price set_funding_rate
  Step-Taken c {b} (Step.submitted req now ack e) h =
      let P = Returns (λ (r : Broker X × OrderAck). Taken c (r.0)) in
      returned (λ r. Taken c (r.0)) (submit out req now b)
        (if-both P (has req.client_order_id b.orders) _ _ (λ t. h)
          (λ t. known-Taken c req (lookup req.instrument b.states) now b h))
        e
  Step-Taken c {b} {b'} (Step.bar_seen bar fills e) h = on_bar-has out c bar b b' fills h e
  Step-Taken c {b} (Step.cancelled coid x e) h =
      returned (λ r. Taken c (r.0)) _ (cancel_one-Taken c coid (lookup coid b.orders) b h) e
  Step-Taken c {b} (Step.all_cancelled i e) h =
      returned (Taken c) _ (cancel_known-Taken c i (lookup i b.states) b h) e
  Step-Taken c {b} (Step.profit_set i price side e) h =
      returned (Taken c) (set_take_profit i price side b)
        (>>=-Returns (Taken c) (require b i) _ (λ st f.
          >>=-Returns (Taken c) (raise_if (is_flat side) value_error) _
            (λ u g. >>=-Returns (Taken c) (on_tick price st.spec.tick_size) _ (λ p k. h))))
        e
  Step-Taken c {b} (Step.liquidation_set i price e) h =
      returned (Taken c) (set_liquidation_price i price b)
        (>>=-Returns (Taken c) (require b i) _ (λ st f. h)) e
  Step-Taken c {b} (Step.rate_set i rate e) h =
      returned (Taken c) (set_funding_rate i rate b)
        (>>=-Returns (Taken c) (require b i) _ (λ st f. h)) e
  Step-Taken c Step.drained h = h

  pub Steps-Taken : (c : String) {b b' : Broker X} → Steps b b' → Taken c b → Taken c b'
  Steps-Taken c Steps.done h = h
  Steps-Taken c (Steps.next s rest) h = Steps-Taken c rest (Step-Taken c s h)
