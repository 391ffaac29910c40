-- ===== src/Execution/Broker/Again.antt =====
-- The orders that the broker has seen (execution/paper_broker.py): no key is used twice.
use fuzz_helm.Base.{
  ℕ, true, not, ◌&&◌, ◌≡◌, refl, sym, ap, ◌∙◌, inl, inr, Option, none, some, String, if◌then◌else◌,
  ok, >>=-eq-ok, if-eq-ok, ok-injective,
}
use fuzz_helm.Base.Dict.{lookup, has, string_key, has-put}
use fuzz_helm.Core.Enums.{RejectCode}
use fuzz_helm.Decimal.{Decimal, d0, floor_qty}
use fuzz_helm.Decimal
use fuzz_helm.Execution.Orders.{OrderRequest, OrderAck}
use fuzz_helm.Execution.Broker.State.{InstState, Outside, Broker}
use fuzz_helm.Execution.Broker.Submit.{
  submit, known, checked, sized, with_stop, bad_stop, below_min, reject, accept, refusal,
  stop_on_grid,
}
use fuzz_helm.Execution.Broker.Calls.{Steps, Steps-Taken}

self : (k : String) → string_key.same k k ≡ true
self k = (string_key.same_iff k k).1 refl

module _ {X : Type 0} (out : Outside X) where
  reject-has :
      (req : OrderRequest Decimal) (code : RejectCode) (now : ℕ) (b : Broker X)
      → has req.client_order_id ((reject req code now b).0).orders ≡ true
  unfolding reject
  reject-has req code now b =
      has-put req.client_order_id req.client_order_id _ b.orders
      ∙ rw (self req.client_order_id) refl

  accept-has :
      (req : OrderRequest Decimal) (st : InstState) (now : ℕ) (b : Broker X)
      → has req.client_order_id ((accept out req st now b).0).orders ≡ true
  unfolding accept
  accept-has req st now b =
      has-put req.client_order_id req.client_order_id _ b.orders
      ∙ rw (self req.client_order_id) refl

  -- The outcome of `checked` knows the key.
  Knows : String → Broker X × OrderAck → Type 0
  Knows key r = has key ((r.0).orders) ≡ true

  with_stop-Knows :
      (req : OrderRequest Decimal) (st : InstState) (now : ℕ) (b : Broker X) (qty : Decimal)
      (r : Broker X × OrderAck)
      → with_stop out req st now b qty ≡ ok r
      → Knows req.client_order_id r
  unfolding with_stop Knows
  with_stop-Knows req st now b qty r same =
      let (sp, _, next) =
        >>=-eq-ok (stop_on_grid req.otype req.stop_price st.spec.tick_size) _ same in
      elim (if-eq-ok (bad_stop req.otype sp) _ _ next) [
        | inl (_, done) ↦ rw (sym (ok-injective done)) (reject-has req RejectCode.venue_error now b)
        | inr (_, done) ↦ rw (sym (ok-injective done)) (
            accept-has
              (record req {
                qty = if Decimal.eq qty req.qty then req.qty else qty;
                stop_price = sp;
              })
              st now b)
      ]

  sized-Knows :
      (req : OrderRequest Decimal) (st : InstState) (now : ℕ) (b : Broker X) (qty : Decimal)
      (r : Broker X × OrderAck)
      → sized out req st now b qty ≡ ok r
      → Knows req.client_order_id r
  unfolding sized Knows
  sized-Knows req st now b qty r same =
      elim (if-eq-ok (not req.reduce_only && below_min st.last_close qty st.spec.min_notional) _ _
        same) [
          | inl (_, done) ↦
              rw (sym (ok-injective done)) (reject-has req RejectCode.below_min_notional now b)
          | inr (_, more) ↦ with_stop-Knows req st now b qty r more
        ]

  checked-Knows :
      (req : OrderRequest Decimal) (st : InstState) (now : ℕ) (b : Broker X)
      (r : Broker X × OrderAck)
      → checked out req st now b ≡ ok r
      → Knows req.client_order_id r
  unfolding checked Knows
  checked-Knows req st now b r same =
      let (qty, _, next) = >>=-eq-ok (floor_qty req.qty st.spec.step_size) _ same in
      elim (if-eq-ok (Decimal.le qty d0) _ _ next) [
        | inl (_, done) ↦ rw (sym (ok-injective done)) (reject-has req RejectCode.zero_qty now b)
        | inr (_, more) ↦ sized-Knows req st now b qty r more
      ]

  known-Knows :
      (req : OrderRequest Decimal) (st : Option InstState) (now : ℕ) (b : Broker X)
      (r : Broker X × OrderAck)
      → known out req st now b ≡ ok r
      → Knows req.client_order_id r
  unfolding known Knows
  known-Knows req none now b r same =
      rw (sym (ok-injective same)) (reject-has req RejectCode.venue_error now b)
  known-Knows req (some st) now b r same = checked-Knows req st now b r same

  -- Once a submission has returned, accepted or refused, its key is taken for good: after any further calls
  -- of the broker that return, bars and cancellations among them, an order under that key is refused
  -- as a duplicate, and the broker stays as it is.
  pub submit-again :
      (req req' : OrderRequest Decimal) (now now' : ℕ) (b b' b'' : Broker X) (ack : OrderAck)
      → submit out req now b ≡ ok (b', ack)
      → Steps out b' b''
      → req'.client_order_id ≡ req.client_order_id
      → submit out req' now' b'' ≡ ok (b'', refusal req' RejectCode.duplicate_client_id now')
  unfolding submit Knows
  submit-again req req' now now' b b' b'' ack same between same_key =
      let first : has req.client_order_id b'.orders ≡ true =
        elim (if-eq-ok (has req.client_order_id b.orders) _ _ same) [
          | inl (seen, done) ↦
              ap (λ r. has req.client_order_id ((r.0).orders)) (sym (ok-injective done)) ∙ seen
          | inr (_, done) ↦ known-Knows req (lookup req.instrument b.states) now b (b', ack) done
        ] in
      let taken : has req'.client_order_id b''.orders ≡ true =
        rw same_key (Steps-Taken out req.client_order_id between first) in
      rw taken refl
