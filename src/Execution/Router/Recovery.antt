-- ===== src/Execution/Router/Recovery.antt =====
-- The router never raises, and an order that failed can be sent again.
use fuzz_helm.Base.{
  ℕ, ◌+◌, true, ◌≡◌, refl, ap, inl, inr, Option, none, some, List, [], ◌∷◌, ok, String,
  if◌then◌else◌, arith, Bool-cases, Option-cases,
}
use fuzz_helm.Base.Dict.{lookup, has, string_key, has-put, lookup-has, has_of_lookup}
use fuzz_helm.Core.Enums.{RejectCode}
use fuzz_helm.Decimal.{Decimal}
use fuzz_helm.Execution.Orders.{OrderRequest, OrderAck}
use fuzz_helm.Execution.Router.Defs.{
  Venue, Router, new_router, same_request, rejection, placed, remembered, recalled, repeated,
  dispatch, submit, Call, submitted, bar, cancelled, after_call, after_calls,
}

module _ {V : Type 0} (venue : Venue V) where
  -- Every remembered order has its answer.
  abbrev Synced : Router V → Type 0
  Synced r = (k : String) → (if has k r.requests then has k r.acks else true) ≡ true

  remembered-Synced :
      (clock : Option ℕ) (r : Router V) (req : OrderRequest Decimal) (o : V × Option OrderAck)
      → Synced r
      → Synced ((remembered venue clock r req o).0)
  unfolding remembered
  remembered-Synced clock r req (v, none) h = λ k. h k
  remembered-Synced clock r req (v, some ack) h = λ k. ground (
    arith,
    h k,
    has-put k req.client_order_id req r.requests,
    has-put k req.client_order_id ack r.acks,
  )

  submit-Synced :
      (clock : Option ℕ) (req : OrderRequest Decimal) (r : Router V)
      → Synced r
      → Synced ((submit venue clock req r).0)
  unfolding submit dispatch repeated
  submit-Synced clock req r h = elim (Option-cases (lookup req.client_order_id r.requests)) [
    | inl fresh ↦ rw fresh (
        remembered-Synced clock (record r { venue_calls = r.venue_calls + 1 }) req
          (placed venue req (venue.submit req r.state)) (λ k. h k))
    | inr (prev, taken) ↦ elim (Bool-cases (same_request prev req)) [
      | inl same ↦ rw (taken, same) h
      | inr differ ↦ rw (taken, differ) h
    ]
  ]

  after_call-Synced : (c : Call) (r : Router V) → Synced r → Synced (after_call venue c r)
  unfolding after_call
  after_call-Synced (submitted clock req) r h = submit-Synced clock req r h
  after_call-Synced (bar candle) r h = λ k. h k
  after_call-Synced (cancelled instrument) r h = λ k. h k

  after_calls-Synced : (cs : List Call) (r : Router V) → Synced r → Synced (after_calls venue cs r)
  unfolding after_calls
  after_calls-Synced [] r h = h
  after_calls-Synced (c ∷ cs) r h =
      after_calls-Synced cs (after_call venue c r) (after_call-Synced c r h)

  remembered-returns :
      (clock : Option ℕ) (r : Router V) (req : OrderRequest Decimal) (o : V × Option OrderAck)
      → (ack : OrderAck) × ((remembered venue clock r req o).1 ≡ ok ack)
  unfolding remembered
  remembered-returns clock r req (v, none) = (rejection clock req RejectCode.venue_error, refl)
  remembered-returns clock r req (v, some ack) = (ack, refl)

  submit-ok :
      (clock : Option ℕ) (req : OrderRequest Decimal) (r : Router V)
      → Synced r
      → (ack : OrderAck) × ((submit venue clock req r).1 ≡ ok ack)
  unfolding submit dispatch repeated recalled
  submit-ok clock req r h = elim (Option-cases (lookup req.client_order_id r.requests)) [
    | inl fresh ↦ rw fresh (
        remembered-returns clock (record r { venue_calls = r.venue_calls + 1 }) req
          (placed venue req (venue.submit req r.state)))
    | inr (prev, taken) ↦ elim (Bool-cases (same_request prev req)) [
      | inl same ↦
          let (ack, known) =
            lookup-has req.client_order_id r.acks (
              ground
                (arith, h req.client_order_id, has_of_lookup req.client_order_id r.requests)) in
          rw (taken, same, known) (ack, refl)
      | inr differ ↦ rw (taken, differ) (rejection clock req RejectCode.duplicate_client_id, refl)
    ]
  ]

  -- Whatever the venue does, its failures included, and whatever the router was asked since it was
  -- made, a submission returns an answer: the answer of a remembered order is never missing.
  pub submit-returns :
      (clock : Option ℕ) (req : OrderRequest Decimal) (cs : List Call) (v : V)
      → (ack : OrderAck) × ((submit venue clock req (after_calls venue cs (new_router v))).1
          ≡ ok ack)
  unfolding has
  submit-returns clock req cs v =
      submit-ok clock req (after_calls venue cs (new_router v))
        (after_calls-Synced cs (new_router v) (λ k. refl))

  -- Where the venue raised and its query told nothing, the order is refused with VENUE_ERROR, and its key
  -- stays free: the same order, sent once more at the same reading of the clock, calls the venue again,
  -- on the state that the failure left.
  pub submit-failed :
      (clock : Option ℕ) (req : OrderRequest Decimal) (r : Router V) (v : V)
      → lookup req.client_order_id r.requests ≡ none
      → placed venue req (venue.submit req r.state) ≡ (v, none)
      → ((submit venue clock req r).1 ≡ ok (rejection clock req RejectCode.venue_error))
        × (submit venue clock req ((submit venue clock req r).0)
            ≡ remembered venue clock
                (record r { state = v; venue_calls = r.venue_calls + 2 })
                req
                (placed venue req (venue.submit req v)))
  unfolding submit dispatch remembered
  submit-failed clock req r v fresh failed =
      rw (fresh, failed, fresh)
        (
          refl,
          ap
              (λ calls.
                remembered venue clock (record r { state = v; venue_calls = calls }) req
                  (placed venue req (venue.submit req v)))
              (omega arith),
        )
