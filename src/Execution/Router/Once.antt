-- ===== src/Execution/Router/Once.antt =====
-- An order goes to the venue once: the key of an order that is known is never used again.
use mathlib.Core.Option.{none-ne-some}
use fuzz_helm.Base.{
  ℕ, ◌+◌, false, ◌≡◌, refl, sym, ap, ◌∙◌, inl, inr, Option, none, some, List, [], ◌∷◌, ok, String,
  if◌then◌else◌, arith, Bool-cases, Option-cases,
}
use fuzz_helm.Base.Dict.{lookup, string_key, lookup-put}
use fuzz_helm.Core.Enums.{RejectCode}
use fuzz_helm.Decimal.{Decimal}
use fuzz_helm.Execution.Orders.{OrderRequest, OrderAck}
use fuzz_helm.Execution.Router.Defs.{
  Venue, Router, same_request, rejection, placed, remembered, recalled, repeated, dispatch, submit,
  Call, submitted, bar, cancelled, after_call, after_calls,
}

module _ {V : Type 0} (venue : Venue V) where
  -- The key holds this order, with this answer.
  record Holds (key : String) (req : OrderRequest Decimal) (ack : OrderAck) (r : Router V)
      : Type 0 where
    request : lookup key r.requests ≡ some req
    answer : lookup key r.acks ≡ some ack

  -- A new key is another key.
  other_key :
      (key key' : String) (req : OrderRequest Decimal) (ack : OrderAck) (r : Router V)
      → Holds key req ack r
      → lookup key' r.requests ≡ none
      → string_key.same key key' ≡ false
  other_key key key' req ack r h fresh = elim (Bool-cases (string_key.same key key')) [
    | inl same ↦ absurd (
        none-ne-some _ (
          sym fresh
          ∙ ap (λ k. lookup k r.requests) (sym ((string_key.same_iff key key').0 same))
          ∙ h.request))
    | inr differ ↦ differ
  ]

  remembered-Holds :
      (clock : Option ℕ) (r : Router V) (req' : OrderRequest Decimal) (o : V × Option OrderAck)
      (key : String) (req : OrderRequest Decimal) (ack : OrderAck)
      → lookup req'.client_order_id r.requests ≡ none
      → Holds key req ack r
      → Holds key req ack ((remembered venue clock r req' o).0)
  unfolding remembered
  remembered-Holds clock r req' (v, none) key req ack fresh h = record {
    request = h.request;
    answer = h.answer;
  }
  remembered-Holds clock r req' (v, some ack') key req ack fresh h =
      let differ = other_key key req'.client_order_id req ack r h fresh in
      record {
        request = rw (lookup-put key req'.client_order_id req' r.requests, differ) h.request;
        answer = rw (lookup-put key req'.client_order_id ack' r.acks, differ) h.answer;
      }

  repeated-state :
      (clock : Option ℕ) (r : Router V) (req prev : OrderRequest Decimal)
      → (repeated venue clock r req prev).0 ≡ r
  unfolding repeated
  repeated-state clock r req prev = ground arith

  submit-Holds_old :
      (clock : Option ℕ) (req' : OrderRequest Decimal) (r : Router V) (key : String)
      (req : OrderRequest Decimal) (ack : OrderAck)
      → Holds key req ack r
      → Holds key req ack ((submit venue clock req' r).0)
  unfolding submit dispatch
  submit-Holds_old clock req' r key req ack h =
      elim (Option-cases (lookup req'.client_order_id r.requests)) [
        | inl fresh ↦ rw fresh (
            remembered-Holds clock (record r { venue_calls = r.venue_calls + 1 }) req'
              (placed venue req' (venue.submit req' r.state)) key req ack fresh
              (record { request = h.request; answer = h.answer }))
        | inr (prev, taken) ↦ rw (taken, repeated-state clock r req' prev) h
      ]

  after_call-Holds :
      (c : Call) (r : Router V) (key : String) (req : OrderRequest Decimal) (ack : OrderAck)
      → Holds key req ack r
      → Holds key req ack (after_call venue c r)
  unfolding after_call
  after_call-Holds (submitted clock req') r key req ack h =
      submit-Holds_old clock req' r key req ack h
  after_call-Holds (bar candle) r key req ack h = record { request = h.request; answer = h.answer }
  after_call-Holds (cancelled instrument) r key req ack h = record {
    request = h.request;
    answer = h.answer;
  }

  after_calls-Holds :
      (cs : List Call) (r : Router V) (key : String) (req : OrderRequest Decimal) (ack : OrderAck)
      → Holds key req ack r
      → Holds key req ack (after_calls venue cs r)
  unfolding after_calls
  after_calls-Holds [] r key req ack h = h
  after_calls-Holds (c ∷ cs) r key req ack h =
      after_calls-Holds cs (after_call venue c r) key req ack (after_call-Holds c r key req ack h)

  remembered-new :
      (clock : Option ℕ) (r : Router V) (req : OrderRequest Decimal) (o : V × Option OrderAck)
      (ack : OrderAck)
      → o.1 ≡ some ack
      → Holds req.client_order_id req ack ((remembered venue clock r req o).0)
  unfolding remembered
  remembered-new clock r req (v, none) ack answered = absurd (none-ne-some _ answered)
  remembered-new clock r req (v, some ack') ack answered =
      let self = (string_key.same_iff req.client_order_id req.client_order_id).1 refl in
      record {
        request = rw (lookup-put req.client_order_id req.client_order_id req r.requests, self) refl;
        answer = rw (lookup-put req.client_order_id req.client_order_id ack' r.acks, self) answered;
      }

  -- The first submission of an order that the venue, or its query, answered.
  submit-Holds :
      (clock : Option ℕ) (r : Router V) (req : OrderRequest Decimal) (ack : OrderAck)
      → lookup req.client_order_id r.requests ≡ none
      → (placed venue req (venue.submit req r.state)).1 ≡ some ack
      → Holds req.client_order_id req ack ((submit venue clock req r).0)
  unfolding submit dispatch
  submit-Holds clock r req ack fresh answered = rw fresh (
      remembered-new clock (record r { venue_calls = r.venue_calls + 1 }) req
        (placed venue req (venue.submit req r.state)) ack answered)

  submit-held :
      (clock : Option ℕ) (req req' : OrderRequest Decimal) (ack : OrderAck) (r : Router V)
      → Holds req.client_order_id req ack r
      → req'.client_order_id ≡ req.client_order_id
      → submit venue clock req' r ≡ (
        r,
        ok (
            if same_request req req'
            then ack
            else rejection clock req' RejectCode.duplicate_client_id),
      )
  unfolding submit dispatch repeated recalled
  submit-held clock req req' ack r h same_key =
      let taken : lookup req'.client_order_id r.requests ≡ some req = rw same_key h.request in
      let known : lookup req'.client_order_id r.acks ≡ some ack = rw same_key h.answer in
      elim (Bool-cases (same_request req req')) [
        | inl same ↦ rw (taken, same, known) refl
        | inr differ ↦ rw (taken, differ) refl
      ]

  -- An order that was answered once is never sent again. Whatever the router is asked in between, a
  -- later order under the same key changes neither the router nor the venue: the same order gets the
  -- first answer back, and one that differs is refused as a duplicate.
  pub submit-once :
      (clock clock' : Option ℕ) (r : Router V) (req req' : OrderRequest Decimal) (ack : OrderAck)
      (cs : List Call)
      → lookup req.client_order_id r.requests ≡ none
      → (placed venue req (venue.submit req r.state)).1 ≡ some ack
      → req'.client_order_id ≡ req.client_order_id
      → submit venue clock' req' (after_calls venue cs ((submit venue clock req r).0)) ≡ (
        after_calls venue cs ((submit venue clock req r).0),
        ok (
            if same_request req req'
            then ack
            else rejection clock' req' RejectCode.duplicate_client_id),
      )
  submit-once clock clock' r req req' ack cs fresh answered same_key =
      submit-held clock' req req' ack (after_calls venue cs ((submit venue clock req r).0))
        (after_calls-Holds cs ((submit venue clock req r).0) req.client_order_id req ack
          (submit-Holds clock r req ack fresh answered))
        same_key
