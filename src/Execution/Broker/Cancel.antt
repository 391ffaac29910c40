-- ===== src/Execution/Broker/Cancel.antt =====
-- What `cancel_all` leaves of the orders (execution/paper_broker.py).
use fuzz_helm.Base.{
  true, false, ◌≡◌, refl, sym, ◌∙◌, subst, inl, inr, some, List, [], ◌∷◌, ◌++◌, String, ◌⊎◌, ok,
  >>=-eq-ok, ok-injective, Bool-cases,
}
use mathlib.Core.Bool.{false≢true}
use fuzz_helm.Base.Dict.{Dict, lookup, put, string_key, lookup-put}
use fuzz_helm.Execution.Broker.State.{Order, InstState, Broker, is_new, order_of, require}
use fuzz_helm.Execution.Broker.Submit.{
  cancel_queue, canceled, cancel_all, cancel_known, open_orders, open_of,
}
use fuzz_helm.Execution.Broker.Room.{has_id}

-- The order is there and can no longer be filled.
pub Closed : String → Dict String Order → Type 0
Closed c orders = (o : Order) × (lookup c orders ≡ some o) × (is_new o.status ≡ false)

canceled-is_new : (o : Order) → is_new ((canceled o).status) ≡ false
canceled-is_new o = elim (Bool-cases (is_new o.status)) [
  | inl fresh ↦ rw fresh refl
  | inr old ↦ rw old old
]

put-Closed :
    (c d : String) (o : Order) (orders : Dict String Order)
    → (Closed c orders) ⊎ (string_key.same c d ≡ true)
    → Closed c (put d (canceled o) orders)
unfolding Closed
put-Closed c d o orders h = elim (Bool-cases (string_key.same c d)) [
  | inl same ↦ (canceled o, rw (lookup-put c d (canceled o) orders, same) refl, canceled-is_new o)
  | inr differ ↦ elim h [
    | inl (old, found, shut) ↦ (old, rw (lookup-put c d (canceled o) orders, differ) found, shut)
    | inr same ↦ absurd (false≢true (sym differ ∙ same))
  ]
]

cancel_queue-Closed :
    (c : String) (q : List String) (orders orders' : Dict String Order)
    → cancel_queue q orders ≡ ok orders'
    → (Closed c orders) ⊎ (has_id c q ≡ true)
    → Closed c orders'
unfolding cancel_queue
cancel_queue-Closed c [] orders orders' same (inl shut) = subst (Closed c) (ok-injective same) shut
cancel_queue-Closed c [] orders orders' same (inr listed) = absurd (false≢true listed)
cancel_queue-Closed c (d ∷ q) orders orders' same h =
    let (o, _, next) = >>=-eq-ok (order_of orders d) _ same in
    cancel_queue-Closed c q (put d (canceled o) orders) orders' next
      (elim (Bool-cases (string_key.same c d)) [
        | inl is_d ↦ inl (put-Closed c d o orders (inr is_d))
        | inr differ ↦ elim h [
          | inl shut ↦ inl (put-Closed c d o orders (inl shut))
          | inr listed ↦ inr (rw differ at listed)
        ]
      ])

-- `cancel_all` of an instrument leaves no order of its two queues in the status NEW,
-- keeps every order that is there and not NEW so, and `open_orders` of the instrument is empty after it.
pub cancel_all-Closed :
    {X : Type 0} (instrument : String) (st : InstState) (b b' : Broker X)
    → lookup instrument b.states ≡ some st
    → cancel_all instrument b ≡ ok b'
    → ((c : String)
        → (Closed c b.orders) ⊎ (has_id c (st.market_queue ++ st.stop_orders) ≡ true)
        → Closed c b'.orders)
      × (open_orders instrument b' ≡ ok [])
unfolding cancel_all cancel_known open_orders open_of require
cancel_all-Closed instrument st b b' known same =
    let (orders, found, last) =
      >>=-eq-ok (cancel_queue (st.market_queue ++ st.stop_orders) b.orders) _ (rw known at same) in
    rw (sym (ok-injective last)) (
      λ c h. cancel_queue-Closed c (st.market_queue ++ st.stop_orders) b.orders orders found h,
      rw
          (
            lookup-put instrument instrument _ b.states,
            (string_key.same_iff instrument instrument).1 refl,
          )
          refl,
    )
