-- ===== src/Execution/Broker/Live.antt =====
-- The triggers of a book are made from its stops and levels.
use fuzz_helm.Base.{
  ℕ, Bool, true, false, ◌≡◌, refl, sym, ap, subst, inl, inr, Option, none, some, List, [], ◌∷◌,
  ◌++◌, String, All, ok, >>=-eq-ok, ok-injective, arith, Bool-cases,
}
use fuzz_helm.Base.Dict.{Dict, string_key}
use fuzz_helm.Decimal.{Decimal}
use fuzz_helm.Execution.Broker.State.{Order, Book, order_of}
use fuzz_helm.Execution.Broker.Walk.{
  Trigger, TriggerKind, triggers, stop_triggers, level_triggers, stop_trigger, level_trigger,
  selected, first_of,
}
use fuzz_helm.Execution.Broker.Path.{one_if}
use fuzz_helm.Execution.Broker.Room.{Live, has_id}

pub All-append :
    {A : Type 0} (P : A → Type 0) (xs ys : List A) → All P xs → All P ys → All P (xs ++ ys)
All-append P [] ys hx hy = hy
All-append P (x ∷ xs) ys (h, hx) hy = (h, All-append P xs ys hx hy)

pub map-All :
    {A : Type 0} (P Q : A → Type 0) (xs : List A) → ((a : A) → P a → Q a) → All P xs → All Q xs
map-All P Q [] f h = tt
map-All P Q (x ∷ xs) f (hx, h) = (f x hx, map-All P Q xs f h)

-- A stop trigger of these stops.
IsStopOf : List String → Trigger → Type 0
IsStopOf cs tr = (c : String) × (tr.kind ≡ TriggerKind.stop c) × (has_id c cs ≡ true)

stop_trigger-IsStopOf :
    (live up : Bool) (c : String) (level : Option Decimal) (cs : List String)
    → All (IsStopOf (c ∷ cs)) (stop_trigger live c up level)
unfolding IsStopOf
stop_trigger-IsStopOf live up c none cs = tt
stop_trigger-IsStopOf false up c (some level) cs = tt
stop_trigger-IsStopOf true up c (some level) cs =
    ((c, refl, ground (arith, string_key.same_iff c c)), tt)

stop_triggers-IsStopOf :
    (orders : Dict String Order) (t : ℕ) (cs : List String) (trs : List Trigger)
    → stop_triggers orders t cs ≡ ok trs
    → All (IsStopOf cs) trs
unfolding stop_triggers IsStopOf
stop_triggers-IsStopOf orders t [] trs same = subst (All (IsStopOf [])) (ok-injective same) tt
stop_triggers-IsStopOf orders t (c ∷ cs) trs same =
    let (o, _, next) = >>=-eq-ok (order_of orders c) _ same in
    let (more, found, last) = >>=-eq-ok (stop_triggers orders t cs) _ next in
    subst (All (IsStopOf (c ∷ cs))) (ok-injective last) (
      All-append (IsStopOf (c ∷ cs)) _ more (stop_trigger-IsStopOf _ _ c o.req.stop_price cs) (
        map-All (IsStopOf cs) (IsStopOf (c ∷ cs)) more
          (λ tr (d, at, listed). (d, at, ground (arith, listed)))
          (stop_triggers-IsStopOf orders t cs more found)))

module _ {X : Type 0} where
  abbrev pub LiveIn : Book X → Trigger → Type 0
  LiveIn bk tr = Live bk tr.kind

  level_triggers-Live : (bk : Book X) → All (LiveIn bk) (level_triggers bk.st)
  unfolding level_triggers
  level_triggers-Live bk =
      All-append (LiveIn bk) _ _ (take_profit bk.st.tp_price refl _ _)
        (liquidation bk.st.liq_price refl _ _)
    where
      take_profit :
          (p : Option Decimal)
          → bk.st.tp_price ≡ p
          → (live up : Bool) → All (LiveIn bk) (level_trigger TriggerKind.tp live up p)
      take_profit none same live up = tt
      take_profit (some p) same true up = (ap one_if same, tt)
      take_profit (some p) same false up = tt

      liquidation :
          (p : Option Decimal)
          → bk.st.liq_price ≡ p
          → (live up : Bool) → All (LiveIn bk) (level_trigger TriggerKind.liq live up p)
      liquidation none same live up = tt
      liquidation (some p) same true up = (ap one_if same, tt)
      liquidation (some p) same false up = tt

  pub triggers-Live :
      (bk : Book X) (t : ℕ) (trs : List Trigger) → triggers bk t ≡ ok trs → All (LiveIn bk) trs
  unfolding triggers IsStopOf
  triggers-Live bk t trs same =
      let (stops, found, last) = >>=-eq-ok (stop_triggers bk.orders t bk.st.stop_orders) _ same in
      subst (All (LiveIn bk)) (ok-injective last) (
        All-append (LiveIn bk) stops (level_triggers bk.st)
          (map-All (IsStopOf bk.st.stop_orders) (LiveIn bk) stops
            (λ tr (c, at, listed). subst (Live bk) (sym at) listed)
            (stop_triggers-IsStopOf bk.orders t bk.st.stop_orders stops found))
          (level_triggers-Live bk))

pub selected-All :
    (P : Trigger → Type 0) (test : Trigger → Bool) (trs : List Trigger)
    → All P trs
    → All P (selected test trs)
unfolding selected
selected-All P test [] h = tt
selected-All P test (tr ∷ trs) (p, h) = elim (Bool-cases (test tr)) [
  | inl yes_it ↦ rw yes_it (p, selected-All P test trs h)
  | inr no_it ↦ rw no_it (selected-All P test trs h)
]

pub first_of-All :
    (P : Trigger → Type 0) (before : Trigger → Trigger → Bool) (best : Trigger) (trs : List Trigger)
    → P best
    → All P trs
    → P (first_of before best trs)
unfolding first_of
first_of-All P before best [] p h = p
first_of-All P before best (tr ∷ trs) p (q, h) = elim (Bool-cases (before tr best)) [
  | inl sooner ↦ rw sooner (first_of-All P before tr trs q h)
  | inr later ↦ rw later (first_of-All P before best trs p h)
]
