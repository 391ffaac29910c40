-- ===== src/Execution/Broker/Origin.antt =====
-- The triggers of a bar come from orders that were created by its time (execution/paper_broker.py).
use fuzz_helm.Base.{
  ℕ, Bool, true, false, ◌&&◌, ◌≡◌, refl, Option, none, some, List, [], ◌∷◌, String, leb, ok, All,
}
use fuzz_helm.Base.Dict.{Dict, string_key}
use fuzz_helm.Decimal.{Decimal}
use fuzz_helm.Execution.Number.{decimal_number}
use fuzz_helm.Execution.Broker.State.{Order, Book, is_new, order_of}
use fuzz_helm.Execution.Broker.Walk.{
  Trigger, TriggerKind, triggers, stop_triggers, stop_trigger, level_triggers, level_trigger,
}
use fuzz_helm.Execution.Broker.Live.{All-append}
use fuzz_helm.Execution.Broker.Kept.{Returns, >>=-Returns, returned, and_true}

-- A stop trigger stands for an order that was created by the time t.
unfoldable pub FromOrder : Dict String Order → ℕ → TriggerKind → Type 0
FromOrder orders t (TriggerKind.stop c) =
    (o : Order) × (order_of orders c ≡ ok o) × (leb o.req.ts_created_ns t ≡ true)
FromOrder orders t _ = Unit

abbrev pub From : Dict String Order → ℕ → Trigger → Type 0
From orders t tr = FromOrder orders t tr.kind

stop_trigger-From :
    (orders : Dict String Order) (t : ℕ) (c : String) (o : Order) (live up : Bool)
    (level : Option Decimal)
    → order_of orders c ≡ ok o
    → (live ≡ true → leb o.req.ts_created_ns t ≡ true)
    → All (From orders t) (stop_trigger live c up level)
unfolding FromOrder
stop_trigger-From orders t c o live up none found h = tt
stop_trigger-From orders t c o false up (some level) found h = tt
stop_trigger-From orders t c o true up (some level) found h = ((o, found, h refl), tt)

stop_triggers-From :
    (orders : Dict String Order) (t : ℕ) (cs : List String)
    → Returns (All (From orders t)) (stop_triggers orders t cs)
unfolding stop_triggers
stop_triggers-From orders t [] = tt
stop_triggers-From orders t (c ∷ cs) =
    let P = All (From orders t) in
    >>=-Returns P (order_of orders c) _ (λ o found.
      >>=-Returns P (stop_triggers orders t cs) _ (λ more same.
        All-append (From orders t) _ more
          (stop_trigger-From orders t c o (is_new o.status && leb o.req.ts_created_ns t) _
            o.req.stop_price found (λ h. (and_true (is_new o.status) _ h).1))
          (returned P _ (stop_triggers-From orders t cs) same)))

level_trigger-From :
    (orders : Dict String Order) (t : ℕ) (kind : TriggerKind) (live up : Bool) (p : Option Decimal)
    → FromOrder orders t kind
    → All (From orders t) (level_trigger kind live up p)
level_trigger-From orders t kind live up none h = tt
level_trigger-From orders t kind true up (some p) h = (h, tt)
level_trigger-From orders t kind false up (some p) h = tt

pub triggers-From :
    {X : Type 0} (bk : Book X) (t : ℕ) (trs : List Trigger)
    → triggers bk t ≡ ok trs
    → All (From bk.orders t) trs
unfolding triggers level_triggers FromOrder
triggers-From bk t trs same =
    let P = All (From bk.orders t) in
    returned P (triggers bk t)
      (>>=-Returns P (stop_triggers bk.orders t bk.st.stop_orders) _ (λ stops found.
        All-append (From bk.orders t) stops _
          (returned P _ (stop_triggers-From bk.orders t bk.st.stop_orders) found)
          (All-append (From bk.orders t) _ _
            (level_trigger-From bk.orders t TriggerKind.tp _ _ bk.st.tp_price tt)
            (level_trigger-From bk.orders t TriggerKind.liq _ _ bk.st.liq_price tt))))
      same
