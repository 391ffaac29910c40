-- ===== src/Execution/Broker/Kept.antt =====
-- What a bar keeps of the orders: a property of the orders that survives each kind of write holds after the
-- bar (execution/paper_broker.py). An order is only marked filled if it was created by the time of the bar.
use fuzz_helm.Base.{
  ℕ, Bool, true, false, not, ◌&&◌, ◌≡◌, refl, sym, Option, none, some, List, [], ◌∷◌, String, ltb,
  if◌then◌else◌, Result, ok, err, ◌>>=◌, ok-injective, subst,
}
use fuzz_helm.Base.Dict.{Dict, put, string_key}
use fuzz_helm.Core.Enums.{Side, OrderStatus, RejectCode, ExitReason}
use fuzz_helm.Decimal.{Decimal, d0}
use fuzz_helm.Decimal
use fuzz_helm.Execution.Number.{decimal_number}
use fuzz_helm.Execution.Costs.{CostModelConfig}
use fuzz_helm.Execution.Broker.State.{DecBar, Order, Outside, Book, is_new, order_of}
use fuzz_helm.Execution.Broker.Fill.{
  drop_protecting, on_position_closed, filled_book, position_after, filled, execute, closes,
  protects, executable_qty, noise_for, quote_for, priced, fill_queue, fill_market_orders,
}
use fuzz_helm.Execution.Broker.Path.{after, chain}
use fuzz_helm.Execution.Broker.Bar.{market_phase}

-- The value of a call that returns satisfies the predicate.
abbrev pub Returns : {A : Type 0} → (A → Type 0) → Result A → Type 0
Returns P (err e) = Unit
Returns P (ok a) = P a

abbrev pub Gives : {A : Type 0} → (A → Type 0) → Option (Result A) → Type 0
Gives P none = Unit
Gives P (some r) = Returns P r

pub >>=-Returns :
    {A B : Type 0} (P : B → Type 0) (m : Result A) (next : A → Result B)
    → ((a : A) → m ≡ ok a → Returns P (next a))
    → Returns P (m >>= next)
>>=-Returns P (err e) next h = tt
>>=-Returns P (ok a) next h = h a refl

pub after-Gives :
    {A B : Type 0} (P : B → Type 0) (m : Result A) (next : A → Option (Result B))
    → ((a : A) → m ≡ ok a → Gives P (next a))
    → Gives P (after m next)
after-Gives P (err e) next h = tt
after-Gives P (ok a) next h = h a refl

pub chain-Gives :
    {A B : Type 0} (P : A → Type 0) (Q : B → Type 0) (m : Option (Result A))
    (next : A → Option (Result B))
    → Gives P m
    → ((a : A) → P a → Gives Q (next a))
    → Gives Q (chain m next)
chain-Gives P Q none next p h = tt
chain-Gives P Q (some (err e)) next p h = tt
chain-Gives P Q (some (ok a)) next p h = h a p

pub if-both :
    {A : Type 0} (P : A → Type 0) (test : Bool) (x y : A)
    → (test ≡ true → P x)
    → (test ≡ false → P y)
    → P (if test then x else y)
if-both P true x y hx hy = hx refl
if-both P false x y hx hy = hy refl

pub returned : {A : Type 0} (P : A → Type 0) (m : Result A) {a : A} → Returns P m → m ≡ ok a → P a
returned P (ok b) p same = subst P (ok-injective same) p
returned P (err e) p same = cc

pub and_true : (a b : Bool) → a && b ≡ true → (a ≡ true) × (b ≡ true)
and_true true true h = (refl, refl)
and_true true false h = (refl, h)
and_true false b h = cc

pub false_of_not : (b : Bool) → not b ≡ true → b ≡ false
false_of_not true h = sym h
false_of_not false h = refl

abbrev pub is_filled : OrderStatus → Bool
is_filled OrderStatus.filled_order = true
is_filled _ = false

-- A property of the orders that the writes of a bar at the time t keep: an order is written that is not
-- filled, or that was created by t.
pub record Lasting (t : ℕ) : Type 1 where
  pub good : Order → Type 0
  pub holds : Dict String Order → Type 0
  pub write :
      (c : String) (o : Order) (d : Dict String Order) → holds d → good o → holds (put c o d)
  pub unfilled : (o : Order) → is_filled o.status ≡ false → good o
  pub timely : (o : Order) → ltb t o.req.ts_created_ns ≡ false → good o

module _ {t : ℕ} (k : Lasting t) where
  -- The second part of a result.
  abbrev pub Snd : List String × Dict String Order → Type 0
  Snd left = k.holds left.1

  drop_protecting-Holds :
      (side : Side) (cs : List String) (d : Dict String Order)
      → k.holds d
      → Returns Snd (drop_protecting side cs d)
  unfolding drop_protecting
  drop_protecting-Holds side [] d q = q
  drop_protecting-Holds side (c ∷ cs) d q = >>=-Returns Snd (order_of d c) _ (λ o found.
      let drop = is_new o.status && protects side o in
      let gone = record o { status = OrderStatus.canceled } in
      let d' = if drop then put c gone d else d in
      let q' =
        if-both k.holds drop (put c gone d) d (λ h. k.write c gone d q (k.unfilled gone refl))
          (λ h. q) in
      >>=-Returns Snd (drop_protecting side cs d') _ (λ left same.
        let kept = returned Snd _ (drop_protecting-Holds side cs d' q') same in
        if-both Snd (is_new o.status && not drop) (c ∷ left.0, left.1) left (λ h. kept)
          (λ h. kept)))

  module _ {X : Type 0} where
    abbrev pub Keeps : Book X → Type 0
    Keeps bk = k.holds bk.orders

    on_position_closed-Holds :
        (old : Decimal) (bk : Book X)
        → k.holds bk.orders
        → Returns Keeps (on_position_closed old bk)
    unfolding on_position_closed
    on_position_closed-Holds old bk q =
        >>=-Returns Keeps (drop_protecting _ bk.st.stop_orders bk.orders) _
          (λ left same. returned Snd _ (drop_protecting-Holds _ bk.st.stop_orders bk.orders q) same)

    filled-Holds :
        (cost : CostModelConfig) (o : Order) (qty : Decimal) (ts : ℕ) (reason : Option ExitReason)
        (bk : Book X) (price slip : Decimal)
        → ltb t o.req.ts_created_ns ≡ false
        → k.holds bk.orders
        → Returns Keeps (filled cost o qty ts reason bk price slip)
    unfolding filled filled_book
    filled-Holds cost o qty ts reason bk price slip early q =
        let bk' = filled_book cost o qty ts reason bk price slip in
        let written : k.holds bk'.orders =
          k.write o.req.client_order_id _ bk.orders q (k.timely _ early) in
        if-both (Returns Keeps) (closes bk.st.position (position_after o qty bk))
          (on_position_closed bk.st.position bk') (ok bk')
          (λ h. on_position_closed-Holds bk.st.position bk' written) (λ h. written)

    priced-Holds :
        (out : Outside X) (cost : CostModelConfig) (o : Order) (p_ref : Decimal) (ts : ℕ)
        (reason : Option ExitReason) (bk : Book X) (qty : Decimal)
        → ltb t o.req.ts_created_ns ≡ false
        → k.holds bk.orders
        → Returns Keeps (priced out cost o p_ref ts reason bk qty)
    unfolding priced
    priced-Holds out cost o p_ref ts reason bk qty early q =
        let drawn = noise_for out cost bk.outside in
        >>=-Returns Keeps (quote_for out.sqrt cost o p_ref qty bk.st (drawn.1)) _ (λ r same.
          filled-Holds cost o qty ts reason (record bk { outside = drawn.0 }) r.price r.slippage_bps
            early q)

    pub execute-Holds :
        (out : Outside X) (cost : CostModelConfig) (o : Order) (p_ref : Decimal) (ts : ℕ)
        (reason : Option ExitReason) (bk : Book X)
        → ltb t o.req.ts_created_ns ≡ false
        → k.holds bk.orders
        → Returns Keeps (execute out cost o p_ref ts reason bk)
    unfolding execute
    execute-Holds out cost o p_ref ts reason bk early q =
        let qty = executable_qty bk.st o.req in
        let refused = record o {
          status = OrderStatus.canceled;
          reject_code = some RejectCode.reduce_only_order;
        } in
        let orders = put o.req.client_order_id refused bk.orders in
        if-both (Returns Keeps) (Decimal.le qty d0) (ok (record bk { orders = orders }))
          (priced out cost o p_ref ts reason bk qty)
          (λ h. k.write o.req.client_order_id refused bk.orders q (k.unfilled refused refl))
          (λ h. priced-Holds out cost o p_ref ts reason bk qty early q)

    abbrev pub Left : List String × Book X → Type 0
    Left left = Keeps left.1

    fill_queue-Holds :
        (out : Outside X) (cost : CostModelConfig) (open_price : Decimal) (queue : List String)
        (bk : Book X)
        → k.holds bk.orders
        → Returns Left (fill_queue out cost open_price t queue bk)
    unfolding fill_queue
    fill_queue-Holds out cost open_price [] bk q = q
    fill_queue-Holds out cost open_price (c ∷ queue) bk q =
        >>=-Returns Left (order_of bk.orders c) _ (λ o found.
          let early = ltb t o.req.ts_created_ns in
          let now = is_new o.status && not early in
          let run = execute out cost o open_price t none bk in
          let done =
            if-both (Returns Keeps) now run (ok bk)
              (λ h.
                execute-Holds out cost o open_price t none bk
                  (false_of_not early (and_true _ _ h).1) q)
              (λ h. q) in
          >>=-Returns Left (if now then run else ok bk) _ (λ bk' same.
            >>=-Returns Left (fill_queue out cost open_price t queue bk') _ (λ left rest.
              let kept =
                returned Left _
                  (fill_queue-Holds out cost open_price queue bk' (returned Keeps _ done same))
                  rest in
              if-both Left (is_new o.status && early) (c ∷ left.0, left.1) left (λ h. kept)
                (λ h. kept))))

    pub market_phase-Holds :
        (out : Outside X) (cost : CostModelConfig) (bar : DecBar) (bk : Book X)
        → bar.open_time_ns ≡ t
        → k.holds bk.orders
        → Returns Keeps (market_phase out cost bar bk)
    unfolding market_phase fill_market_orders
    market_phase-Holds out cost bar bk at q =
        if-both (Returns Keeps) _ (ok bk) (fill_market_orders out cost bar.o bar.open_time_ns bk)
          (λ h. q)
          (λ h. rw at (
            >>=-Returns Keeps (fill_queue out cost bar.o t bk.st.market_queue bk) _ (λ left same.
              returned Left _ (fill_queue-Holds out cost bar.o bk.st.market_queue bk q) same)))
