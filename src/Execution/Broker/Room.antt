-- ===== src/Execution/Broker/Room.antt =====
-- Every trigger that fires is spent: the stops, the take-profit and the liquidation price of a book only
-- become fewer.
use fuzz_helm.Base.{
  ℕ, suc, ◌+◌, ◌≤◌, ◌<◌, Bool, true, false, not, ◌&&◌, ◌||◌, ◌≡◌, sym, inl, inr, Option, none, some,
  List, [], ◌∷◌, String, length, if◌then◌else◌, ok, >>=-eq-ok, if-eq-ok, ok-injective, arith,
  Bool-cases,
}
use mathlib.Core.Bool.{false≢true}
use fuzz_helm.Base.Dict.{Dict, put, string_key}
use fuzz_helm.Core.Enums.{Side, same_side, OrderStatus, ExitReason}
use fuzz_helm.Decimal.{Decimal, d0}
use fuzz_helm.Decimal
use fuzz_helm.Execution.Number.{sign, decimal_number}
use fuzz_helm.Execution.Costs.{CostModelConfig}
use fuzz_helm.Execution.Broker.State.{Order, Outside, Book, is_new, order_of}
use fuzz_helm.Execution.Broker.Submit.{remove}
use fuzz_helm.Execution.Broker.Fill.{
  drop_protecting, on_position_closed, filled_book, position_after, filled, execute, closes,
  protects, executable_qty, noise_for, quote_for, priced,
}
use fuzz_helm.Execution.Broker.Walk.{TriggerKind, fire_kind, exit_position, exit_order}
use fuzz_helm.Execution.Broker.Path.{room, one_if}

kept-length :
    {A : Type 0} (keep : Bool) (c : String) (left : List String × A) (n : ℕ)
    → length (left.0) ≤ n
    → length ((if keep then (c ∷ left.0, left.1) else left).0) ≤ suc n
kept-length true c left n h = omega arith
kept-length false c left n h = omega arith

drop_protecting-length :
    (side : Side) (cs : List String) (orders : Dict String Order)
    (left : List String × Dict String Order)
    → drop_protecting side cs orders ≡ ok left
    → length (left.0) ≤ length cs
unfolding drop_protecting
drop_protecting-length side [] orders left same = rw (sym (ok-injective same)) (omega arith)
drop_protecting-length side (c ∷ cs) orders left same =
    let (o, _, next) = >>=-eq-ok (order_of orders c) _ same in
    let drop = is_new o.status && protects side o in
    let (rest, found, last) =
      >>=-eq-ok
        (drop_protecting side cs
          (if drop then put c (record o { status = OrderStatus.canceled }) orders else orders))
        _ next in
    let shorter = drop_protecting-length side cs _ rest found in
    rw (sym (ok-injective last))
      (kept-length (is_new o.status && not drop) c rest (length cs) shorter)

abbrev pub has_id : String → List String → Bool
has_id c [] = false
has_id c (d ∷ cs) = string_key.same c d || has_id c cs

one_if-if : (own : Bool) (tp : Option Decimal) → one_if (if own then none else tp) ≤ one_if tp
one_if-if true tp = omega arith
one_if-if false tp = omega arith

remove-length :
    (c : String) (cs : List String) → has_id c cs ≡ true → length (remove c cs) + 1 ≡ length cs
unfolding remove
remove-length c [] listed = absurd (false≢true listed)
remove-length c (d ∷ cs) listed = elim (Bool-cases (string_key.same c d)) [
  | inl same ↦ rw same (omega arith)
  | inr differ ↦ let shorter = remove-length c cs (rw differ at listed) in rw differ (omega arith)
]

module _ {X : Type 0} where
  on_position_closed-room :
      (old : Decimal) (bk bk' : Book X) → on_position_closed old bk ≡ ok bk' → room bk' ≤ room bk
  unfolding on_position_closed
  on_position_closed-room old bk bk' same =
      let (left, found, last) = >>=-eq-ok (drop_protecting _ bk.st.stop_orders bk.orders) _ same in
      let shorter = drop_protecting-length _ bk.st.stop_orders bk.orders left found in
      let own = same_side bk.st.tp_side Side.flat || same_side bk.st.tp_side (sign old) in
      let cleared = one_if-if own bk.st.tp_price in rw (sym (ok-injective last)) (omega arith)

  filled-room :
      (cost : CostModelConfig) (o : Order) (qty : Decimal) (ts : ℕ) (reason : Option ExitReason)
      (bk : Book X) (price slip : Decimal) (bk' : Book X)
      → filled cost o qty ts reason bk price slip ≡ ok bk'
      → room bk' ≤ room bk
  unfolding filled filled_book
  filled-room cost o qty ts reason bk price slip bk' same =
      elim (if-eq-ok (closes bk.st.position (position_after o qty bk)) _ _ same) [
        | inl (shut, done) ↦ on_position_closed-room bk.st.position _ bk' done
        | inr (stays, done) ↦ rw (sym (ok-injective done)) (omega arith)
      ]

  priced-room :
      (out : Outside X) (cost : CostModelConfig) (o : Order) (p_ref : Decimal) (ts : ℕ)
      (reason : Option ExitReason) (bk bk' : Book X) (qty : Decimal)
      → priced out cost o p_ref ts reason bk qty ≡ ok bk'
      → room bk' ≤ room bk
  unfolding priced
  priced-room out cost o p_ref ts reason bk bk' qty same =
      let drawn = noise_for out cost bk.outside in
      let bk1 = record bk { outside = drawn.0 } in
      let (q, _, next) =
        >>=-eq-ok (quote_for out.sqrt cost o p_ref qty bk.st (drawn.1))
          (λ q. filled cost o qty ts reason bk1 q.price q.slippage_bps) same in
      filled-room cost o qty ts reason bk1 q.price q.slippage_bps bk' next

  execute-room :
      (out : Outside X) (cost : CostModelConfig) (o : Order) (p_ref : Decimal) (ts : ℕ)
      (reason : Option ExitReason) (bk bk' : Book X)
      → execute out cost o p_ref ts reason bk ≡ ok bk'
      → room bk' ≤ room bk
  unfolding execute
  execute-room out cost o p_ref ts reason bk bk' same =
      elim (if-eq-ok (Decimal.le (executable_qty bk.st o.req) d0) _ _ same) [
        | inl (nothing, done) ↦ rw (sym (ok-injective done)) (omega arith)
        | inr (some_qty, done) ↦
            priced-room out cost o p_ref ts reason bk bk' (executable_qty bk.st o.req) done
      ]

  -- The book holds what the trigger is made from.
  abbrev pub Live : Book X → TriggerKind → Type 0
  Live bk (TriggerKind.stop coid) = has_id coid bk.st.stop_orders ≡ true
  Live bk TriggerKind.tp = one_if bk.st.tp_price ≡ 1
  Live bk TriggerKind.liq = one_if bk.st.liq_price ≡ 1

  exit_position-room :
      (out : Outside X) (cost : CostModelConfig) (reason : ExitReason) (text : String)
      (level p_ref : Decimal) (t : ℕ) (bk bk' : Book X)
      → exit_position out cost reason text level p_ref t bk ≡ ok bk'
      → room bk' ≤ room bk
  unfolding exit_position
  exit_position-room out cost reason text level p_ref t bk bk' same =
      let drawn = out.next_uuid bk.outside in
      let o = exit_order out reason text level t (drawn.1) bk in
      execute-room out cost o p_ref t (some reason)
        (record bk { outside = drawn.0; seq = bk.seq + 1; orders = put (drawn.1) o bk.orders }) bk'
        same

  pub fire_kind-room :
      (out : Outside X) (cost : CostModelConfig) (kind : TriggerKind) (level p_ref : Decimal)
      (t : ℕ) (bk bk' : Book X)
      → Live bk kind
      → fire_kind out cost kind level p_ref t bk ≡ ok bk'
      → room bk' < room bk
  unfolding fire_kind
  fire_kind-room out cost (TriggerKind.stop coid) level p_ref t bk bk' live same =
      let (o, _, next) = >>=-eq-ok (order_of bk.orders coid) _ same in
      let less = execute-room out cost o p_ref t none _ bk' next in
      let one_less = remove-length coid bk.st.stop_orders live in omega arith
  fire_kind-room out cost TriggerKind.tp level p_ref t bk bk' live same =
      let spent = record bk { st = record (bk.st) { tp_price = none; tp_side = Side.flat } } in
      let less = exit_position-room out cost ExitReason.tp "TP" level p_ref t spent bk' same in
      omega arith
  fire_kind-room out cost TriggerKind.liq level p_ref t bk bk' live same =
      let spent = record bk { st = record (bk.st) { liq_price = none } } in
      let less =
        exit_position-room out cost ExitReason.liquidation "LIQUIDATION" level p_ref t spent bk'
          same in
      omega arith
