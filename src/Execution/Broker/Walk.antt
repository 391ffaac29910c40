-- ===== src/Execution/Broker/Walk.antt =====
-- execution/paper_broker.py: the triggers inside a bar, and the price path that fires them.
use fuzz_helm.Base.{
  ℕ, ◌+◌, Bool, true, not, ◌&&◌, ◌||◌, Option, none, some, List, [], ◌∷◌, ◌++◌, String, ltb, leb,
  if◌then◌else◌, Result, ok, ◌>>=◌,
}
use fuzz_helm.Base.Dict.{Dict, put, string_key}
use fuzz_helm.Core.Enums.{Side, same_side, opposite, OrderType, OrderStatus, ExitReason}
use fuzz_helm.Decimal.{Decimal, d0}
use fuzz_helm.Decimal
use fuzz_helm.Execution.Number.{sign, decimal_number}
use fuzz_helm.Execution.Costs.{CostModelConfig}
use fuzz_helm.Execution.Broker.State.{Order, InstState, Outside, Book, is_new, order_of}
use fuzz_helm.Execution.Broker.Submit.{remove}
use fuzz_helm.Execution.Broker.Fill.{execute}

-- `kind` and `coid` of `_Trigger`.
pub data TriggerKind : Type 0 where
  stop : (coid : String) → TriggerKind
  tp liq : TriggerKind

pub record Trigger : Type 0 where
  pub kind : TriggerKind
  pub level : Decimal
  pub fires_up : Bool

-- Ties on one level: the liquidation before a stop before the take-profit.
abbrev pub priority : TriggerKind → ℕ
priority TriggerKind.liq = 0
priority (TriggerKind.stop coid) = 1
priority TriggerKind.tp = 2

abbrev pub stop_trigger : Bool → String → Bool → Option Decimal → List Trigger
stop_trigger live coid up none = []
stop_trigger live coid up (some level) =
    if live then record { kind = TriggerKind.stop coid; level = level; fires_up = up } ∷ [] else []

unfoldable pub stop_triggers : Dict String Order → ℕ → List String → Result (List Trigger)
unfolding order_of
stop_triggers orders t [] = ok []
stop_triggers orders t (coid ∷ rest) = do
  o ← order_of orders coid
  more ← stop_triggers orders t rest
  let live = is_new o.status && leb o.req.ts_created_ns t
  ok (stop_trigger live coid (same_side o.req.side Side.long) o.req.stop_price ++ more)

abbrev pub level_trigger : TriggerKind → Bool → Bool → Option Decimal → List Trigger
level_trigger kind live up none = []
level_trigger kind live up (some level) =
    if live then record { kind = kind; level = level; fires_up = up } ∷ [] else []

-- The take-profit and the liquidation price of an open position.
unfoldable pub level_triggers : InstState → List Trigger
unfolding sign
level_triggers st =
    let held = not (Decimal.eq st.position d0) in
    level_trigger TriggerKind.tp
      (held && (same_side st.tp_side Side.flat || same_side st.tp_side (sign st.position)))
      (Decimal.lt d0 st.position) st.tp_price
    ++ level_trigger TriggerKind.liq held (Decimal.lt st.position d0) st.liq_price

-- `_triggers`
unfoldable pub triggers : {X : Type 0} → Book X → ℕ → Result (List Trigger)
unfolding stop_triggers level_triggers
triggers bk t = do
  stops ← stop_triggers bk.orders t bk.st.stop_orders
  ok (stops ++ level_triggers bk.st)

-- `[tr for tr in trs if test(tr)]`
unfoldable pub selected : (Trigger → Bool) → List Trigger → List Trigger
selected test [] = []
selected test (tr ∷ trs) = let rest = selected test trs in if test tr then tr ∷ rest else rest

-- `min(…, key=…)`: the first of those that none is before.
unfoldable pub first_of : (Trigger → Trigger → Bool) → Trigger → List Trigger → Trigger
first_of before best [] = best
first_of before best (tr ∷ trs) = first_of before (if before tr best then tr else best) trs

-- The level is passed when the bar opens.
abbrev pub behind_open : Decimal → Trigger → Bool
behind_open o tr = if tr.fires_up then Decimal.le tr.level o else Decimal.le o tr.level

-- The level lies on the way from a to b.
abbrev pub on_way : Decimal → Decimal → Trigger → Bool
on_way a b tr =
    if Decimal.lt b a
    then not tr.fires_up && (Decimal.le b tr.level && Decimal.le tr.level a)
    else tr.fires_up && (Decimal.le a tr.level && Decimal.le tr.level b)

abbrev pub by_priority : Trigger → Trigger → Bool
by_priority x y = ltb (priority x.kind) (priority y.kind)

-- The nearer level first, then by priority.
abbrev pub by_level : Bool → Trigger → Trigger → Bool
by_level down x y =
    (if down then Decimal.lt y.level x.level else Decimal.lt x.level y.level)
    || (Decimal.eq x.level y.level && by_priority x y)

-- The synthetic reduce-only order for the whole position.
unfoldable pub exit_order :
    {X : Type 0} → Outside X → ExitReason → String → Decimal → ℕ → String → Book X → Order
unfolding sign
exit_order out reason text level t coid bk = record {
  req = record {
    client_order_id = coid;
    instrument = bk.st.spec.symbol_canon;
    side = opposite (sign bk.st.position);
    otype = OrderType.stop_market;
    qty = Decimal.abs bk.st.position;
    stop_price = some level;
    reduce_only = true;
    decision_ref = some text;
    ts_created_ns = t;
  };
  venue_order_id = some (out.order_id (bk.seq + 1));
  status = OrderStatus.new;
  reject_code = none;
  ts_ns = t;
  filled_qty = d0;
  avg_price = none;
  exit_reason = none;
}

unfoldable pub exit_position :
    {X : Type 0}
    → Outside X
    → CostModelConfig
    → ExitReason
    → String
    → Decimal
    → Decimal
    → ℕ
    → Book X
    → Result (Book X)
unfolding exit_order execute put
exit_position out cost reason text level p_ref t bk =
    let drawn = out.next_uuid bk.outside in
    let o = exit_order out reason text level t (drawn.1) bk in
    execute out cost o p_ref t (some reason)
      (record bk { outside = drawn.0; seq = bk.seq + 1; orders = put (drawn.1) o bk.orders })

-- `_fire`
unfoldable pub fire_kind :
    {X : Type 0}
    → Outside X
    → CostModelConfig
    → TriggerKind
    → Decimal
    → Decimal
    → ℕ
    → Book X
    → Result (Book X)
unfolding remove order_of execute exit_position
fire_kind out cost (TriggerKind.stop coid) level p_ref t bk = do
  o ← order_of bk.orders coid
  execute out cost o p_ref t none
      (record bk { st = record (bk.st) { stop_orders = remove coid bk.st.stop_orders } })
fire_kind out cost TriggerKind.tp level p_ref t bk =
    exit_position out cost ExitReason.tp "TP" level p_ref t
      (record bk { st = record (bk.st) { tp_price = none; tp_side = Side.flat } })
fire_kind out cost TriggerKind.liq level p_ref t bk =
    exit_position out cost ExitReason.liquidation "LIQUIDATION" level p_ref t
      (record bk { st = record (bk.st) { liq_price = none } })

unfoldable pub fire :
    {X : Type 0} → Outside X → CostModelConfig → Trigger → Decimal → ℕ → Book X → Result (Book X)
unfolding fire_kind
fire out cost tr p_ref t bk = fire_kind out cost tr.kind tr.level p_ref t bk
