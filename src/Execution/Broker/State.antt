-- ===== src/Execution/Broker/State.antt =====
-- execution/paper_broker.py: the orders, the state of an instrument and the broker; `Instrument` of
-- core/dto.py. The fields `_x` of the source are `x` here.
use fuzz_helm.Base.{
  ℕ, Bool, true, false, Option, none, some, List, [], String, Result, ok, err, key_error,
}
use fuzz_helm.Base.Dict.{Dict, lookup, string_key}
use fuzz_helm.Core.Enums.{Side, OrderStatus, RejectCode, ExitReason, ContractType}
use fuzz_helm.Decimal.{Decimal, d0}
use fuzz_helm.Execution.Orders.{OrderRequest, Fill, FundingCharge}
use fuzz_helm.Execution.Costs.{CostModelConfig}

pub record Instrument : Type 0 where
  pub venue : String
  pub symbol_venue : String
  pub symbol_canon : String
  pub base_asset : String
  pub quote_asset : String
  pub contract_type : ContractType
  pub tick_size : Decimal
  pub step_size : Decimal
  pub min_notional : Decimal
  pub mmr : Decimal
  pub maint_amount : Decimal
  pub max_leverage : ℕ

-- `DecBar`
pub record DecBar : Type 0 where
  pub instrument : String
  pub open_time_ns : ℕ
  pub o : Decimal
  pub h : Decimal
  pub l : Decimal
  pub c : Decimal
  pub volume : Decimal

pub record Order : Type 0 where
  pub req : OrderRequest Decimal
  pub venue_order_id : Option String
  pub status : OrderStatus
  pub reject_code : Option RejectCode
  pub ts_ns : ℕ
  pub filled_qty : Decimal
  pub avg_price : Option Decimal
  pub exit_reason : Option ExitReason

-- `tp_side` is flat where it is 0.
pub record InstState : Type 0 where
  pub spec : Instrument
  pub funding_rate : Decimal
  pub position : Decimal
  pub last_open_ns : Option ℕ
  pub last_close : Option Decimal
  pub var : Option Decimal
  pub v_bar : Option Decimal
  pub tp_price : Option Decimal
  pub tp_side : Side
  pub liq_price : Option Decimal
  pub market_queue : List String
  pub stop_orders : List String

-- What the broker calls outside the program: the noise and identifier generators with their state X,
-- the square root of `decimal`, and the text of an order number.
pub record Outside (X : Type 0) : Type 0 where
  pub normal : X → X × Decimal
  pub next_uuid : X → X × String
  pub sqrt : Decimal → Decimal
  pub order_id : ℕ → String

pub record Broker (X : Type 0) : Type 0 where
  pub cost : CostModelConfig
  pub lam : Decimal
  pub states : Dict String InstState
  pub orders : Dict String Order
  pub funding : List (FundingCharge Decimal)
  pub seq : ℕ
  pub outside : X

-- What the execution of one instrument's bar changes.
pub record Book (X : Type 0) : Type 0 where
  pub st : InstState
  pub orders : Dict String Order
  pub seq : ℕ
  pub outside : X
  pub fills : List (Fill Decimal)

abbrev pub is_new : OrderStatus → Bool
is_new OrderStatus.new = true
is_new _ = false

abbrev pub or_raise : {A : Type 0} → Option A → Result A
or_raise none = err key_error
or_raise (some a) = ok a

-- `self._orders[coid]`
unfoldable pub order_of : Dict String Order → String → Result Order
unfolding lookup
order_of orders coid = or_raise (lookup coid orders)

-- `_require`
unfoldable pub require : {X : Type 0} → Broker X → String → Result InstState
unfolding lookup
require b instrument = or_raise (lookup instrument b.states)

-- `_InstState(spec=s, funding_rate=default_funding_rate)`
abbrev pub new_state : Instrument → Decimal → InstState
new_state spec rate = record {
  spec = spec;
  funding_rate = rate;
  position = d0;
  last_open_ns = none;
  last_close = none;
  var = none;
  v_bar = none;
  tp_price = none;
  tp_side = Side.flat;
  liq_price = none;
  market_queue = [];
  stop_orders = [];
}
