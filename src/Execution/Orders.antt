-- ===== src/Execution/Orders.antt =====
-- `OrderRequest`, `OrderAck` and `Fill` of core/dto.py, and `FundingCharge` of execution/cost_model.py.
-- The identifiers of orders are texts.
use fuzz_helm.Base.{ℕ, Bool, Option, String}
use fuzz_helm.Core.Enums.{Side, OrderType, OrderStatus, Liquidity, RejectCode}

pub record OrderRequest (N : Type 0) : Type 0 where
  pub client_order_id : String
  pub instrument : String
  pub side : Side
  pub otype : OrderType
  pub qty : N
  pub stop_price : Option N
  pub reduce_only : Bool
  pub decision_ref : Option String
  pub ts_created_ns : ℕ

pub record OrderAck : Type 0 where
  pub client_order_id : String
  pub venue_order_id : Option String
  pub status : OrderStatus
  pub reject_code : Option RejectCode
  pub ts_ns : ℕ

pub record Fill (N : Type 0) : Type 0 where
  pub client_order_id : String
  pub venue_order_id : Option String
  pub instrument : String
  pub side : Side
  pub qty : N
  pub price : N
  pub fee : N
  pub liquidity : Liquidity
  pub slippage_bps : N
  pub ts_fill_ns : ℕ

pub record FundingCharge (N : Type 0) : Type 0 where
  pub instrument : String
  pub ts_ns : ℕ
  pub position_qty : N
  pub mark_price : N
  pub rate : N
  pub amount : N
