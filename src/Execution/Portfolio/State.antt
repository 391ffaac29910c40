-- ===== src/Execution/Portfolio/State.antt =====
-- execution/portfolio.py: positions, closed trades and the account, and where a trade starts and ends.
use fuzz_helm.Base.{
  ℕ, Option, none, some, List, [], String, if◌then◌else◌, Result, ok, ◌>>◌, raise_if, value_error,
}
use fuzz_helm.Base.Dict.{Dict}
use fuzz_helm.Core.Enums.{Side, ExitReason}
use fuzz_helm.Execution.Number.{Number, lt}

-- The fields `_t_…` of the source are `t_…` here.
pub record Position (N : Type 0) : Type 0 where
  pub instrument : String
  pub qty : N
  pub cost_basis : N
  pub realized_pnl : N
  pub funding_paid : N
  pub fees_paid : N
  pub opened_at_ns : Option ℕ
  pub max_adverse_excursion : N
  pub t_side : Side
  pub t_max_qty : N
  pub t_realized : N
  pub t_fees : N
  pub t_funding : N
  pub t_entry_notional : N
  pub t_entry_qty : N
  pub t_exit_notional : N
  pub t_exit_qty : N

pub record ClosedTrade (N : Type 0) : Type 0 where
  pub instrument : String
  pub side : Side
  pub qty : N
  pub entry_price : N
  pub exit_price : N
  pub gross_pnl : N
  pub fees : N
  pub funding : N
  pub pnl : N
  pub entry_notional : N
  pub exit_notional : N
  pub opened_at_ns : ℕ
  pub closed_at_ns : ℕ
  pub exit_reason : Option ExitReason
  pub max_adverse_excursion : N

pub record Portfolio (N : Type 0) : Type 0 where
  pub initial : N
  pub cash : N
  pub fees_paid : N
  pub funding_paid : N
  pub realized_pnl : N
  pub traded_notional : N
  pub n_fills : ℕ
  pub positions : Dict String (Position N)
  pub marks : Dict String N
  pub closed_trades : List (ClosedTrade N)

-- `opened_at_ns if opened_at_ns is not None else ts_ns`
abbrev opened_or : Option ℕ → ℕ → ℕ
opened_or none ts = ts
opened_or (some t) ts = t

module _ {N : Type 0} ⦃n : Number N⦄ where
  -- `Position(inst)`
  unfoldable pub new_position : String → Position N
  new_position inst = record {
    instrument = inst;
    qty = n.d0;
    cost_basis = n.d0;
    realized_pnl = n.d0;
    funding_paid = n.d0;
    fees_paid = n.d0;
    opened_at_ns = none;
    max_adverse_excursion = n.d0;
    t_side = Side.flat;
    t_max_qty = n.d0;
    t_realized = n.d0;
    t_fees = n.d0;
    t_funding = n.d0;
    t_entry_notional = n.d0;
    t_entry_qty = n.d0;
    t_exit_notional = n.d0;
    t_exit_qty = n.d0;
  }

  -- `Portfolio(cash)`
  unfoldable pub new_portfolio : N → Result (Portfolio N)
  new_portfolio cash = do
    raise_if (lt cash n.d0) value_error
    ok (record {
      initial = cash;
      cash = cash;
      fees_paid = n.d0;
      funding_paid = n.d0;
      realized_pnl = n.d0;
      traded_notional = n.d0;
      n_fills = 0;
      positions = [];
      marks = [];
      closed_trades = [];
    })

  -- `_start_trade`
  unfoldable pub start_trade : Position N → Side → ℕ → Position N
  start_trade p side ts = record p {
    opened_at_ns = some ts;
    max_adverse_excursion = n.d0;
    t_side = side;
    t_max_qty = n.d0;
    t_realized = n.d0;
    t_fees = n.d0;
    t_funding = n.d0;
    t_entry_notional = n.d0;
    t_entry_qty = n.d0;
    t_exit_notional = n.d0;
    t_exit_qty = n.d0;
  }

  -- The average price of a part of a trade, 0 where nothing was traded.
  abbrev vwap : N → N → N
  vwap notional qty = if lt n.d0 qty then n.quotient notional qty else n.d0

  -- `_finish_trade`: the record of the trade, and the position that it leaves.
  unfoldable pub closed_trade : Position N → ℕ → Option ExitReason → ClosedTrade N
  closed_trade p ts reason = record {
    instrument = p.instrument;
    side = p.t_side;
    qty = p.t_max_qty;
    entry_price = vwap p.t_entry_notional p.t_entry_qty;
    exit_price = vwap p.t_exit_notional p.t_exit_qty;
    gross_pnl = p.t_realized;
    fees = p.t_fees;
    funding = p.t_funding;
    pnl = n.sub (n.sub p.t_realized p.t_fees) p.t_funding;
    entry_notional = p.t_entry_notional;
    exit_notional = p.t_exit_notional;
    opened_at_ns = opened_or p.opened_at_ns ts;
    closed_at_ns = ts;
    exit_reason = reason;
    max_adverse_excursion = p.max_adverse_excursion;
  }

  unfoldable pub finish_trade : Position N → Position N
  finish_trade p = record p { opened_at_ns = none; t_side = Side.flat }
