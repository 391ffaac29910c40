-- ===== src/Execution/Portfolio/Fills.antt =====
-- execution/portfolio.py: what a fill, a funding charge and new mark prices do to the account.
use fuzz_helm.Base.{
  ◌+◌, Bool, ◌||◌, Option, none, some, List, [], ◌∷◌, ◌++◌, String, if◌then◌else◌, Result, ok, err,
  ◌>>◌, raise_if, value_error,
}
use fuzz_helm.Base.Dict.{Dict, lookup, put, string_key}
use fuzz_helm.Core.Enums.{Side, same_side, ExitReason}
use fuzz_helm.Execution.Number.{Number, lt, max, min, sign, unit}
use fuzz_helm.Execution.Orders.{Fill, FundingCharge}
use fuzz_helm.Execution.Portfolio.State.{
  Position, ClosedTrade, Portfolio, new_position, start_trade, closed_trade, finish_trade,
}

module _ {N : Type 0} ⦃n : Number N⦄ where
  unfoldable pub or_new : String → Option (Position N) → Position N
  unfolding new_position
  or_new inst none = new_position inst
  or_new inst (some p) = p

  -- `self.positions.get(inst)`, with a new position where there is none.
  unfoldable pub position_of : Portfolio N → String → Position N
  unfolding lookup or_new
  position_of pf inst = or_new inst (lookup inst pf.positions)

  -- `if inst not in self.marks: self.marks[inst] = price`
  unfoldable pub or_mark : Dict String N → String → N → Option N → Dict String N
  unfolding put
  or_mark ms inst price none = put inst price ms
  or_mark ms inst price (some m) = ms

  -- The sums of the account that every fill moves, before its position is looked at.
  unfoldable pub booked : Portfolio N → Fill N → Portfolio N
  unfolding unit lookup or_mark
  booked pf f = record pf {
    cash = n.sub pf.cash (n.mul (n.mul (unit f.side) f.qty) f.price);
    fees_paid = n.add pf.fees_paid f.fee;
    traded_notional = n.add pf.traded_notional (n.mul f.qty f.price);
    n_fills = pf.n_fills + 1;
    marks = or_mark pf.marks f.instrument f.price (lookup f.instrument pf.marks);
  }

  -- The fill opens the position, or adds to it.
  unfoldable pub increased : Position N → Fill N → Position N
  unfolding unit start_trade
  increased p f =
      let p' = if n.eq p.qty n.d0 then start_trade p f.side f.ts_fill_ns else p in
      let dq = n.mul (unit f.side) f.qty in
      let q = n.add p.qty dq in
      record p' {
        cost_basis = n.add p'.cost_basis (n.mul dq f.price);
        qty = q;
        t_fees = n.add p'.t_fees f.fee;
        t_entry_notional = n.add p'.t_entry_notional (n.mul f.qty f.price);
        t_entry_qty = n.add p'.t_entry_qty f.qty;
        t_max_qty = max p'.t_max_qty (n.abs q);
      }

  -- `closed`: how much of the position the fill closes.
  abbrev pub closed_qty : Position N → Fill N → N
  closed_qty p f = min f.qty (n.abs p.qty)

  abbrev pub cost_removed : Position N → N → N
  cost_removed p closed =
      if n.eq closed (n.abs p.qty)
      then p.cost_basis
      else n.quotient (n.mul p.cost_basis closed) (n.abs p.qty)

  -- `pnl`: what closing that much realizes.
  unfoldable pub realized : Position N → Fill N → N
  unfolding sign unit
  realized p f =
      let closed = closed_qty p f in
      n.sub (n.mul (n.mul (unit (sign p.qty)) closed) f.price) (cost_removed p closed)

  -- `fee_close`: the part of the fee that the closed part bears.
  abbrev fee_close : Fill N → N → N
  fee_close f closed = if n.eq closed f.qty then f.fee else n.quotient (n.mul f.fee closed) f.qty

  -- The position after the part that is closed, before it is known to be flat.
  unfoldable pub reduced : Position N → Fill N → Position N
  unfolding unit realized
  reduced p f =
      let closed = closed_qty p f in
      let pnl = realized p f in
      record p {
        realized_pnl = n.add p.realized_pnl pnl;
        cost_basis = n.sub p.cost_basis (cost_removed p closed);
        qty = n.add p.qty (n.mul (unit f.side) closed);
        t_realized = n.add p.t_realized pnl;
        t_fees = n.add p.t_fees (fee_close f closed);
        t_exit_notional = n.add p.t_exit_notional (n.mul closed f.price);
        t_exit_qty = n.add p.t_exit_qty closed;
      }

  -- A position at zero ends its trade.
  unfoldable pub settled :
      Position N → Fill N → Option ExitReason → Position N × List (ClosedTrade N)
  unfolding closed_trade finish_trade
  settled p f reason =
      if n.eq p.qty n.d0
      then (let p' = record p { cost_basis = n.d0 } in
          (finish_trade p', closed_trade p' f.ts_fill_ns reason ∷ []))
      else (p, [])

  -- What the fill has left opens a position of its own side.
  unfoldable pub reopened : Position N → Fill N → N → Position N
  unfolding unit start_trade
  reopened p f closed =
      let remainder = n.sub f.qty closed in
      let p' = start_trade p f.side f.ts_fill_ns in
      if lt n.d0 remainder
      then record p' {
        cost_basis = n.mul (n.mul (unit f.side) remainder) f.price;
        qty = n.mul (unit f.side) remainder;
        t_fees = n.add p'.t_fees (n.sub f.fee (fee_close f closed));
        t_entry_notional = n.add p'.t_entry_notional (n.mul remainder f.price);
        t_entry_qty = n.add p'.t_entry_qty remainder;
        t_max_qty = remainder;
      }
      else p

  -- `q == 0 or _sign(q) == sgn`
  abbrev pub grows : Position N → Fill N → Bool
  grows p f = n.eq p.qty n.d0 || same_side (sign p.qty) f.side

  abbrev with_position : Portfolio N → String → Position N → Portfolio N
  with_position pf inst p = record pf { positions = put inst p pf.positions }

  -- The fill's position, which has borne the fee.
  abbrev pub charged : Portfolio N → Fill N → Position N
  charged pf f =
      let p = position_of pf f.instrument in record p { fees_paid = n.add p.fees_paid f.fee }

  unfoldable pub increase : Portfolio N → Fill N → Portfolio N
  unfolding position_of booked increased put
  increase pf f = with_position (booked pf f) f.instrument (increased (charged pf f) f)

  unfoldable pub decrease :
      Portfolio N → Fill N → Option ExitReason → Portfolio N × List (ClosedTrade N)
  unfolding position_of booked realized reduced settled reopened put
  decrease pf f reason =
      let p = charged pf f in
      let pf' = booked pf f in
      let (p', closed) = settled (reduced p f) f reason in
      (
        record pf' {
          realized_pnl = n.add pf'.realized_pnl (realized p f);
          positions = put f.instrument (reopened p' f (closed_qty p f)) pf'.positions;
          closed_trades = pf'.closed_trades ++ closed;
        },
        closed,
      )

  -- `apply_fill`
  unfoldable pub apply_fill :
      Portfolio N → Fill N → Option ExitReason → Result (Portfolio N × List (ClosedTrade N))
  unfolding increase decrease
  apply_fill pf f reason = do
    raise_if (same_side f.side Side.flat) value_error
    ok (if grows (charged pf f) f then (increase pf f, []) else decrease pf f reason)

  -- `apply_funding`
  unfoldable pub apply_funding : Portfolio N → FundingCharge N → Portfolio N
  unfolding position_of put
  apply_funding pf c =
      let p = position_of pf c.instrument in
      record pf {
        cash = n.sub pf.cash c.amount;
        funding_paid = n.add pf.funding_paid c.amount;
        positions =
            put c.instrument
              (record p {
                funding_paid = n.add p.funding_paid c.amount;
                t_funding = n.add p.t_funding c.amount;
              })
              pf.positions;
      }

  -- The worst unrealized loss of an open position.
  unfoldable pub marked : Portfolio N → String → N → Option (Position N) → Portfolio N
  unfolding put
  marked pf inst price none = pf
  marked pf inst price (some p) =
      if n.eq p.qty n.d0
      then pf
      else with_position pf inst (record p {
        max_adverse_excursion =
            min p.max_adverse_excursion (n.sub (n.mul p.qty price) p.cost_basis);
      })

  -- The loop of `mark`: a price that is not positive raises, and the marks before it are kept.
  unfoldable pub mark_all : Portfolio N → Dict String N → Portfolio N × Result (Unit {0})
  unfolding lookup put marked
  mark_all pf [] = (pf, ok tt)
  mark_all pf ((inst, price) ∷ rest) =
      let pf' = record pf { marks = put inst price pf.marks } in
      let later = mark_all (marked pf' inst price (lookup inst pf'.positions)) rest in
      if n.le price n.d0 then (pf, err value_error) else later
