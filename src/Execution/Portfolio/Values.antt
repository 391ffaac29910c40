-- ===== src/Execution/Portfolio/Values.antt =====
-- execution/portfolio.py: what the account is worth.
use fuzz_helm.Base.{
  ℕ, Option, none, some, [], ◌∷◌, String, if◌then◌else◌, Result, ok, err, ◌>>=◌, key_error,
}
use fuzz_helm.Base.Dict.{Dict, lookup, string_key}
use fuzz_helm.Core.Enums.{Side}
use fuzz_helm.Execution.Number.{Number, sign}
use fuzz_helm.Execution.Portfolio.State.{Position, Portfolio}
use fuzz_helm.Execution.Portfolio.Fills.{mark_all}

pub record PortfolioSnapshot (N : Type 0) : Type 0 where
  pub ts_ns : ℕ
  pub equity : N
  pub cash : N
  pub wallet_balance : N
  pub unrealized : N
  pub gross_exposure : N
  pub net_exposure : N
  pub leverage : Option N
  pub fees_paid : N
  pub funding_paid : N
  pub realized_pnl : N

unfoldable pub or_key_error : {N : Type 0} → Option N → Result N
or_key_error none = err key_error
or_key_error (some m) = ok m

-- `_mark_of`
unfoldable pub mark_of : {N : Type 0} → Dict String N → String → Result N
unfolding lookup or_key_error
mark_of marks inst = or_key_error (lookup inst marks)

unfoldable pub qty_or : {N : Type 0} → N → Option (Position N) → N
qty_or zero_qty none = zero_qty
qty_or zero_qty (some p) = p.qty

module _ {N : Type 0} ⦃n : Number N⦄ where
  abbrev pub position_side : Position N → Side
  position_side p = sign p.qty

  abbrev pub avg_entry : Position N → Option N
  avg_entry p = if n.eq p.qty n.d0 then none else some (n.quotient p.cost_basis p.qty)

  abbrev pub unrealized : Position N → N → N
  unrealized p mark = n.sub (n.mul p.qty mark) p.cost_basis

  -- `wallet_balance`
  abbrev pub wallet_balance : Portfolio N → N
  wallet_balance pf = n.sub (n.sub (n.add pf.initial pf.realized_pnl) pf.fees_paid) pf.funding_paid

  -- The loops over the open positions: a term of each is added to the sum so far.
  unfoldable pub sum_open :
      (Position N → N → N) → Dict String N → N → Dict String (Position N) → Result N
  unfolding mark_of
  sum_open term marks total [] = ok total
  sum_open term marks total ((inst, p) ∷ rest) =
      (if n.eq p.qty n.d0
        then ok total
        else (mark_of marks inst >>= λ m. ok (n.add total (term p m))))
      >>= λ sum. sum_open term marks sum rest

  unfoldable pub unrealized_pnl : Portfolio N → Result N
  unfolding sum_open
  unrealized_pnl pf = sum_open unrealized pf.marks n.d0 pf.positions

  -- The margin form.
  unfoldable pub equity : Portfolio N → Result N
  unfolding unrealized_pnl
  equity pf = do u ← unrealized_pnl pf; ok (n.add (wallet_balance pf) u)

  -- The cash form.
  unfoldable pub equity_cash_form : Portfolio N → Result N
  unfolding sum_open
  equity_cash_form pf = do
    holdings ← sum_open (λ p m. n.mul p.qty m) pf.marks n.d0 pf.positions
    ok (n.sub (n.add pf.cash holdings) pf.fees_paid)

  unfoldable pub identity_residual : Portfolio N → Result N
  unfolding equity equity_cash_form
  identity_residual pf = do c ← equity_cash_form pf; e ← equity pf; ok (n.sub c e)

  unfoldable pub gross_exposure : Portfolio N → Result N
  unfolding sum_open
  gross_exposure pf = sum_open (λ p m. n.mul (n.abs p.qty) m) pf.marks n.d0 pf.positions

  unfoldable pub net_exposure : Portfolio N → Result N
  unfolding sum_open
  net_exposure pf = sum_open (λ p m. n.mul p.qty m) pf.marks n.d0 pf.positions

  unfoldable pub leverage : Portfolio N → Result (Option N)
  unfolding equity gross_exposure
  leverage pf = do
    eq ← equity pf
    if n.le eq n.d0 then ok none else (do g ← gross_exposure pf; ok (some (n.quotient g eq)))

  unfoldable pub position_qty : Portfolio N → String → N
  unfolding lookup qty_or
  position_qty pf inst = qty_or n.d0 (lookup inst pf.positions)

  unfoldable pub snapshot : Portfolio N → ℕ → Result (PortfolioSnapshot N)
  unfolding equity unrealized_pnl gross_exposure net_exposure leverage
  snapshot pf ts = do
    e ← equity pf
    u ← unrealized_pnl pf
    g ← gross_exposure pf
    net ← net_exposure pf
    l ← leverage pf
    ok (record {
      ts_ns = ts;
      equity = e;
      cash = pf.cash;
      wallet_balance = wallet_balance pf;
      unrealized = u;
      gross_exposure = g;
      net_exposure = net;
      leverage = l;
      fees_paid = pf.fees_paid;
      funding_paid = pf.funding_paid;
      realized_pnl = pf.realized_pnl;
    })

  -- `mark`: the prices, then the equity that they give.
  unfoldable pub mark : Portfolio N → Dict String N → Portfolio N × Result N
  unfolding mark_all equity
  mark pf prices = let (pf', outcome) = mark_all pf prices in (pf', outcome >>= λ unit. equity pf')
