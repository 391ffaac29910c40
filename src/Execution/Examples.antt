-- ===== src/Execution/Examples.antt =====
-- Runs of the execution at concrete inputs.
use fuzz_helm.Base.{◌≡◌, refl, true, none, [], ◌∷◌, String, ok, IsOk, got, got-eq}
use fuzz_helm.Base.Int.{pos}
use fuzz_helm.Base.Dict.{Dict, string_key}
use fuzz_helm.Decimal.{Decimal, d0, of_int}
use fuzz_helm.Core.Enums.{Side, Liquidity}
use fuzz_helm.Execution.Number.{lt, decimal_number}
use fuzz_helm.Execution.Orders.{Fill, FundingCharge}
use fuzz_helm.Execution.Portfolio.{
  Portfolio, new_portfolio, apply_fill, apply_funding, mark_all, equity, identity_residual,
}
use fuzz_helm.Execution.Portfolio.Runs.{Reachable, opened, filled, funded, marked}
use fuzz_helm.Execution.Portfolio.Priced.{equity-returns}

abbrev money_fill : Side → Decimal → Decimal → Fill Decimal
money_fill side qty price = record {
  client_order_id = "c";
  venue_order_id = none;
  instrument = "BTC-USDT";
  side = side;
  qty = qty;
  price = price;
  fee = (of_int (pos 1));
  liquidity = Liquidity.taker;
  slippage_bps = (of_int (pos 0));
  ts_fill_ns = 7;
}

abbrev money_charge : FundingCharge Decimal
money_charge = record {
  instrument = "BTC-USDT";
  ts_ns = 8;
  position_qty = (of_int (pos 3));
  mark_price = (of_int (pos 100));
  rate = (of_int (pos 1));
  amount = (of_int (pos 2));
}

abbrev money_buy : Fill Decimal
money_buy = money_fill Side.long (of_int (pos 3)) (of_int (pos 100))

abbrev money_sell : Fill Decimal
money_sell = money_fill Side.short (of_int (pos 5)) (of_int (pos 110))

money_opened_ok : IsOk (new_portfolio (of_int (pos 1000)))
unfolding new_portfolio fuzz_helm.Decimal.le
money_opened_ok = tt

abbrev money_opened : Portfolio Decimal
money_opened = got (new_portfolio (of_int (pos 1000))) money_opened_ok

money_bought_ok : IsOk (apply_fill money_opened money_buy none)
unfolding apply_fill
money_bought_ok = tt

abbrev money_bought : Portfolio Decimal
money_bought = (got (apply_fill money_opened money_buy none) money_bought_ok).0

abbrev money_paid : Portfolio Decimal
money_paid = apply_funding money_bought money_charge

money_turned_ok : IsOk (apply_fill money_paid money_sell none)
unfolding apply_fill
money_turned_ok = tt

abbrev money_turned : Portfolio Decimal
money_turned = (got (apply_fill money_paid money_sell none) money_turned_ok).0

abbrev money_prices : Dict String Decimal
money_prices = ("BTC-USDT", (of_int (pos 120))) ∷ []

abbrev money_marked : Portfolio Decimal
money_marked = (mark_all money_turned money_prices).0

money_buy_positive : lt d0 money_buy.qty ≡ true
unfolding fuzz_helm.Decimal.le
money_buy_positive = refl

money_sell_positive : lt d0 money_sell.qty ≡ true
unfolding fuzz_helm.Decimal.le
money_sell_positive = refl

-- A purchase, a funding charge, a sale through zero and a new mark price.
money_reachable : Reachable money_marked
money_reachable = marked money_turned money_prices (
    filled money_paid money_turned money_sell none
      ((got (apply_fill money_paid money_sell none) money_turned_ok).1)
      (funded money_bought money_charge (
        filled money_opened money_bought money_buy none
          ((got (apply_fill money_opened money_buy none) money_bought_ok).1)
          (opened (of_int (pos 1000)) money_opened (got-eq _ money_opened_ok)) money_buy_positive
          (got-eq _ money_bought_ok)))
      money_sell_positive (got-eq _ money_turned_ok))

money_d0 : decimal_number.eq d0 d0 ≡ true
unfolding fuzz_helm.Decimal.le
money_d0 = refl

equity-returns_example : (e : Decimal) × (equity money_marked ≡ ok e)
equity-returns_example = equity-returns money_marked money_d0 money_reachable

-- The profit of 30 on three, the loss of 20 on two sold short, two fees and the funding; the two forms of
-- the equity agree.
money_equity : equity money_marked ≡ ok (of_int (pos 1006))
unfolding equity mark_all apply_fill apply_funding new_portfolio fuzz_helm.Decimal.add
    fuzz_helm.Decimal.sub fuzz_helm.Decimal.mul fuzz_helm.Decimal.le fuzz_helm.Decimal.abs
money_equity = refl

money_residual : identity_residual money_marked ≡ ok d0
unfolding identity_residual equity mark_all apply_fill apply_funding new_portfolio
    fuzz_helm.Decimal.add fuzz_helm.Decimal.sub fuzz_helm.Decimal.mul fuzz_helm.Decimal.le
    fuzz_helm.Decimal.abs
money_residual = refl
