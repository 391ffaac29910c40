-- ===== src/Execution/Portfolio/Runs.antt =====
-- What happens to an account from its start: fills, funding charges and mark prices, in any order.
use fuzz_helm.Base.{◌≡◌, true, ok, Option, List}
use fuzz_helm.Base.Dict.{Dict}
use fuzz_helm.Base.{String}
use fuzz_helm.Core.Enums.{ExitReason}
use fuzz_helm.Execution.Number.{Number, lt}
use fuzz_helm.Execution.Orders.{Fill, FundingCharge}
use fuzz_helm.Execution.Portfolio.State.{Portfolio, ClosedTrade, new_portfolio}
use fuzz_helm.Execution.Portfolio.Fills.{apply_fill, apply_funding, mark_all}

-- The quantity of a fill is positive: `Fill` of core/dto.py takes no other. A call of `mark` that
-- raises keeps the prices before the bad one, and the account goes on.
pub data Reachable {N : Type 0} ⦃n : Number N⦄ : Portfolio N → Type 0 where
  opened : (cash : N) (pf : Portfolio N) → new_portfolio cash ≡ ok pf → Reachable pf
  filled :
      (pf pf' : Portfolio N) (f : Fill N) (reason : Option ExitReason)
      (trades : List (ClosedTrade N))
      → Reachable pf
      → lt n.d0 f.qty ≡ true
      → apply_fill pf f reason ≡ ok (pf', trades)
      → Reachable pf'
  funded : (pf : Portfolio N) (c : FundingCharge N) → Reachable pf → Reachable (apply_funding pf c)
  marked :
      (pf : Portfolio N) (prices : Dict String N)
      → Reachable pf
      → Reachable ((mark_all pf prices).0)
