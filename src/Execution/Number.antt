-- ===== src/Execution/Number.antt =====
-- The numbers of the account: the operations of `decimal` that execution/portfolio.py uses, as an
-- interface that `Decimal` under its context fills.
use fuzz_helm.Base.{Bool, not, if◌then◌else◌}
use fuzz_helm.Base.Int.{ℤ, pos, negsuc}
use fuzz_helm.Decimal.{Decimal}
use fuzz_helm.Decimal
use fuzz_helm.Core.Enums.{Side}

pub record Number (N : Type 0) : Type 0 where
  pub d0 : N
  pub of_int : ℤ → N
  pub add : N → N → N
  pub sub : N → N → N
  pub mul : N → N → N
  pub quotient : N → N → N
  pub abs : N → N
  pub le : N → N → Bool
  pub eq : N → N → Bool

-- The program's own arithmetic: 38 digits, rounded.
instance abbrev pub decimal_number : Number Decimal
decimal_number = record {
  d0 = Decimal.d0;
  of_int = Decimal.of_int;
  add = Decimal.add;
  sub = Decimal.sub;
  mul = Decimal.mul;
  quotient = Decimal.quotient;
  abs = Decimal.abs;
  le = Decimal.le;
  eq = Decimal.eq;
}

module _ {N : Type 0} ⦃n : Number N⦄ where
  abbrev pub lt : N → N → Bool
  lt a b = not (n.le b a)

  -- `max(a, b)` and `min(a, b)`: the first stays unless the second is beyond it.
  abbrev pub max : N → N → N
  max a b = if lt a b then b else a

  abbrev pub min : N → N → N
  min a b = if lt b a then b else a

  -- `_sign(x)`, as the side that `Side` makes of it.
  unfoldable pub sign : N → Side
  sign x = if lt n.d0 x then Side.long else if lt x n.d0 then Side.short else Side.flat

  -- `int(side)` as a factor.
  unfoldable pub unit : Side → N
  unit Side.long = n.of_int (pos 1)
  unit Side.short = n.of_int (negsuc 0)
  unit Side.flat = n.of_int (pos 0)
