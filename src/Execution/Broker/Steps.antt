-- ===== src/Execution/Broker/Steps.antt =====
-- The calls of the broker in any order (execution/paper_broker.py), and what a bar may fill.
use fuzz_helm.Base.{
  ℕ, Bool, true, false, ◌≡◌, refl, sym, subst, ◌∙◌, Option, none, some, List, String, ltb, Result,
  ok, err, raise_if, value_error, ◌||◌,
}
use fuzz_helm.Base.Dict.{Dict, lookup, put, has, has-put, string_key, Entries, put-Entries}
use mathlib.Core.Bool.{false≢true}
use fuzz_helm.Decimal.{Decimal}
use fuzz_helm.Execution.Orders.{Fill, FundingCharge}
use fuzz_helm.Execution.Broker.State.{DecBar, Order, InstState, Outside, Broker, Book}
use fuzz_helm.Execution.Broker.Path.{after, chain}
use fuzz_helm.Execution.Broker.Bar.{
  on_bar, bar_of, funding_of, run_bar, update_stats, not_later, book_of, closed_bar,
}
use fuzz_helm.Execution.Broker.Kept.{Lasting, Gives, Keeps, after-Gives, chain-Gives, is_filled}
use fuzz_helm.Execution.Broker.Dated.{run_bar-Holds}

-- What holds of the orders after a bar.
abbrev AfterBar : {X : Type 0} {t : ℕ} → Lasting t → Broker X × List (Fill Decimal) → Type 0
AfterBar k r = k.holds (r.0).orders

any_value : {A : Type 0} (m : Option (Result A)) → Gives (λ a. Unit {0}) m
any_value none = tt
any_value (some (err e)) = tt
any_value (some (ok a)) = tt

-- A filled order was created by the time t.
abbrev pub IsTimely : ℕ → Order → Type 0
IsTimely t o = is_filled o.status ≡ true → ltb t o.req.ts_created_ns ≡ false

abbrev all_timely : (t : ℕ) → Lasting t
all_timely t = record {
  good = IsTimely t;
  holds = Entries (λ c o. IsTimely t o);
  write = λ c o d h g. put-Entries (λ c o. IsTimely t o) c o d h g;
  unfilled = λ o open_ filled. absurd (false≢true (sym open_ ∙ filled));
  timely = λ o by filled. by;
}

pub has_write :
    (c j : String) (o : Order) (d : Dict String Order) → has c d ≡ true → has c (put j o d) ≡ true
has_write c j o d h = has-put c j o d ∙ or_true (string_key.same c j) _ h
  where
    or_true : (a b : Bool) → b ≡ true → a || b ≡ true
    or_true true b e = refl
    or_true false b e = e

-- The broker has seen an order with this key.
abbrev all_known : String → (t : ℕ) → Lasting t
all_known c t = record {
  good = λ o. Unit;
  holds = λ d. has c d ≡ true;
  write = λ j o d h g. has_write c j o d h;
  unfilled = λ o h. tt;
  timely = λ o h. tt;
}

module _ {X : Type 0} (out : Outside X) where
  bar_of-Holds :
      (bar : DecBar) (k : Lasting bar.open_time_ns) (st : Option InstState) (b : Broker X)
      → k.holds b.orders
      → Gives (AfterBar k) (bar_of out bar st b)
  unfolding bar_of
  bar_of-Holds bar k none b q = tt
  bar_of-Holds bar k (some st) b q =
      let last = st.last_open_ns in
      let finish = λ (paid : List (FundingCharge Decimal)) (bk : Book X) (st' : InstState).
        some (ok (closed_bar bar b paid bk st', bk.fills)) in
      let rest = λ (paid : List (FundingCharge Decimal)) (bk : Book X).
        after (update_stats b.lam bar bk.st) (finish paid bk) in
      let run = λ (paid : List (FundingCharge Decimal)).
        chain (run_bar out b.cost bar (book_of st b)) (rest paid) in
      after-Gives (AfterBar k) (raise_if (not_later last bar.open_time_ns) value_error)
        (λ unit. chain (funding_of b.cost st bar last) run)
        (λ unit later.
          chain-Gives (λ paid. Unit {0}) (AfterBar k) (funding_of b.cost st bar last) run
            (any_value (funding_of b.cost st bar last))
            (λ paid p.
              chain-Gives (Keeps k) (AfterBar k) (run_bar out b.cost bar (book_of st b)) (rest paid)
                (run_bar-Holds k out b.cost bar (book_of st b) refl q)
                (λ bk kept.
                  after-Gives (AfterBar k) (update_stats b.lam bar bk.st) (finish paid bk)
                    (λ st' same. kept))))

  -- A bar fills no order that was created after it opened: where every filled order was created by the
  -- time the bar opens, this is so after the bar too, for the market orders, the stops and the exits.
  pub on_bar-IsTimely :
      (bar : DecBar) (b b' : Broker X) (fills : List (Fill Decimal))
      → Entries (λ c o. IsTimely bar.open_time_ns o) b.orders
      → on_bar out bar b ≡ some (ok (b', fills))
      → Entries (λ c o. IsTimely bar.open_time_ns o) b'.orders
  unfolding on_bar
  on_bar-IsTimely bar b b' fills h same =
      let k = all_timely bar.open_time_ns in
      subst (Gives (AfterBar k)) same (bar_of-Holds bar k (lookup bar.instrument b.states) b h)

  pub on_bar-has :
      (c : String) (bar : DecBar) (b b' : Broker X) (fills : List (Fill Decimal))
      → has c b.orders ≡ true
      → on_bar out bar b ≡ some (ok (b', fills))
      → has c b'.orders ≡ true
  unfolding on_bar
  on_bar-has c bar b b' fills h same =
      let k = all_known c bar.open_time_ns in
      subst (Gives (AfterBar k)) same (bar_of-Holds bar k (lookup bar.instrument b.states) b h)
