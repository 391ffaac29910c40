-- ===== src/Execution/Portfolio/Priced.antt =====
-- Every open position of an account has a mark price, so its equity never raises.
use fuzz_helm.Base.{
  true, ◌||◌, ◌≡◌, refl, inl, inr, Option, none, some, List, [], ◌∷◌, String, ok, arith,
  value_error, Bool-cases, Option-cases, raise_if-eq-ok, ok-injective, ap, subst,
}
use fuzz_helm.Base.Dict.{
  Dict, lookup, put, has, string_key, Entries, put-Entries, map-Entries, lookup-Entries, lookup-has,
  has-put, has_of_lookup,
}
use fuzz_helm.Core.Enums.{ExitReason, Side, same_side}
use fuzz_helm.Execution.Number.{Number}
use fuzz_helm.Execution.Orders.{Fill}
use fuzz_helm.Execution.Portfolio.State.{
  Position, ClosedTrade, Portfolio, new_position, new_portfolio,
}
use fuzz_helm.Execution.Portfolio.Fills.{
  position_of, or_new, or_mark, booked, marked as mark_position, apply_fill, apply_funding,
  mark_all, increase, decrease, grows, charged,
}
use fuzz_helm.Execution.Portfolio.Values.{
  sum_open, equity, unrealized, unrealized_pnl, wallet_balance, mark_of, or_key_error,
}
use fuzz_helm.Execution.Portfolio.Runs.{Reachable, opened, filled, funded, marked}

module _ {N : Type 0} ⦃n : Number N⦄ where
  -- A position is flat or its instrument has a mark.
  abbrev Seen : Dict String N → String → Position N → Type 0
  Seen ms k p = (n.eq p.qty n.d0 || has k ms) ≡ true

  abbrev Priced : Portfolio N → Type 0
  Priced pf = Entries (Seen pf.marks) pf.positions

  put-Seen :
      (inst : String) (price : N) (ms : Dict String N) (k : String) (p : Position N)
      → Seen ms k p
      → Seen (put inst price ms) k p
  put-Seen inst price ms k p h = ground (arith, has-put k inst price ms)

  or_mark-Seen :
      (inst : String) (price : N) (ms : Dict String N) (o : Option N) (k : String) (p : Position N)
      → Seen ms k p
      → Seen (or_mark ms inst price o) k p
  unfolding or_mark
  or_mark-Seen inst price ms none k p h = put-Seen inst price ms k p h
  or_mark-Seen inst price ms (some m) k p h = h

  or_mark-has :
      (inst : String) (price : N) (ms : Dict String N)
      → has inst (or_mark ms inst price (lookup inst ms)) ≡ true
  unfolding or_mark
  or_mark-has inst price ms = elim (Option-cases (lookup inst ms)) [
    | inl missing ↦
        rw missing (ground (arith, has-put inst inst price ms, string_key.same_iff inst inst))
    | inr (m, found) ↦ rw found (ground (arith, has_of_lookup inst ms))
  ]

  booked-Seen :
      (pf : Portfolio N) (f : Fill N) (p : Position N)
      → Priced pf
      → Entries (Seen (booked pf f).marks) (put f.instrument p pf.positions)
  unfolding booked
  booked-Seen pf f p h =
      put-Entries (Seen (booked pf f).marks) f.instrument p pf.positions
        (map-Entries pf.positions
          (or_mark-Seen f.instrument f.price pf.marks (lookup f.instrument pf.marks)) h)
        (ground (arith, or_mark-has f.instrument f.price pf.marks))

  apply_fill-Priced :
      (pf pf' : Portfolio N) (f : Fill N) (reason : Option ExitReason)
      (trades : List (ClosedTrade N))
      → Priced pf
      → apply_fill pf f reason ≡ ok (pf', trades)
      → Priced pf'
  unfolding apply_fill increase decrease
  apply_fill-Priced pf pf' f reason trades h same =
      let (_, done) = raise_if-eq-ok (same_side f.side Side.flat) value_error _ same in
      elim (Bool-cases (grows (charged pf f) f)) [
        | inl grow ↦
            subst Priced (ap (λ r. r.0) (ok-injective (rw grow at done))) (booked-Seen pf f _ h)
        | inr shrink ↦
            subst Priced (ap (λ r. r.0) (ok-injective (rw shrink at done))) (booked-Seen pf f _ h)
      ]

  -- A new position is flat, if zero equals itself.
  old-Seen :
      (ms : Dict String N) (inst : String) (d : Dict String (Position N))
      → n.eq n.d0 n.d0 ≡ true
      → Entries (Seen ms) d
      → Seen ms inst (or_new inst (lookup inst d))
  unfolding or_new new_position
  old-Seen ms inst d zero_eq h = elim (Option-cases (lookup inst d)) [
    | inl missing ↦ rw (missing, zero_eq) refl
    | inr (p, found) ↦ rw found (lookup-Entries (Seen ms) inst d h found)
  ]

  mark_position-Priced :
      (pf : Portfolio N) (inst : String) (price : N)
      → Priced pf
      → Priced (mark_position pf inst price (lookup inst pf.positions))
  unfolding mark_position
  mark_position-Priced pf inst price h = elim (Option-cases (lookup inst pf.positions)) [
    | inl missing ↦ rw missing h
    | inr (p, found) ↦ elim (Bool-cases (n.eq p.qty n.d0)) [
      | inl flat ↦ rw (found, flat) h
      | inr held ↦
          rw (found, held)
            (put-Entries (Seen pf.marks) inst _ pf.positions h
              (lookup-Entries (Seen pf.marks) inst pf.positions h found))
    ]
  ]

  mark_all-Priced :
      (pf : Portfolio N) (prices : Dict String N) → Priced pf → Priced ((mark_all pf prices).0)
  unfolding mark_all
  mark_all-Priced pf [] h = h
  mark_all-Priced pf ((inst, price) ∷ rest) h = elim (Bool-cases (n.le price n.d0)) [
    | inl bad ↦ rw bad h
    | inr good ↦
        let pf' = record pf { marks = put inst price pf.marks } in
        rw good (
          mark_all-Priced (mark_position pf' inst price (lookup inst pf'.positions)) rest (
            mark_position-Priced pf' inst price
              (map-Entries pf.positions (put-Seen inst price pf.marks) h)))
  ]

  Reachable-Priced : (pf : Portfolio N) → n.eq n.d0 n.d0 ≡ true → Reachable pf → Priced pf
  unfolding new_portfolio apply_funding position_of
  Reachable-Priced pf z (opened cash _ same) =
      let (_, done) = raise_if-eq-ok _ _ _ same in subst Priced (ok-injective done) tt
  Reachable-Priced pf z (filled pf0 _ f reason trades before _ same) =
      apply_fill-Priced pf0 pf f reason trades (Reachable-Priced pf0 z before) same
  Reachable-Priced _ z (funded pf c before) =
      let h = Reachable-Priced pf z before in
      put-Entries (Seen pf.marks) c.instrument _ pf.positions h
        (old-Seen pf.marks c.instrument pf.positions z h)
  Reachable-Priced _ z (marked pf prices before) =
      mark_all-Priced pf prices (Reachable-Priced pf z before)

  sum_open-returns :
      (term : Position N → N → N) (ms : Dict String N) (total : N) (d : Dict String (Position N))
      → Entries (Seen ms) d
      → (sum : N) × (sum_open term ms total d ≡ ok sum)
  unfolding sum_open mark_of or_key_error
  sum_open-returns term ms total [] h = (total, refl)
  sum_open-returns term ms total ((k, p) ∷ d) (seen, h) = elim (Bool-cases (n.eq p.qty n.d0)) [
    | inl flat ↦ rw flat (sum_open-returns term ms total d h)
    | inr held ↦
        let (m, found) = lookup-has k ms (rw held at seen) in
        rw (held, found) (sum_open-returns term ms (n.add total (term p m)) d h)
  ]

  -- Whatever fills, funding charges and mark prices an account has seen since it was opened, its
  -- equity is a number: no open position lacks a mark price, so `KeyError` is never raised. Zero has to
  -- equal itself.
  pub equity-returns :
      (pf : Portfolio N) → n.eq n.d0 n.d0 ≡ true → Reachable pf → (e : N) × (equity pf ≡ ok e)
  unfolding equity unrealized_pnl
  equity-returns pf z before =
      let (u, found) =
        sum_open-returns unrealized pf.marks n.d0 pf.positions (Reachable-Priced pf z before) in
      (n.add (wallet_balance pf) u, rw found refl)
