-- ===== src/Execution/Broker/Dated.antt =====
-- What the triggers and the end of a bar keep of the orders, and a whole bar (execution/paper_broker.py).
use fuzz_helm.Base.{
  ℕ, zero, suc, ◌+◌, true, false, not, ◌&&◌, ◌≡◌, refl, sym, subst, ◌∙◌, Option, none, some, List,
  [], ◌∷◌, ◌++◌, String, ltb, leb, if◌then◌else◌, Result, ok, ok-injective, All, arith,
}
use fuzz_helm.Base.Dict.{Dict, put, string_key}
use fuzz_helm.Core.Enums.{Side, OrderStatus, RejectCode, ExitReason}
use fuzz_helm.Decimal.{Decimal, d0}
use fuzz_helm.Decimal
use fuzz_helm.Execution.Number.{sign, decimal_number}
use fuzz_helm.Execution.Costs.{CostModelConfig}
use fuzz_helm.Execution.Broker.State.{DecBar, Order, Outside, Book, is_new, order_of}
use fuzz_helm.Execution.Broker.Walk.{
  Trigger, TriggerKind, fire, fire_kind, exit_position, exit_order, triggers, selected, first_of,
  by_priority, by_level, behind_open, on_way,
}
use fuzz_helm.Execution.Broker.Path.{
  room, open_step, walk_open, segment_step, walk_segment, segment, walk_path, walk_triggers,
  reachable,
}
use fuzz_helm.Execution.Broker.Bar.{
  trigger_phase, orphan_phase, run_bar, drop_orphans, expire_orphan_stops, orphan, has_triggers,
  market_phase, entry_sides,
}
use fuzz_helm.Execution.Broker.Live.{selected-All, first_of-All}
use fuzz_helm.Execution.Broker.Kept.{
  Lasting, Returns, Gives, Keeps, Snd, >>=-Returns, after-Gives, chain-Gives, if-both, returned,
  execute-Holds, market_phase-Holds,
}
use fuzz_helm.Execution.Broker.Origin.{FromOrder, From, triggers-From}

module _ {t : ℕ} (k : Lasting t) {X : Type 0} (out : Outside X) (cost : CostModelConfig) where
  exit_position-Holds :
      (reason : ExitReason) (text : String) (level p_ref : Decimal) (bk : Book X)
      → k.holds bk.orders
      → Returns (Keeps k) (exit_position out cost reason text level p_ref t bk)
  unfolding exit_position exit_order
  exit_position-Holds reason text level p_ref bk q =
      let drawn = out.next_uuid bk.outside in
      let o = exit_order out reason text level t (drawn.1) bk in
      let now : ltb t t ≡ false = ground arith in
      execute-Holds k out cost o p_ref t (some reason)
        (record bk { outside = drawn.0; seq = bk.seq + 1; orders = put (drawn.1) o bk.orders }) now
        (k.write (drawn.1) o bk.orders q (k.unfilled o refl))

  fire_kind-Holds :
      (kind : TriggerKind) (level p_ref : Decimal) (bk : Book X)
      → FromOrder bk.orders t kind
      → k.holds bk.orders
      → Returns (Keeps k) (fire_kind out cost kind level p_ref t bk)
  unfolding fire_kind FromOrder
  fire_kind-Holds (TriggerKind.stop c) level p_ref bk (o, found, by) q =
      >>=-Returns (Keeps k) (order_of bk.orders c) _ (λ r same.
        let timely : leb r.req.ts_created_ns t ≡ true =
          subst (λ x. leb x.req.ts_created_ns t ≡ true) (ok-injective (sym found ∙ same)) by in
        execute-Holds k out cost r p_ref t none _ (ground arith) q)
  fire_kind-Holds TriggerKind.tp level p_ref bk h q =
      exit_position-Holds ExitReason.tp "TP" level p_ref _ q
  fire_kind-Holds TriggerKind.liq level p_ref bk h q =
      exit_position-Holds ExitReason.liquidation "LIQUIDATION" level p_ref _ q

  fire-Holds :
      (tr : Trigger) (p_ref : Decimal) (bk : Book X)
      → From bk.orders t tr
      → k.holds bk.orders
      → Returns (Keeps k) (fire out cost tr p_ref t bk)
  unfolding fire
  fire-Holds tr p_ref bk h q = fire_kind-Holds tr.kind tr.level p_ref bk h q

  open_step-Holds :
      (o : Decimal) (next : Book X → Option (Result (Book X))) (bk : Book X) (trs : List Trigger)
      → All (From bk.orders t) trs
      → k.holds bk.orders
      → ((bk' : Book X) → k.holds bk'.orders → Gives (Keeps k) (next bk'))
      → Gives (Keeps k) (open_step out cost t o next bk trs)
  unfolding open_step
  open_step-Holds o next bk [] h q step = q
  open_step-Holds o next bk (tr ∷ trs) (live, h) q step =
      let first = first_of by_priority tr trs in
      let from = first_of-All (From bk.orders t) by_priority tr trs live h in
      after-Gives (Keeps k) (fire out cost first o t bk) next
        (λ bk' same. step bk' (returned (Keeps k) _ (fire-Holds first o bk from q) same))

  walk_open-Holds :
      (fuel : ℕ) (o : Decimal) (bk : Book X)
      → k.holds bk.orders
      → Gives (Keeps k) (walk_open out cost t fuel o bk)
  unfolding walk_open
  walk_open-Holds zero o bk q = tt
  walk_open-Holds (suc fuel) o bk q = after-Gives (Keeps k) (triggers bk t) _ (λ trs same.
      open_step-Holds o (walk_open out cost t fuel o) bk (selected (behind_open o) trs)
        (selected-All (From bk.orders t) (behind_open o) trs (triggers-From bk t trs same)) q
        (λ bk' kept. walk_open-Holds fuel o bk' kept))

  segment_step-Holds :
      (a b : Decimal) (next : Decimal → Book X → Option (Result (Book X))) (bk : Book X)
      (trs : List Trigger)
      → All (From bk.orders t) trs
      → k.holds bk.orders
      → ((level : Decimal) (bk' : Book X) → k.holds bk'.orders → Gives (Keeps k) (next level bk'))
      → Gives (Keeps k) (segment_step out cost t a b next bk trs)
  unfolding segment_step
  segment_step-Holds a b next bk [] h q step = q
  segment_step-Holds a b next bk (tr ∷ trs) (live, h) q step =
      let before = by_level (Decimal.lt b a) in
      let first = first_of before tr trs in
      let from = first_of-All (From bk.orders t) before tr trs live h in
      after-Gives (Keeps k) (fire out cost first first.level t bk) (next first.level) (λ bk' same.
        step first.level bk' (returned (Keeps k) _ (fire-Holds first first.level bk from q) same))

  walk_segment-Holds :
      (fuel : ℕ) (b a : Decimal) (bk : Book X)
      → k.holds bk.orders
      → Gives (Keeps k) (walk_segment out cost t fuel b a bk)
  unfolding walk_segment
  walk_segment-Holds zero b a bk q = tt
  walk_segment-Holds (suc fuel) b a bk q =
      if-both (Gives (Keeps k)) (Decimal.eq b a) _ _ (λ h. q)
        (λ h. after-Gives (Keeps k) (triggers bk t) _ (λ trs same.
          segment_step-Holds a b (walk_segment out cost t fuel b) bk (selected (on_way a b) trs)
            (selected-All (From bk.orders t) (on_way a b) trs (triggers-From bk t trs same)) q
            (λ level bk' kept. walk_segment-Holds fuel b level bk' kept)))

  segment-Holds :
      (a b : Decimal) (bk : Book X)
      → k.holds bk.orders
      → Gives (Keeps k) (segment out cost t a b bk)
  unfolding segment
  segment-Holds a b bk q = walk_segment-Holds (room bk + 1) b a bk q

  walk_path-Holds :
      (bar : DecBar) (bk : Book X)
      → k.holds bk.orders
      → Gives (Keeps k) (walk_path out cost t bar bk)
  unfolding walk_path
  walk_path-Holds bar bk q = chain-Gives (Keeps k) (Keeps k) _ _ (segment-Holds _ _ bk q) (λ bk1 q1.
      chain-Gives (Keeps k) (Keeps k) _ _ (segment-Holds _ _ bk1 q1)
        (λ bk2 q2. segment-Holds _ _ bk2 q2))

  walk_triggers-Holds :
      (bar : DecBar) (bk : Book X)
      → k.holds bk.orders
      → Gives (Keeps k) (walk_triggers out cost t bar bk)
  unfolding walk_triggers
  walk_triggers-Holds bar bk q = after-Gives (Keeps k) (triggers bk t) _ (λ trs same.
      if-both (Gives (Keeps k)) (not (reachable bar trs)) _ _ (λ h. q)
        (λ h.
          chain-Gives (Keeps k) (Keeps k) _ _ (walk_open-Holds (room bk + 1) bar.o bk q)
            (λ bk1 q1. walk_path-Holds bar bk1 q1)))

  trigger_phase-Holds :
      (bar : DecBar) (bk : Book X)
      → bar.open_time_ns ≡ t
      → k.holds bk.orders
      → Gives (Keeps k) (trigger_phase out cost bar bk)
  unfolding trigger_phase
  trigger_phase-Holds bar bk at q =
      if-both (Gives (Keeps k)) (has_triggers bk) (walk_triggers out cost bar.open_time_ns bar bk)
        (some (ok bk)) (λ h. rw at (walk_triggers-Holds bar bk q)) (λ h. q)

  drop_orphans-Holds :
      (pos_sign : Side) (sides : List Side) (cs : List String) (d : Dict String Order)
      → k.holds d
      → Returns (Snd k) (drop_orphans pos_sign sides cs d)
  unfolding drop_orphans
  drop_orphans-Holds pos_sign sides [] d q = q
  drop_orphans-Holds pos_sign sides (c ∷ cs) d q = >>=-Returns (Snd k) (order_of d c) _ (λ o found.
      let drop = is_new o.status && orphan pos_sign sides o in
      let gone = record o {
        status = OrderStatus.canceled;
        reject_code = some RejectCode.reduce_only_order;
      } in
      let d' = if drop then put c gone d else d in
      let q' =
        if-both k.holds drop (put c gone d) d (λ h. k.write c gone d q (k.unfilled gone refl))
          (λ h. q) in
      >>=-Returns (Snd k) (drop_orphans pos_sign sides cs d') _ (λ left same.
        let kept = returned (Snd k) _ (drop_orphans-Holds pos_sign sides cs d' q') same in
        if-both (Snd k) (is_new o.status && not drop) (c ∷ left.0, left.1) left (λ h. kept)
          (λ h. kept)))

  orphan_phase-Holds : (bk : Book X) → k.holds bk.orders → Returns (Keeps k) (orphan_phase bk)
  unfolding orphan_phase expire_orphan_stops
  orphan_phase-Holds bk q =
      if-both (Returns (Keeps k)) _ (ok bk) (expire_orphan_stops bk) (λ h. q)
        (λ h.
          >>=-Returns (Keeps k) (entry_sides bk.orders (bk.st.market_queue ++ bk.st.stop_orders)) _
            (λ sides found.
              >>=-Returns (Keeps k)
                (drop_orphans (sign bk.st.position) sides bk.st.stop_orders bk.orders) _
                (λ left same.
                  returned (Snd k) _
                    (drop_orphans-Holds (sign bk.st.position) sides bk.st.stop_orders bk.orders q)
                    same)))

  pub run_bar-Holds :
      (bar : DecBar) (bk : Book X)
      → bar.open_time_ns ≡ t
      → k.holds bk.orders
      → Gives (Keeps k) (run_bar out cost bar bk)
  unfolding run_bar
  run_bar-Holds bar bk at q = after-Gives (Keeps k) (market_phase out cost bar bk) _ (λ bk1 same.
      chain-Gives (Keeps k) (Keeps k) (trigger_phase out cost bar bk1) _
        (trigger_phase-Holds bar bk1 at
          (returned (Keeps k) _ (market_phase-Holds k out cost bar bk at q) same))
        (λ bk2 q2. orphan_phase-Holds bk2 q2))
