-- ===== src/Book/Agree.antt =====
-- The two order books give the same answers.
use libchronos.Base.{ℕ, ◌≡◌, refl, ap, sym, subst, ◌∙◌, some, List, [], ◌∷◌}
use libchronos.Decimal.{Fixed, IsFixed}
use libchronos.Types.{Tick}
use libchronos.Book.Spec.{apply_all}
use libchronos.Book.V1
use libchronos.Book.V1.{OrderBook}
use libchronos.Book.V2
use libchronos.Book.V2.{OrderBookV2}

module _ {D : Type 0} ⦃fx : Fixed D⦄ where
  -- A run of the first book, with the latency of each update.
  unfoldable pub replay : OrderBook D → List (Tick D × ℕ) → OrderBook D
  replay b [] = b
  replay b ((tick, latency) ∷ ticks) = replay (V1.update b tick latency) ticks

  abbrev pub ticks_of : List (Tick D × ℕ) → List (Tick D)
  ticks_of [] = []
  ticks_of ((tick, latency) ∷ ticks) = tick ∷ ticks_of ticks

  -- From a valid book on, a run of ticks keeps the invariant of the first book, and its levels are
  -- the run of the ladders.
  pub replay_refines :
      (laws : IsFixed D) (ticks : List (Tick D × ℕ)) (b : OrderBook D)
      → V1.Refine.IsBook b
      → V1.Refine.IsBook (replay b ticks)
        × (V1.Refine.view (replay b ticks) ≡ apply_all (V1.Refine.view b) (ticks_of ticks))
  unfolding replay apply_all
  replay_refines laws [] b v = (v, refl)
  replay_refines laws ((tick, latency) ∷ ticks) b v =
      let (v', e) =
        replay_refines laws ticks (V1.update b tick latency)
          (V1.Refine.update-IsBook laws b tick latency v) in
      (v', e ∙ ap (λ l. apply_all l (ticks_of ticks)) (V1.Refine.view-update b tick latency v))

  -- From new books on, any ticks leave both with the same levels, and the readers of the best
  -- prices, the spread and the mean with the same results; those of `OrderBookV2` return at the first try.
  pub books_agree :
      (laws : IsFixed D) (ticks : List (Tick D × ℕ))
      → let b = replay V1.new ticks in
        let c = V2.Lifecycle.update_all V2.new (ticks_of ticks) in
        (V2.Inv.view c ≡ V1.Refine.view b)
        × (V2.Read.get_best_bid c ≡ some (V1.Read.get_best_bid b).0)
        × (V2.Read.get_best_ask c ≡ some (V1.Read.get_best_ask b).0)
        × (V2.Read.get_spread c ≡ some (V1.Read.get_spread b).0)
        × (V2.Read.get_mid_price c ≡ some (V1.Read.get_mid_price b).0)
  books_agree laws ticks = (
    same,
    bid.best_bid ∙ ap some (sym first.best_bid),
    bid.best_ask ∙ ap some (sym first.best_ask),
    bid.spread ∙ ap some (sym first.spread),
    bid.mid_price ∙ ap some (sym first.mid_price),
  )
    where
      b : OrderBook D
      b = replay V1.new ticks

      c : OrderBookV2 D
      c = V2.Lifecycle.update_all V2.new (ticks_of ticks)

      run_1 :
          V1.Refine.IsBook b
          × (V1.Refine.view b ≡ apply_all V2.Lifecycle.no_levels (ticks_of ticks))
      run_1 =
          let (v, e) = replay_refines laws ticks V1.new (V1.Refine.new-IsBook laws) in
          (v, e ∙ ap (λ l. apply_all l (ticks_of ticks)) V1.Refine.view-new)

      run_2 : V2.Inv.IsBook c × (V2.Inv.view c ≡ apply_all V2.Lifecycle.no_levels (ticks_of ticks))
      run_2 =
          let (v, e) =
            V2.Lifecycle.update_all_refines laws (ticks_of ticks) V2.new V2.Lifecycle.new-IsBook in
          (v, e ∙ ap (λ l. apply_all l (ticks_of ticks)) V2.Lifecycle.view-new)

      same : V2.Inv.view c ≡ V1.Refine.view b
      same = run_2.1 ∙ sym run_1.1

      bid : V2.Readers.ReadsHot c (V1.Refine.view b)
      bid = subst (V2.Readers.ReadsHot c) same (V2.Readers.hot_readers c run_2.0)

      first : V1.Readers.Reads b (V1.Refine.view b)
      first = V1.Readers.readers b run_1.0
