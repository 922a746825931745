-- ===== src/Book/V2/Readers.antt =====
-- What the readers of `OrderBookV2` return, by the levels of the active buffer.
use mathlib.Core.Option
use libchronos.Base.{
  ℕ, zero, suc, ◌+◌, ◌≤◌, ◌<◌, ◌≡◌, refl, ap, ap₂, sym, ◌∙◌, Bool, ◌&&◌, none, some, List, [], ◌∷◌,
  if◌then◌else◌, ltb, length, take, drop, arith, subst, length-take, head?, get_or, get_or-take,
  get_or-map, drop-eq-cons, drop-eq-nil, pad, dec_lt, lt→ltb, le→ltb,
}
use libchronos.Decimal.{Fixed}
use libchronos.Types.{PriceLevel}
use libchronos.Book.Levels.{empty_level}
use libchronos.Book.Levels.Side.{IsSide}
use libchronos.Book.Spec.{best, combine, Ladders}
use libchronos.Book.V2.{HotData, OrderBookV2}
use libchronos.Book.V2.Side.{IsHot}
use libchronos.Book.V2.Inv.{IsBook, view, view_cold, view-eq}
use libchronos.Book.V2.Read.{
  read_hot_data_optimistic, best_bid_of, best_ask_of, spread_of, mid_price_of, top5_bids_of,
  top5_asks_of, get_best_bid, get_best_ask, get_spread, get_mid_price, top_levels, get_top5_bids,
  get_top5_asks,
}

module _ {D : Type 0} ⦃fx : Fixed D⦄ where
  module _ {levels : List (PriceLevel D)} {count : ℕ} {prices quantities : List D} {n : ℕ}
      (hot : IsHot levels count prices quantities n) (fits : count ≤ length levels) where
    hot_level :
        (i : ℕ)
        → i < n
        → (get_or prices i (fx.of_int 0) ≡ (get_or (take count levels) i empty_level).price)
          × (get_or quantities i (fx.of_int 0)
              ≡ (get_or (take count levels) i empty_level).quantity)
    hot_level i lt = (
      sym (get_or-take n i prices (fx.of_int 0) lt)
          ∙ ap (λ l. get_or l i (fx.of_int 0)) hot.prices_eq
          ∙ get_or-map (λ (l : PriceLevel D). l.price) (take n levels) i (fx.of_int 0) empty_level
              inside
          ∙ ap (λ (l : PriceLevel D). l.price) same,
      sym (get_or-take n i quantities (fx.of_int 0) lt)
          ∙ ap (λ l. get_or l i (fx.of_int 0)) hot.quantities_eq
          ∙ get_or-map (λ (l : PriceLevel D). l.quantity) (take n levels) i (fx.of_int 0)
              empty_level inside
          ∙ ap (λ (l : PriceLevel D). l.quantity) same,
    )
      where
        inside : i < length (take n levels)
        inside = omega (arith, length-take n levels, hot.count_eq)

        same : get_or (take n levels) i empty_level ≡ get_or (take count levels) i empty_level
        same =
            get_or-take n i levels empty_level lt
            ∙ sym (get_or-take count i levels empty_level (omega (arith, hot.count_eq)))

    -- The loop of the readers of five levels.
    top_levels-eq-pad :
        (rounds i : ℕ)
        → i + rounds ≤ 5
        → top_levels prices quantities n i rounds
          ≡ pad empty_level rounds (drop i (take count levels))
    unfolding top_levels
    top_levels-eq-pad zero i h = refl
    top_levels-eq-pad (suc rounds) i h = elim (dec_lt i n) [
      | yes lt ↦
          rw
            (
              lt→ltb i n lt,
              drop-eq-cons i (take count levels) empty_level
                  (omega (arith, length-take count levels, hot.count_eq)),
              (hot_level i lt).0,
              (hot_level i lt).1,
            )
            (ap (λ (t : List (PriceLevel D)). get_or (take count levels) i empty_level ∷ t)
              (top_levels-eq-pad rounds (suc i) (omega arith)))
      | no past ↦
          rw
            (
              le→ltb i n (omega arith),
              drop-eq-nil i (take count levels)
                  (omega (arith, length-take count levels, hot.count_eq)),
            )
            (ap (◌∷◌ empty_level) (
              top_levels-eq-pad rounds (suc i) (omega arith)
              ∙ ap (pad empty_level rounds) (
                  drop-eq-nil (suc i) (take count levels)
                    (omega (arith, length-take count levels, hot.count_eq)))))
    ]

    head?-get :
        (xs : List (PriceLevel D))
        → head? xs ≡ (if ltb 0 (length xs) then some (get_or xs 0 empty_level) else none)
    head?-get [] = refl
    head?-get (x ∷ xs) = ground arith

    -- The best price, read from the hot data.
    first_price :
        (if ltb 0 n then some (get_or prices 0 (fx.of_int 0)) else none)
        ≡ Option.map (λ (l : PriceLevel D). l.price) (head? (take count levels))
    first_price =
        ground (
          arith,
          head?-get (take count levels),
          hot_level 0,
          hot.count_eq,
          length-take count levels,
        )

  pub fits_side :
      {before : D → D → Bool} {levels : List (PriceLevel D)} {count : ℕ}
      → IsSide before levels count
      → count ≤ length levels
  fits_side s = omega arith

  -- With no writer at work the first try succeeds.
  read-eq-some {ℓ} :
      {R : Type ℓ} (b : OrderBookV2 D) (f : HotData D → R)
      → IsBook b
      → read_hot_data_optimistic b f ≡ some (f b.hot_data)
  unfolding read_hot_data_optimistic
  read-eq-some b f v = rw v.synced.even refl

  -- What the hot readers return over two ladders.
  pub record ReadsHot (b : OrderBookV2 D) (l : Ladders D) : Type 0 where
    pub best_bid : get_best_bid b ≡ some (best l.bids)
    pub best_ask : get_best_ask b ≡ some (best l.asks)
    pub spread : get_spread b ≡ some (combine (λ x y. fx.sub y x) (best l.bids) (best l.asks))
    pub mid_price :
        get_mid_price b
        ≡ some (combine (λ x y. fx.div (fx.add x y) (fx.of_int 2)) (best l.bids) (best l.asks))
    pub top5_bids : get_top5_bids b ≡ some (pad empty_level 5 l.bids)
    pub top5_asks : get_top5_asks b ≡ some (pad empty_level 5 l.asks)

  if_both :
      (f : D → D → D) (m n : ℕ) (x y : D)
      → (if ltb 0 m && ltb 0 n then some (f x y) else none)
        ≡ combine f (if ltb 0 m then some x else none) (if ltb 0 n then some y else none)
  if_both f m n x y = ground arith

  hot_readers_cold : (b : OrderBookV2 D) → IsBook b → ReadsHot b (view_cold b.cold_buffer_0)
  unfolding get_best_bid get_best_ask get_spread get_mid_price get_top5_bids get_top5_asks
  hot_readers_cold b v = record {
    best_bid = read-eq-some b best_bid_of v ∙ ap some bid;
    best_ask = read-eq-some b best_ask_of v ∙ ap some ask;
    spread = read-eq-some b spread_of v ∙ ap some (both (λ x y. fx.sub y x));
    mid_price =
        read-eq-some b mid_price_of v ∙ ap some (both (λ x y. fx.div (fx.add x y) (fx.of_int 2)));
    top5_bids =
        read-eq-some b top5_bids_of v
        ∙ ap some
            (top_levels-eq-pad v.synced.hot_bids (fits_side v.synced.bids.side) 5 0 (omega arith));
    top5_asks =
        read-eq-some b top5_asks_of v
        ∙ ap some
            (top_levels-eq-pad v.synced.hot_asks (fits_side v.synced.asks.side) 5 0 (omega arith));
  }
    where
      bid :
          (if ltb 0 b.hot_data.bid_count
            then some (get_or b.hot_data.bid_prices 0 (fx.of_int 0))
            else none)
          ≡ best (view_cold b.cold_buffer_0).bids
      bid = first_price v.synced.hot_bids (fits_side v.synced.bids.side)

      ask :
          (if ltb 0 b.hot_data.ask_count
            then some (get_or b.hot_data.ask_prices 0 (fx.of_int 0))
            else none)
          ≡ best (view_cold b.cold_buffer_0).asks
      ask = first_price v.synced.hot_asks (fits_side v.synced.asks.side)

      both :
          (f : D → D → D)
          → (if ltb 0 b.hot_data.bid_count && ltb 0 b.hot_data.ask_count
              then some (
                  f
                    (get_or b.hot_data.bid_prices 0 (fx.of_int 0))
                    (get_or b.hot_data.ask_prices 0 (fx.of_int 0)))
              else none)
            ≡ combine f
                (best (view_cold b.cold_buffer_0).bids)
                (best (view_cold b.cold_buffer_0).asks)
      both f =
          if_both f b.hot_data.bid_count b.hot_data.ask_count
            (get_or b.hot_data.bid_prices 0 (fx.of_int 0))
            (get_or b.hot_data.ask_prices 0 (fx.of_int 0))
          ∙ ap₂ (combine f) bid ask

  -- On a valid book every reader of the hot data returns at the first try, and its result is that
  -- of the active cold buffer: the best prices, their difference and mean, and the first five
  -- levels, filled up with empty ones.
  pub hot_readers : (b : OrderBookV2 D) → IsBook b → ReadsHot b (view b)
  hot_readers b v = subst (ReadsHot b) (sym (view-eq b v)) (hot_readers_cold b v)
