-- ===== src/Book/V1/Readers.antt =====
-- What the readers of `OrderBook` return, by its levels.
use libchronos.Base.{ℕ, zero, suc, ◌≡◌, refl, ap₂, ◌∙◌, arith}
use libchronos.Decimal.{Fixed}
use libchronos.Book.Spec.{Ladders, best, combine}
use libchronos.Book.V1.{HotData, OrderBook}
use libchronos.Book.V1.Read.{
  try_read, read_hot_data_optimistic, best_bid_of, best_ask_of, spread_of, mid_price_of,
  get_best_bid, get_best_ask, get_spread, get_mid_price,
}
use libchronos.Book.V1.Hot.{IsFresh}
use libchronos.Book.V1.Refine.{IsBook, view}

module _ {D : Type 0} ⦃fx : Fixed D⦄ where
  -- However the tries end, the result is read from the hot data.
  try_read-eq {ℓ} :
      {R : Type ℓ} (retries : ℕ) (b : OrderBook D) (f : HotData D → R)
      → (try_read retries b f).0 ≡ f b.hot_data
  unfolding try_read
  try_read-eq zero b f = refl
  try_read-eq (suc retries) b f = ground (arith, try_read-eq retries b f)

  pub read-eq {ℓ} :
      {R : Type ℓ} (b : OrderBook D) (f : HotData D → R)
      → (read_hot_data_optimistic b f).0 ≡ f b.hot_data
  unfolding read_hot_data_optimistic
  read-eq b f = try_read-eq 100 b f

  -- What the readers return over two ladders.
  pub record Reads (b : OrderBook D) (l : Ladders D) : Type 0 where
    pub best_bid : (get_best_bid b).0 ≡ best l.bids
    pub best_ask : (get_best_ask b).0 ≡ best l.asks
    pub spread : (get_spread b).0 ≡ combine (λ x y. fx.sub y x) (best l.bids) (best l.asks)
    pub mid_price :
        (get_mid_price b).0
        ≡ combine (λ x y. fx.div (fx.add x y) (fx.of_int 2)) (best l.bids) (best l.asks)

  spread-combine :
      (h : HotData D) → spread_of h ≡ combine (λ x y. fx.sub y x) (best_bid_of h) (best_ask_of h)
  unfolding spread_of best_bid_of best_ask_of
  spread-combine h = ground arith

  mid_price-combine :
      (h : HotData D)
      → mid_price_of h
        ≡ combine (λ x y. fx.div (fx.add x y) (fx.of_int 2)) (best_bid_of h) (best_ask_of h)
  unfolding mid_price_of best_bid_of best_ask_of
  mid_price-combine h = ground arith

  -- Where the hot data are up to date, the readers return the best prices of the maps, their
  -- difference and their mean.
  pub fresh-Reads : (b : OrderBook D) → IsFresh b → Reads b (view b)
  unfolding get_best_bid get_best_ask get_spread get_mid_price
  fresh-Reads b f = record {
    best_bid = read-eq b best_bid_of ∙ f.fresh_bid;
    best_ask = read-eq b best_ask_of ∙ f.fresh_ask;
    spread =
        read-eq b spread_of
        ∙ spread-combine b.hot_data
        ∙ ap₂ (combine (λ x y. fx.sub y x)) f.fresh_bid f.fresh_ask;
    mid_price =
        read-eq b mid_price_of
        ∙ mid_price-combine b.hot_data
        ∙ ap₂ (combine (λ x y. fx.div (fx.add x y) (fx.of_int 2))) f.fresh_bid f.fresh_ask;
  }

  pub readers : (b : OrderBook D) → IsBook b → Reads b (view b)
  readers b v =
      fresh-Reads b (record { fresh_bid = v.hot_bid; fresh_ask = v.hot_ask; fresh_even = v.even })
