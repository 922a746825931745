-- ===== src/Book/V1/Hot.antt =====
-- The hot data of `OrderBook` after an update.
use mathlib.Core.Option
use libchronos.Base.{ℕ, ◌%◌, ◌≡◌, refl, ap, sym, ◌∙◌, List, [], ◌∷◌, if◌then◌else◌, length, arith}
use libchronos.Decimal.{Fixed}
use libchronos.Types.{PriceLevel, Tick, is_bid}
use libchronos.Book.Spec.{best}
use libchronos.Book.V1.{
  HotData, OrderBook, trim, update_bid_level, update_ask_level, hot_bids, hot_asks, update_hot_data,
  trim_depth, update,
}
use libchronos.Book.V1.Read.{best_bid_of, best_ask_of}
use libchronos.Book.V1.Trim.{trim-eq-take, head?-take}

module _ {D : Type 0} ⦃fx : Fixed D⦄ where
  hot_bid-eq : (h : HotData D) (m : List (PriceLevel D)) → best_bid_of (hot_bids h m) ≡ best m
  unfolding best_bid_of hot_bids
  hot_bid-eq h [] = refl
  hot_bid-eq h (x ∷ xs) = refl

  hot_ask-eq : (h : HotData D) (m : List (PriceLevel D)) → best_ask_of (hot_asks h m) ≡ best m
  unfolding best_ask_of hot_asks
  hot_ask-eq h [] = refl
  hot_ask-eq h (x ∷ xs) = refl

  -- The two fields of the bids do not change with the asks.
  hot_asks-keeps :
      (h : HotData D) (m : List (PriceLevel D))
      → (best_bid_of (hot_asks h m) ≡ best_bid_of h) × ((hot_asks h m).version ≡ h.version)
  unfolding best_bid_of hot_asks
  hot_asks-keeps h [] = (refl, refl)
  hot_asks-keeps h (x ∷ xs) = (refl, refl)

  hot_bids-keeps : (h : HotData D) (m : List (PriceLevel D)) → (hot_bids h m).version ≡ h.version
  unfolding hot_bids
  hot_bids-keeps h [] = refl
  hot_bids-keeps h (x ∷ xs) = refl

  -- `updateHotData` copies the best prices of both maps.
  pub record IsFresh (b : OrderBook D) : Type 0 where
    pub fresh_bid : best_bid_of b.hot_data ≡ best b.bids
    pub fresh_ask : best_ask_of b.hot_data ≡ best b.asks
    pub fresh_even : b.hot_data.version % 2 ≡ 0

  pub update_hot_data-IsFresh :
      (b : OrderBook D) (t : ℕ) → b.hot_data.version % 2 ≡ 0 → IsFresh (update_hot_data b t)
  unfolding update_hot_data best_bid_of best_ask_of
  update_hot_data-IsFresh b t e = record {
    fresh_bid =
        (hot_asks-keeps (hot_bids b.hot_data b.bids) b.asks).0 ∙ hot_bid-eq b.hot_data b.bids;
    fresh_ask = hot_ask-eq (hot_bids b.hot_data b.bids) b.asks;
    fresh_even = omega (
      arith,
      (hot_asks-keeps (hot_bids b.hot_data b.bids) b.asks).1,
      hot_bids-keeps b.hot_data b.bids,
    );
  }

  best-trim : (m : List (PriceLevel D)) → best (trim (length m) m) ≡ best m
  best-trim m =
      ap best (trim-eq-take (length m) m (omega arith))
      ∙ ap (Option.map (λ (l : PriceLevel D). l.price)) (head?-take 19 m)

  trim_depth-IsFresh : (b : OrderBook D) → IsFresh b → IsFresh (trim_depth b)
  unfolding trim_depth
  trim_depth-IsFresh b f = record {
    fresh_bid = f.fresh_bid ∙ sym (best-trim b.bids);
    fresh_ask = f.fresh_ask ∙ sym (best-trim b.asks);
    fresh_even = f.fresh_even;
  }

  pub update-IsFresh :
      (b : OrderBook D) (tick : Tick D) (latency : ℕ)
      → b.hot_data.version % 2 ≡ 0
      → IsFresh (update b tick latency)
  unfolding update update_bid_level update_ask_level
  update-IsFresh b tick latency e =
      let f = trim_depth-IsFresh _ (
        update_hot_data-IsFresh
          (if is_bid tick.side
            then update_bid_level b tick.price tick.quantity
            else update_ask_level b tick.price tick.quantity)
          tick.receive_timestamp_us (ground arith)) in
      record { fresh_bid = f.fresh_bid; fresh_ask = f.fresh_ask; fresh_even = f.fresh_even }
