-- ===== src/Book/V1/Runs.antt =====
-- The readers of an `OrderBook` after any of its writers: `update`, `clear` and
-- `rebuildFromSnapshot`, in any order.
use libchronos.Base.{ℕ, ◌≡◌, refl, ap₂, ◌∙◌, List, [], ◌∷◌, arith}
use libchronos.Decimal.{Fixed}
use libchronos.Types.{Tick, OrderBookSnapshot}
use libchronos.Book.Spec.{best}
use libchronos.Book.V1.{OrderBook, new, update, clear, rebuild_from_snapshot, fill_map}
use libchronos.Book.V1.Read.{best_bid_of, best_ask_of, get_best_bid_ask}
use libchronos.Book.V1.Hot.{IsFresh, update-IsFresh, update_hot_data-IsFresh}
use libchronos.Book.V1.Readers.{Reads, fresh-Reads, read-eq}
use libchronos.Book.V1.Refine.{view}

pub data Writer (D : Type 0) : Type 0 where
  on_tick : (tick : Tick D) (latency : ℕ) → Writer D
  on_clear : Writer D
  on_rebuild : (snapshot : OrderBookSnapshot D) (now_us : ℕ) → Writer D

module _ {D : Type 0} ⦃fx : Fixed D⦄ where
  unfoldable pub write : OrderBook D → Writer D → OrderBook D
  unfolding update clear rebuild_from_snapshot
  write b (on_tick tick latency) = update b tick latency
  write b on_clear = clear b
  write b (on_rebuild snapshot now_us) = rebuild_from_snapshot b snapshot now_us

  unfoldable pub write_all : OrderBook D → List (Writer D) → OrderBook D
  unfolding write
  write_all b [] = b
  write_all b (w ∷ ws) = write_all (write b w) ws

  write-IsFresh : (b : OrderBook D) (w : Writer D) → IsFresh b → IsFresh (write b w)
  unfolding write clear rebuild_from_snapshot best_bid_of best_ask_of
  write-IsFresh b (on_tick tick latency) f = update-IsFresh b tick latency f.fresh_even
  write-IsFresh b on_clear f = record {
    fresh_bid = refl;
    fresh_ask = refl;
    fresh_even = omega (arith, f.fresh_even);
  }
  write-IsFresh b (on_rebuild snapshot now_us) f =
      update_hot_data-IsFresh
        (record b {
          bids = fill_map fx.gt [] snapshot.bids;
          asks = fill_map fx.lt [] snapshot.asks;
        })
        now_us f.fresh_even

  write_all-IsFresh :
      (b : OrderBook D) (ws : List (Writer D)) → IsFresh b → IsFresh (write_all b ws)
  unfolding write_all
  write_all-IsFresh b [] f = f
  write_all-IsFresh b (w ∷ ws) f = write_all-IsFresh (write b w) ws (write-IsFresh b w f)

  new-IsFresh : IsFresh (new {D = D})
  unfolding new best_bid_of best_ask_of
  new-IsFresh = record { fresh_bid = refl; fresh_ask = refl; fresh_even = refl }

  -- After any sequence of ticks, clears and rebuildings from snapshots, whatever they hold, on a new
  -- book, the four readers of the hot data return the first prices of the two maps, their difference
  -- and their mean, or nothing where a map is empty; and getBestBidAsk returns both first prices.
  pub write_all-Reads :
      (ws : List (Writer D))
      → Reads (write_all new ws) (view (write_all new ws))
        × ((get_best_bid_ask (write_all new ws)).0
            ≡ (best (write_all new ws).bids, best (write_all new ws).asks))
  unfolding get_best_bid_ask
  write_all-Reads ws =
      let b : OrderBook D = write_all new ws in
      let f : IsFresh b = write_all-IsFresh new ws new-IsFresh in
      (
        fresh-Reads b f,
        read-eq b (λ h. (best_bid_of h, best_ask_of h))
            ∙ ap₂ (λ x y. (x, y)) f.fresh_bid f.fresh_ask,
      )
