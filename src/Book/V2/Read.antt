-- ===== src/Book/V2/Read.antt =====
-- The readers of `OrderBookV2`. A reader that counts itself returns the new book beside its result.
use libchronos.Base.{
  ℕ, zero, suc, ◌%◌, min, Bool, ◌&&◌, Option, none, some, List, [], ◌∷◌, if◌then◌else◌, ltb, leb,
  ◌==◌, get_or, take, replicate,
}
use libchronos.Base.Words.{inc64}
use libchronos.Decimal.{Fixed}
use libchronos.Types.{PriceLevel, OrderBookSnapshot}
use libchronos.Book.Levels.{max_depth, hot_depth, empty_level}
use libchronos.Book.V2.{HotData, OrderBookV2, get_read_buffer, copy_first, is_valid}

-- `readHotDataOptimistic`, with no writer at work: the version does not change between the two
-- loads, so an even version gives the result at once. At an odd one the loop does not end: `none`.
unfoldable pub read_hot_data_optimistic {ℓ} :
    {D : Type 0} {R : Type ℓ} → OrderBookV2 D → (HotData D → R) → Option R
read_hot_data_optimistic b func =
    if b.hot_data.version % 2 == 1 then none else some (func b.hot_data)

abbrev counted : {D : Type 0} → OrderBookV2 D → OrderBookV2 D
counted b = record b { stats = record b.stats { cold_path_reads = inc64 b.stats.cold_path_reads } }

module _ {D : Type 0} ⦃fx : Fixed D⦄ where
  unfoldable pub best_bid_of : HotData D → Option D
  best_bid_of h = if ltb 0 h.bid_count then some (get_or h.bid_prices 0 (fx.of_int 0)) else none

  unfoldable pub best_ask_of : HotData D → Option D
  best_ask_of h = if ltb 0 h.ask_count then some (get_or h.ask_prices 0 (fx.of_int 0)) else none

  unfoldable pub get_best_bid : OrderBookV2 D → Option (Option D)
  unfolding read_hot_data_optimistic best_bid_of
  get_best_bid b = read_hot_data_optimistic b best_bid_of

  unfoldable pub get_best_ask : OrderBookV2 D → Option (Option D)
  unfolding read_hot_data_optimistic best_ask_of
  get_best_ask b = read_hot_data_optimistic b best_ask_of

  unfoldable pub mid_price_of : HotData D → Option D
  mid_price_of h =
      if ltb 0 h.bid_count && ltb 0 h.ask_count
      then some (
          fx.div
            (fx.add (get_or h.bid_prices 0 (fx.of_int 0)) (get_or h.ask_prices 0 (fx.of_int 0)))
            (fx.of_int 2))
      else none

  unfoldable pub get_mid_price : OrderBookV2 D → Option (Option D)
  unfolding read_hot_data_optimistic mid_price_of
  get_mid_price b = read_hot_data_optimistic b mid_price_of

  unfoldable pub spread_of : HotData D → Option D
  spread_of h =
      if ltb 0 h.bid_count && ltb 0 h.ask_count
      then some (fx.sub (get_or h.ask_prices 0 (fx.of_int 0)) (get_or h.bid_prices 0 (fx.of_int 0)))
      else none

  unfoldable pub get_spread : OrderBookV2 D → Option (Option D)
  unfolding read_hot_data_optimistic spread_of
  get_spread b = read_hot_data_optimistic b spread_of

  -- The loop of `getTop5Bids` and `getTop5Asks`, from index `i`, with the rounds left.
  unfoldable pub top_levels : List D → List D → ℕ → ℕ → ℕ → List (PriceLevel D)
  top_levels prices quantities count i zero = []
  top_levels prices quantities count i (suc rounds) =
      (if ltb i count
        then record {
          price = get_or prices i (fx.of_int 0);
          quantity = get_or quantities i (fx.of_int 0);
        }
        else empty_level)
      ∷ top_levels prices quantities count (suc i) rounds

  unfoldable pub top5_bids_of : HotData D → List (PriceLevel D)
  unfolding top_levels
  top5_bids_of h = top_levels h.bid_prices h.bid_quantities h.bid_count 0 hot_depth

  unfoldable pub get_top5_bids : OrderBookV2 D → Option (List (PriceLevel D))
  unfolding read_hot_data_optimistic top5_bids_of
  get_top5_bids b = read_hot_data_optimistic b top5_bids_of

  unfoldable pub top5_asks_of : HotData D → List (PriceLevel D)
  unfolding top_levels
  top5_asks_of h = top_levels h.ask_prices h.ask_quantities h.ask_count 0 hot_depth

  unfoldable pub get_top5_asks : OrderBookV2 D → Option (List (PriceLevel D))
  unfolding read_hot_data_optimistic top5_asks_of
  get_top5_asks b = read_hot_data_optimistic b top5_asks_of

  unfoldable pub level_at :
      OrderBookV2 D → List (PriceLevel D) → ℕ → ℕ → Option (PriceLevel D) × OrderBookV2 D
  level_at b levels count level =
      if leb max_depth level
      then (none, b)
      else if ltb level count
      then (some (get_or levels level empty_level), counted b)
      else (none, b)

  unfoldable pub get_bid_level : OrderBookV2 D → ℕ → Option (PriceLevel D) × OrderBookV2 D
  unfolding level_at
  get_bid_level b level = let c = get_read_buffer b in level_at b c.bids c.bid_count level

  unfoldable pub get_ask_level : OrderBookV2 D → ℕ → Option (PriceLevel D) × OrderBookV2 D
  unfolding level_at
  get_ask_level b level = let c = get_read_buffer b in level_at b c.asks c.ask_count level

  -- `if (levels[i].is_valid()) out.emplace_back(…)` for the first levels of an array.
  unfoldable pub valid_levels : List (PriceLevel D) → List (PriceLevel D)
  valid_levels [] = []
  valid_levels (l ∷ ls) = let rest = valid_levels ls in if is_valid l then l ∷ rest else rest

  unfoldable pub get_bid_levels : OrderBookV2 D → ℕ → List (PriceLevel D) × OrderBookV2 D
  unfolding valid_levels
  get_bid_levels b max_levels =
      let c = get_read_buffer b in
      (valid_levels (take (min max_levels c.bid_count) c.bids), counted b)

  unfoldable pub get_ask_levels : OrderBookV2 D → ℕ → List (PriceLevel D) × OrderBookV2 D
  unfolding valid_levels
  get_ask_levels b max_levels =
      let c = get_read_buffer b in
      (valid_levels (take (min max_levels c.ask_count) c.asks), counted b)

  unfoldable pub get_bid_levels_fast : OrderBookV2 D → (List (PriceLevel D) × ℕ) × OrderBookV2 D
  unfolding copy_first
  get_bid_levels_fast b =
      let c = get_read_buffer b in
      ((copy_first c.bid_count (λ l. l) c.bids (replicate 20 empty_level), c.bid_count), counted b)

  unfoldable pub get_ask_levels_fast : OrderBookV2 D → (List (PriceLevel D) × ℕ) × OrderBookV2 D
  unfolding copy_first
  get_ask_levels_fast b =
      let c = get_read_buffer b in
      ((copy_first c.ask_count (λ l. l) c.asks (replicate 20 empty_level), c.ask_count), counted b)

  unfoldable pub generate_snapshot : OrderBookV2 D → OrderBookSnapshot D
  unfolding valid_levels
  generate_snapshot b =
      let c = get_read_buffer b in
      record {
        symbol_id = 0;
        timestamp_us = c.last_update_time;
        bids = valid_levels (take c.bid_count c.bids);
        asks = valid_levels (take c.ask_count c.asks);
      }

unfoldable pub is_empty : {D : Type 0} → OrderBookV2 D → Bool
is_empty b = let c = get_read_buffer b in c.bid_count == 0 && c.ask_count == 0

unfoldable pub get_last_update_time : {D : Type 0} → OrderBookV2 D → ℕ
get_last_update_time b = b.hot_data.last_update_time
