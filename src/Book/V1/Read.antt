-- ===== src/Book/V1/Read.antt =====
-- The readers of `OrderBook`. A reader that counts itself returns the new book beside its result.
use libchronos.Base.{
  ℕ, zero, suc, ◌%◌, Bool, ◌&&◌, Option, none, some, List, if◌then◌else◌, leb, ◌==◌, length,
  get_elem?, take,
}
use libchronos.Base.Words.{inc64}
use libchronos.Decimal.{Fixed}
use libchronos.Types.{PriceLevel, OrderBookSnapshot}
use libchronos.Book.V1.{HotData, OrderBook}

-- The tries of `readHotDataOptimistic`, with no writer at work: every try sees the same version. An
-- even one gives the result; after the last try the data is read as it is.
unfoldable pub try_read {ℓ} :
    {D : Type 0} {R : Type ℓ} → ℕ → OrderBook D → (HotData D → R) → R × OrderBook D
try_read zero b func = (func b.hot_data, b)
try_read (suc retries) b func =
    let again = try_read retries b func in
    if b.hot_data.version % 2 == 1 then again else (
      func b.hot_data,
      record b {
        statistics = record b.statistics { hot_path_reads = inc64 b.statistics.hot_path_reads };
      },
    )

unfoldable pub read_hot_data_optimistic {ℓ} :
    {D : Type 0} {R : Type ℓ} → OrderBook D → (HotData D → R) → R × OrderBook D
unfolding try_read
read_hot_data_optimistic b func = try_read 100 b func

abbrev counted : {D : Type 0} → OrderBook D → OrderBook D
counted b = record b {
  statistics = record b.statistics { cold_path_reads = inc64 b.statistics.cold_path_reads };
}

module _ {D : Type 0} ⦃fx : Fixed D⦄ where
  unfoldable pub best_bid_of : HotData D → Option D
  best_bid_of h = if h.has_bids then some h.best_bid_price else none

  unfoldable pub best_ask_of : HotData D → Option D
  best_ask_of h = if h.has_asks then some h.best_ask_price else none

  unfoldable pub mid_price_of : HotData D → Option D
  mid_price_of h =
      if h.has_bids && h.has_asks
      then some (fx.div (fx.add h.best_bid_price h.best_ask_price) (fx.of_int 2))
      else none

  unfoldable pub spread_of : HotData D → Option D
  spread_of h =
      if h.has_bids && h.has_asks then some (fx.sub h.best_ask_price h.best_bid_price) else none

  unfoldable pub get_best_bid : OrderBook D → Option D × OrderBook D
  unfolding read_hot_data_optimistic best_bid_of
  get_best_bid b = read_hot_data_optimistic b best_bid_of

  unfoldable pub get_best_ask : OrderBook D → Option D × OrderBook D
  unfolding read_hot_data_optimistic best_ask_of
  get_best_ask b = read_hot_data_optimistic b best_ask_of

  unfoldable pub get_mid_price : OrderBook D → Option D × OrderBook D
  unfolding read_hot_data_optimistic mid_price_of
  get_mid_price b = read_hot_data_optimistic b mid_price_of

  unfoldable pub get_spread : OrderBook D → Option D × OrderBook D
  unfolding read_hot_data_optimistic spread_of
  get_spread b = read_hot_data_optimistic b spread_of

  unfoldable pub get_best_bid_ask : OrderBook D → (Option D × Option D) × OrderBook D
  unfolding read_hot_data_optimistic best_bid_of best_ask_of
  get_best_bid_ask b = read_hot_data_optimistic b λ h. (best_bid_of h, best_ask_of h)

unfoldable pub get_bid_level : {D : Type 0} → OrderBook D → ℕ → Option (PriceLevel D) × OrderBook D
get_bid_level b level =
    if leb (length b.bids) level then (none, b) else (get_elem? b.bids level, counted b)

unfoldable pub get_ask_level : {D : Type 0} → OrderBook D → ℕ → Option (PriceLevel D) × OrderBook D
get_ask_level b level =
    if leb (length b.asks) level then (none, b) else (get_elem? b.asks level, counted b)

-- `for (entry : m) { if (count >= max_levels) break; … }` takes the first entries.
unfoldable pub get_bid_levels : {D : Type 0} → OrderBook D → ℕ → List (PriceLevel D) × OrderBook D
get_bid_levels b max_levels = (take max_levels b.bids, counted b)

unfoldable pub get_ask_levels : {D : Type 0} → OrderBook D → ℕ → List (PriceLevel D) × OrderBook D
get_ask_levels b max_levels = (take max_levels b.asks, counted b)

unfoldable pub generate_snapshot : {D : Type 0} → OrderBook D → OrderBookSnapshot D
generate_snapshot b = record {
  symbol_id = 0;
  timestamp_us = b.hot_data.last_update_time;
  bids = b.bids;
  asks = b.asks;
}

unfoldable pub is_empty : {D : Type 0} → OrderBook D → Bool
is_empty b = length b.bids == 0 && length b.asks == 0

unfoldable pub get_bid_depth : {D : Type 0} → OrderBook D → ℕ
get_bid_depth b = length b.bids

unfoldable pub get_ask_depth : {D : Type 0} → OrderBook D → ℕ
get_ask_depth b = length b.asks

unfoldable pub get_last_update_time : {D : Type 0} → OrderBook D → ℕ
get_last_update_time b = b.hot_data.last_update_time
