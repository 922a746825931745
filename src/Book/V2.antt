-- ===== src/Book/V2.antt =====
-- `class OrderBookV2`: include/chronos/market_data/orderbook_v2.hpp, src/market_data/orderbook_v2.cpp.
-- One thread calls the book at a time. The pointer `active_cold_buffer_` is the index of the buffer.
-- The latency averages of the statistics, which nothing writes, are left out.
pub mod Read
pub mod Side
pub mod Inv
pub mod Refine
pub mod Lifecycle
pub mod Readers
pub mod ColdReaders
use libchronos.Base.{
  ℕ, zero, suc, min, Bool, false, Option, none, some, List, [], ◌∷◌, if◌then◌else◌, ltb, ◌==◌,
  replicate,
}
use libchronos.Base.Words.{inc64, sub64}
use libchronos.Decimal.{Fixed}
use libchronos.Types.{PriceLevel, Tick, is_bid}
use libchronos.Book.Levels.{max_depth, hot_depth, empty_level, Affected, insert_level, remove_level}

-- `HotData`
pub record HotData (D : Type 0) : Type 0 where
  pub bid_prices : List D
  pub bid_quantities : List D
  pub ask_prices : List D
  pub ask_quantities : List D
  pub version : ℕ
  pub last_update_time : ℕ
  pub bid_count : ℕ
  pub ask_count : ℕ

-- `ColdData`
pub record ColdData (D : Type 0) : Type 0 where
  pub bids : List (PriceLevel D)
  pub asks : List (PriceLevel D)
  pub bid_count : ℕ
  pub ask_count : ℕ
  pub last_update_time : ℕ

-- `Statistics`
pub record Statistics : Type 0 where
  pub total_updates : ℕ
  pub hot_path_reads : ℕ
  pub cold_path_reads : ℕ
  pub buffer_swaps : ℕ
  pub version_retries : ℕ

pub record OrderBookV2 (D : Type 0) : Type 0 where
  pub hot_data : HotData D
  pub cold_buffer_0 : ColdData D
  pub cold_buffer_1 : ColdData D
  pub active_cold_buffer : ℕ
  pub write_buffer_index : ℕ
  pub stats : Statistics
  pub hot_data_dirty : Bool

-- `cold_buffers_[i]`
abbrev pub get_buffer : {D : Type 0} → OrderBookV2 D → ℕ → ColdData D
get_buffer b i = if i == 0 then b.cold_buffer_0 else b.cold_buffer_1

abbrev pub put_buffer : {D : Type 0} → OrderBookV2 D → ℕ → ColdData D → OrderBookV2 D
put_buffer b i c = if i == 0 then record b { cold_buffer_0 = c } else record b { cold_buffer_1 = c }

-- `getWriteBuffer` and `getReadBuffer`
abbrev pub get_write_buffer : {D : Type 0} → OrderBookV2 D → ColdData D
get_write_buffer b = get_buffer b b.write_buffer_index

abbrev pub get_read_buffer : {D : Type 0} → OrderBookV2 D → ColdData D
get_read_buffer b = get_buffer b b.active_cold_buffer

-- `for (i = 0; i < n; ++i) target[i] = f(source[i]);`, inside the bounds of both arrays.
unfoldable pub copy_first {ℓ κ} : {A : Type ℓ} {B : Type κ} → ℕ → (A → B) → List A → List B → List B
copy_first zero f source target = target
copy_first (suc n) f [] target = target
copy_first (suc n) f (x ∷ xs) [] = []
copy_first (suc n) f (x ∷ xs) (y ∷ ys) = f x ∷ copy_first n f xs ys

-- `affected_pos >= 0 && affected_pos < HOT_DEPTH`
abbrev pub is_hot : Option ℕ → Bool
is_hot none = false
is_hot (some p) = ltb p hot_depth

module _ {D : Type 0} ⦃fx : Fixed D⦄ where
  -- `is_valid`
  abbrev pub is_valid : PriceLevel D → Bool
  is_valid l = fx.gt l.quantity (fx.of_int 0)

  unfoldable pub insert_bid_level : List (PriceLevel D) → ℕ → D → D → Affected D
  insert_bid_level = insert_level fx.gt fx.eq

  unfoldable pub insert_ask_level : List (PriceLevel D) → ℕ → D → D → Affected D
  insert_ask_level = insert_level fx.lt fx.eq

  unfoldable pub remove_bid_level : List (PriceLevel D) → ℕ → D → Affected D
  remove_bid_level = remove_level fx.gt fx.lt

  unfoldable pub remove_ask_level : List (PriceLevel D) → ℕ → D → Affected D
  remove_ask_level = remove_level fx.lt fx.gt

  -- `ColdData::clear`
  abbrev pub clear_cold : ColdData D → ColdData D
  clear_cold c = record {
    bids = replicate max_depth empty_level;
    asks = replicate max_depth empty_level;
    bid_count = 0;
    ask_count = 0;
    last_update_time = c.last_update_time;
  }

  -- `HotData()` and `ColdData()`
  abbrev pub new_hot : HotData D
  new_hot = record {
    bid_prices = replicate hot_depth (fx.of_int 0);
    bid_quantities = replicate hot_depth (fx.of_int 0);
    ask_prices = replicate hot_depth (fx.of_int 0);
    ask_quantities = replicate hot_depth (fx.of_int 0);
    version = 0;
    last_update_time = 0;
    bid_count = 0;
    ask_count = 0;
  }

  abbrev pub new_cold : ColdData D
  new_cold = record {
    bids = replicate max_depth empty_level;
    asks = replicate max_depth empty_level;
    bid_count = 0;
    ask_count = 0;
    last_update_time = 0;
  }

  -- The constructor.
  unfoldable pub new : OrderBookV2 D
  new = record {
    hot_data = new_hot;
    cold_buffer_0 = clear_cold new_cold;
    cold_buffer_1 = clear_cold new_cold;
    active_cold_buffer = 0;
    write_buffer_index = 0;
    stats = record {
      total_updates = 0;
      hot_path_reads = 0;
      cold_path_reads = 0;
      buffer_swaps = 0;
      version_retries = 0;
    };
    hot_data_dirty = false;
  }

  -- The branches of `updateLevels` on one side of the book.
  unfoldable pub update_bids : D → D → List (PriceLevel D) → ℕ → Affected D
  unfolding insert_bid_level remove_bid_level
  update_bids price quantity levels count =
      if fx.gt quantity (fx.of_int 0)
      then insert_bid_level levels count price quantity
      else remove_bid_level levels count price

  unfoldable pub update_asks : D → D → List (PriceLevel D) → ℕ → Affected D
  unfolding insert_ask_level remove_ask_level
  update_asks price quantity levels count =
      if fx.gt quantity (fx.of_int 0)
      then insert_ask_level levels count price quantity
      else remove_ask_level levels count price

  unfoldable pub write_bids : OrderBookV2 D → Tick D → Affected D → OrderBookV2 D
  write_bids b tick a =
      record (put_buffer b b.write_buffer_index (record (get_write_buffer b) {
        bids = a.levels;
        bid_count = a.count;
        last_update_time = tick.receive_timestamp_us;
      })) { hot_data_dirty = is_hot a.position }

  unfoldable pub write_asks : OrderBookV2 D → Tick D → Affected D → OrderBookV2 D
  write_asks b tick a =
      record (put_buffer b b.write_buffer_index (record (get_write_buffer b) {
        asks = a.levels;
        ask_count = a.count;
        last_update_time = tick.receive_timestamp_us;
      })) { hot_data_dirty = is_hot a.position }

  unfoldable pub update_levels : OrderBookV2 D → Tick D → OrderBookV2 D
  unfolding update_bids update_asks write_bids write_asks
  update_levels b tick =
      let w = get_write_buffer b in
      if is_bid tick.side
      then write_bids b tick (update_bids tick.price tick.quantity w.bids w.bid_count)
      else write_asks b tick (update_asks tick.price tick.quantity w.asks w.ask_count)

  -- The copies of `rebuildHotData`, between the two increments of the version.
  unfoldable pub copy_hot : HotData D → ColdData D → HotData D
  unfolding copy_first
  copy_hot h c = record {
    bid_prices = copy_first (min hot_depth c.bid_count) (λ l. l.price) c.bids h.bid_prices;
    bid_quantities =
        copy_first (min hot_depth c.bid_count) (λ l. l.quantity) c.bids h.bid_quantities;
    ask_prices = copy_first (min hot_depth c.ask_count) (λ l. l.price) c.asks h.ask_prices;
    ask_quantities =
        copy_first (min hot_depth c.ask_count) (λ l. l.quantity) c.asks h.ask_quantities;
    version = inc64 (inc64 h.version);
    last_update_time = c.last_update_time;
    bid_count = min hot_depth c.bid_count;
    ask_count = min hot_depth c.ask_count;
  }

  unfoldable pub rebuild_hot_data : OrderBookV2 D → OrderBookV2 D
  unfolding copy_hot
  rebuild_hot_data b =
      if b.hot_data_dirty
      then record b { hot_data_dirty = false; hot_data = copy_hot b.hot_data (get_write_buffer b) }
      else b

  unfoldable pub swap_cold_buffers : OrderBookV2 D → OrderBookV2 D
  swap_cold_buffers b =
      let w = sub64 1 b.write_buffer_index in
      let new_active = sub64 1 w in
      let copied = put_buffer b w (get_buffer b new_active) in
      record copied {
        write_buffer_index = w;
        active_cold_buffer = new_active;
        stats = record b.stats { buffer_swaps = inc64 b.stats.buffer_swaps };
      }

  unfoldable pub update : OrderBookV2 D → Tick D → OrderBookV2 D
  unfolding update_levels rebuild_hot_data swap_cold_buffers
  update b tick =
      let b' = swap_cold_buffers (rebuild_hot_data (update_levels b tick)) in
      record b' { stats = record b'.stats { total_updates = inc64 b'.stats.total_updates } }

  unfoldable pub clear : OrderBookV2 D → OrderBookV2 D
  unfolding swap_cold_buffers
  clear b =
      let cleared = put_buffer b b.write_buffer_index (clear_cold (get_write_buffer b)) in
      swap_cold_buffers (record cleared {
        hot_data = record new_hot {
          version = inc64 (inc64 b.hot_data.version);
          last_update_time = b.hot_data.last_update_time;
        };
      })
