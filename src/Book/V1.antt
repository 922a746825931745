-- ===== src/Book/V1.antt =====
-- `class OrderBook`: include/chronos/market_data/orderbook.hpp, src/market_data/orderbook.cpp. One
-- thread calls the book at a time, so the locks are always free. The latency of an update and the
-- system clock are arguments.
pub mod Read
pub mod Trim
pub mod Hot
pub mod Refine
pub mod Readers
pub mod Runs
pub mod Snapshot
use libchronos.Base.{ℕ, zero, suc, Bool, true, false, List, [], ◌∷◌, if◌then◌else◌, ltb, length}
use libchronos.Base.Words.{inc64}
use libchronos.Decimal.{Fixed}
use libchronos.Types.{PriceLevel, Tick, is_bid, OrderBookSnapshot}
use libchronos.Book.PriceMap.{assign, erase, contains, drop_last}
use libchronos.Book.Levels.{max_depth}

-- `HotData`
pub record HotData (D : Type 0) : Type 0 where
  pub best_bid_price : D
  pub best_bid_quantity : D
  pub best_ask_price : D
  pub best_ask_quantity : D
  pub last_update_time : ℕ
  pub version : ℕ
  pub has_bids : Bool
  pub has_asks : Bool

-- `Statistics`
pub record Statistics : Type 0 where
  pub total_updates : ℕ
  pub bid_updates : ℕ
  pub ask_updates : ℕ
  pub level_additions : ℕ
  pub level_removals : ℕ
  pub hot_path_reads : ℕ
  pub cold_path_reads : ℕ
  pub avg_update_latency : ℕ

-- `OrderBook`, with the fields of its `ColdData`.
pub record OrderBook (D : Type 0) : Type 0 where
  pub hot_data : HotData D
  pub bids : List (PriceLevel D)
  pub asks : List (PriceLevel D)
  pub statistics : Statistics

-- `while (m.size() > MAX_DEPTH) m.erase(--m.end());`, on fuel.
unfoldable pub trim {ℓ} : {A : Type ℓ} → ℕ → List A → List A
trim zero m = m
trim (suc fuel) m = elim (ltb max_depth (length m)) [ true ↦ trim fuel (drop_last m) | false ↦ m ]

-- The work of `updateBidLevel` and `updateAskLevel` on a map and the two counters.
pub record LevelUpdate (D : Type 0) : Type 0 where
  pub levels : List (PriceLevel D)
  pub added : Bool
  pub removed : Bool

abbrev count_if : Bool → ℕ → ℕ
count_if true n = inc64 n
count_if false n = n

-- The statistics at the end of `update`.
record_update : Statistics → Bool → ℕ → Statistics
record_update s bid_side latency = record s {
  total_updates = inc64 s.total_updates;
  bid_updates = if bid_side then inc64 s.bid_updates else s.bid_updates;
  ask_updates = if bid_side then s.ask_updates else inc64 s.ask_updates;
  avg_update_latency = latency;
}

module _ {D : Type 0} ⦃fx : Fixed D⦄ where
  unfoldable pub update_level : (D → D → Bool) → List (PriceLevel D) → D → D → LevelUpdate D
  update_level before m price quantity =
      if fx.gt quantity (fx.of_int 0)
      then record {
        levels = assign before price quantity m;
        added = if contains before price m then false else true;
        removed = false;
      }
      else if contains before price m
      then record { levels = erase before price m; added = false; removed = true }
      else record { levels = m; added = false; removed = false }

  counted : Statistics → LevelUpdate D → Statistics
  counted s u = record s {
    level_additions = count_if u.added s.level_additions;
    level_removals = count_if u.removed s.level_removals;
  }

  unfoldable pub update_bid_level : OrderBook D → D → D → OrderBook D
  unfolding update_level counted
  update_bid_level b price quantity =
      let u = update_level fx.gt b.bids price quantity in
      record b { bids = u.levels; statistics = counted b.statistics u }

  unfoldable pub update_ask_level : OrderBook D → D → D → OrderBook D
  unfolding update_level counted
  update_ask_level b price quantity =
      let u = update_level fx.lt b.asks price quantity in
      record b { asks = u.levels; statistics = counted b.statistics u }

  unfoldable pub hot_bids : HotData D → List (PriceLevel D) → HotData D
  hot_bids h [] = record h { has_bids = false }
  hot_bids h (l ∷ ls) = record h {
    best_bid_price = l.price;
    best_bid_quantity = l.quantity;
    has_bids = true;
  }

  unfoldable pub hot_asks : HotData D → List (PriceLevel D) → HotData D
  hot_asks h [] = record h { has_asks = false }
  hot_asks h (l ∷ ls) = record h {
    best_ask_price = l.price;
    best_ask_quantity = l.quantity;
    has_asks = true;
  }

  -- Between the two increments of the version.
  unfoldable pub update_hot_data : OrderBook D → ℕ → OrderBook D
  unfolding hot_bids hot_asks
  update_hot_data b receive_timestamp_us =
      let h = hot_asks (hot_bids b.hot_data b.bids) b.asks in
      record b {
        hot_data = record h {
          last_update_time = receive_timestamp_us;
          version = inc64 (inc64 h.version);
        };
      }

  unfoldable pub trim_depth : OrderBook D → OrderBook D
  unfolding trim
  trim_depth b = record b { bids = trim (length b.bids) b.bids; asks = trim (length b.asks) b.asks }

  unfoldable pub update : OrderBook D → Tick D → ℕ → OrderBook D
  unfolding update_bid_level update_ask_level update_hot_data trim_depth record_update
  update b tick latency =
      let updated =
        if is_bid tick.side
        then update_bid_level b tick.price tick.quantity
        else update_ask_level b tick.price tick.quantity in
      let trimmed = trim_depth (update_hot_data updated tick.receive_timestamp_us) in
      record trimmed { statistics = record_update trimmed.statistics (is_bid tick.side) latency }

  -- `for (level : snapshot.bids) m[level.price] = level.quantity;`
  unfoldable pub fill_map :
      (D → D → Bool) → List (PriceLevel D) → List (PriceLevel D) → List (PriceLevel D)
  fill_map before m [] = m
  fill_map before m (l ∷ ls) = fill_map before (assign before l.price l.quantity m) ls

  unfoldable pub rebuild_from_snapshot : OrderBook D → OrderBookSnapshot D → ℕ → OrderBook D
  unfolding fill_map update_hot_data
  rebuild_from_snapshot b snapshot now_us =
      update_hot_data
        (record b {
          bids = fill_map fx.gt [] snapshot.bids;
          asks = fill_map fx.lt [] snapshot.asks;
        })
        now_us

  unfoldable pub clear : OrderBook D → OrderBook D
  clear b = record b {
    bids = [];
    asks = [];
    hot_data = record {
      best_bid_price = fx.of_int 0;
      best_bid_quantity = fx.of_int 0;
      best_ask_price = fx.of_int 0;
      best_ask_quantity = fx.of_int 0;
      last_update_time = b.hot_data.last_update_time;
      version = inc64 (inc64 b.hot_data.version);
      has_bids = false;
      has_asks = false;
    };
  }

  -- The default constructor.
  unfoldable pub new : OrderBook D
  new = record {
    hot_data = record {
      best_bid_price = fx.of_int 0;
      best_bid_quantity = fx.of_int 0;
      best_ask_price = fx.of_int 0;
      best_ask_quantity = fx.of_int 0;
      last_update_time = 0;
      version = 0;
      has_bids = false;
      has_asks = false;
    };
    bids = [];
    asks = [];
    statistics = record {
      total_updates = 0;
      bid_updates = 0;
      ask_updates = 0;
      level_additions = 0;
      level_removals = 0;
      hot_path_reads = 0;
      cold_path_reads = 0;
      avg_update_latency = 0;
    };
  }
