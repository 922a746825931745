-- ===== src/Book/V2/Inv.antt =====
-- The invariant of `OrderBookV2`, and the refinement of the ladders.
use libchronos.Base.{
  ℕ, ◌≤◌, ◌%◌, ◌≡◌, ap, sym, ◌∙◌, Bool, false, Option, none, some, List, inl, inr, if◌then◌else◌,
  length, take, arith, Bool-cases,
}
use libchronos.Decimal.{Fixed, IsFixed, ascending, descending}
use libchronos.Types.{PriceLevel, Tick}
use libchronos.Book.Levels.{Affected}
use libchronos.Book.Levels.Side.{IsSide, Beyond}
use libchronos.Book.Spec.{Ladders}
use libchronos.Book.V2.{
  HotData, ColdData, OrderBookV2, put_buffer, get_write_buffer, get_read_buffer, is_hot, copy_hot,
  rebuild_hot_data, swap_cold_buffers,
}
use libchronos.Book.V2.Side.{IsHot, IsCold, copy-IsHot, keep-IsHot, Updated}

-- A position that is not hot lies behind the first five levels.
cold-Beyond : (p : Option ℕ) → is_hot p ≡ false → Beyond 5 p
cold-Beyond none h = tt
cold-Beyond (some p) h = ground arith

module _ {D : Type 0} ⦃fx : Fixed D⦄ where
  -- One copy of the levels, and the hot data over it.
  pub record IsSynced (c : ColdData D) (h : HotData D) : Type 0 where
    pub bids : IsCold fx.gt c.bids c.bid_count
    pub asks : IsCold fx.lt c.asks c.ask_count
    pub hot_bids : IsHot c.bids c.bid_count h.bid_prices h.bid_quantities h.bid_count
    pub hot_asks : IsHot c.asks c.ask_count h.ask_prices h.ask_quantities h.ask_count
    pub even : h.version % 2 ≡ 0

  pub record IsBook (b : OrderBookV2 D) : Type 0 where
    pub same_buffers : b.cold_buffer_1 ≡ b.cold_buffer_0
    pub write_index : b.write_buffer_index ≤ 1
    pub active_index : b.active_cold_buffer ≤ 1
    pub clean : b.hot_data_dirty ≡ false
    pub synced : IsSynced b.cold_buffer_0 b.hot_data

  -- What a reader sees: the levels in use of the active buffer.
  unfoldable pub view : OrderBookV2 D → Ladders D
  view b =
      let c = get_read_buffer b in
      record { bids = take c.bid_count c.bids; asks = take c.ask_count c.asks }

  abbrev pub view_cold : ColdData D → Ladders D
  view_cold c = record { bids = take c.bid_count c.bids; asks = take c.ask_count c.asks }

  pub write-eq : (b : OrderBookV2 D) → IsBook b → get_write_buffer b ≡ b.cold_buffer_0
  write-eq b v = ground arith

  pub read-eq : (b : OrderBookV2 D) → IsBook b → get_read_buffer b ≡ b.cold_buffer_0
  read-eq b v = ground arith

  pub view-eq : (b : OrderBookV2 D) → IsBook b → view b ≡ view_cold b.cold_buffer_0
  unfolding view
  view-eq b v = ap view_cold (read-eq b v)

  -- The book after the write buffer has become `c` and the buffers are swapped.
  unfoldable pub installed : OrderBookV2 D → ColdData D → Bool → OrderBookV2 D
  installed b c dirty =
      swap_cold_buffers
        (rebuild_hot_data (record (put_buffer b b.write_buffer_index c) { hot_data_dirty = dirty }))

  pub installed-buffers :
      (b : OrderBookV2 D) (c : ColdData D) (dirty : Bool)
      → b.write_buffer_index ≤ 1
      → ((installed b c dirty).cold_buffer_0 ≡ c)
        × ((installed b c dirty).cold_buffer_1 ≡ c)
        × ((installed b c dirty).write_buffer_index ≤ 1)
        × ((installed b c dirty).active_cold_buffer ≤ 1)
        × ((installed b c dirty).hot_data_dirty ≡ false)
  unfolding installed swap_cold_buffers rebuild_hot_data
  installed-buffers b c dirty h = ground arith

  pub installed-hot :
      (b : OrderBookV2 D) (c : ColdData D) (dirty : Bool)
      → b.write_buffer_index ≤ 1
      → (installed b c dirty).hot_data ≡ (if dirty then copy_hot b.hot_data c else b.hot_data)
  unfolding installed swap_cold_buffers rebuild_hot_data
  installed-hot b c dirty h = ground arith

  pub installed-IsBook :
      (b : OrderBookV2 D) (c : ColdData D) (dirty : Bool)
      → IsBook b
      → IsSynced c (if dirty then copy_hot b.hot_data c else b.hot_data)
      → IsBook (installed b c dirty)
  installed-IsBook b c dirty v s =
      let (buffer_0, buffer_1, w, a, clean) = installed-buffers b c dirty v.write_index in
      record {
        same_buffers = buffer_1 ∙ sym buffer_0;
        write_index = w;
        active_index = a;
        clean = clean;
        synced = rw (buffer_0, installed-hot b c dirty v.write_index) s;
      }

  pub copy-IsSynced :
      (c d : ColdData D) (h : HotData D)
      → IsSynced d h
      → IsCold fx.gt c.bids c.bid_count
      → IsCold fx.lt c.asks c.ask_count
      → IsSynced c (copy_hot h c)
  unfolding copy_hot
  copy-IsSynced c d h s bids asks = record {
    bids = bids;
    asks = asks;
    hot_bids =
        copy-IsHot fx.gt c.bids c.bid_count h.bid_prices h.bid_quantities bids.side
          s.hot_bids.prices_size s.hot_bids.quantities_size;
    hot_asks =
        copy-IsHot fx.lt c.asks c.ask_count h.ask_prices h.ask_quantities asks.side
          s.hot_asks.prices_size s.hot_asks.quantities_size;
    even = omega (arith, s.even);
  }

  -- The buffer after the bids, or the asks, were updated.
  unfoldable pub with_bids : ColdData D → Tick D → Affected D → ColdData D
  with_bids c tick a = record c {
    bids = a.levels;
    bid_count = a.count;
    last_update_time = tick.receive_timestamp_us;
  }

  unfoldable pub with_asks : ColdData D → Tick D → Affected D → ColdData D
  with_asks c tick a = record c {
    asks = a.levels;
    ask_count = a.count;
    last_update_time = tick.receive_timestamp_us;
  }

  module _ (laws : IsFixed D) where
    fits :
        (before : D → D → Bool) (levels : List (PriceLevel D)) (count : ℕ)
        → IsSide before levels count
        → count ≤ length levels
    fits before levels count s = omega arith

    pub bids-IsSynced :
        (c : ColdData D) (h : HotData D) (tick : Tick D) (a : Affected D)
        → IsSynced c h
        → Updated (descending laws) tick.price tick.quantity c.bids c.bid_count a
        → IsSynced
            (with_bids c tick a)
            (if is_hot a.position then copy_hot h (with_bids c tick a) else h)
    unfolding with_bids
    bids-IsSynced c h tick a s u = elim (Bool-cases (is_hot a.position)) [
      | inl hot ↦ rw hot (copy-IsSynced (with_bids c tick a) c h s u.cold s.asks)
      | inr cold ↦ rw cold (record {
        bids = u.cold;
        asks = s.asks;
        hot_bids =
            keep-IsHot c.bids a.levels c.bid_count a.count h.bid_prices h.bid_quantities h.bid_count
              (fits fx.gt c.bids c.bid_count s.bids.side) (fits fx.gt a.levels a.count u.cold.side)
              (u.kept 5 (cold-Beyond a.position cold)) s.hot_bids;
        hot_asks = s.hot_asks;
        even = s.even;
      })
    ]

    pub asks-IsSynced :
        (c : ColdData D) (h : HotData D) (tick : Tick D) (a : Affected D)
        → IsSynced c h
        → Updated (ascending laws) tick.price tick.quantity c.asks c.ask_count a
        → IsSynced
            (with_asks c tick a)
            (if is_hot a.position then copy_hot h (with_asks c tick a) else h)
    unfolding with_asks
    asks-IsSynced c h tick a s u = elim (Bool-cases (is_hot a.position)) [
      | inl hot ↦ rw hot (copy-IsSynced (with_asks c tick a) c h s s.bids u.cold)
      | inr cold ↦ rw cold (record {
        bids = s.bids;
        asks = u.cold;
        hot_bids = s.hot_bids;
        hot_asks =
            keep-IsHot c.asks a.levels c.ask_count a.count h.ask_prices h.ask_quantities h.ask_count
              (fits fx.lt c.asks c.ask_count s.asks.side) (fits fx.lt a.levels a.count u.cold.side)
              (u.kept 5 (cold-Beyond a.position cold)) s.hot_asks;
        even = s.even;
      })
    ]
