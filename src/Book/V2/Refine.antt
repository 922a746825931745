-- ===== src/Book/V2/Refine.antt =====
-- The mutators of `OrderBookV2` keep the invariant and refine the steps of the ladders.
use libchronos.Base.{◌≡◌, refl, ap, ◌∙◌, Bool, true, false, inl, inr, if◌then◌else◌, Bool-cases}
use libchronos.Base.Words.{inc64}
use libchronos.Decimal.{Fixed, IsFixed, ascending, descending}
use libchronos.Types.{Tick, is_bid}
use libchronos.Book.Spec.{apply}
use libchronos.Book.V2.{
  write_bids, write_asks, HotData, ColdData, OrderBookV2, get_write_buffer, is_hot, update_bids,
  update_asks, update_levels, copy_hot, update,
}
use libchronos.Book.V2.Side.{Updated, update_side-Updated}
use libchronos.Book.V2.Inv.{
  IsSynced, IsBook, view, view_cold, write-eq, view-eq, installed, installed-buffers,
  installed-IsBook, with_bids, with_asks, bids-IsSynced, asks-IsSynced,
}

module _ {D : Type 0} ⦃fx : Fixed D⦄ where
  abbrev touched : OrderBookV2 D → OrderBookV2 D
  touched b = record b { stats = record b.stats { total_updates = inc64 b.stats.total_updates } }

  touched-IsBook : (b : OrderBookV2 D) → IsBook b → IsBook (touched b)
  touched-IsBook b v = record {
    same_buffers = v.same_buffers;
    write_index = v.write_index;
    active_index = v.active_index;
    clean = v.clean;
    synced = v.synced;
  }

  abbrev bid_step : OrderBookV2 D → Tick D → ColdData D → OrderBookV2 D
  bid_step b tick w =
      let a = update_bids tick.price tick.quantity w.bids w.bid_count in
      touched (installed b (with_bids w tick a) (is_hot a.position))

  update-bid :
      (b : OrderBookV2 D) (tick : Tick D)
      → is_bid tick.side ≡ true
      → update b tick ≡ bid_step b tick (get_write_buffer b)
  unfolding update installed update_levels write_bids with_bids
  update-bid b tick e = rw e refl

  abbrev ask_step : OrderBookV2 D → Tick D → ColdData D → OrderBookV2 D
  ask_step b tick w =
      let a = update_asks tick.price tick.quantity w.asks w.ask_count in
      touched (installed b (with_asks w tick a) (is_hot a.position))

  update-ask :
      (b : OrderBookV2 D) (tick : Tick D)
      → is_bid tick.side ≡ false
      → update b tick ≡ ask_step b tick (get_write_buffer b)
  unfolding update installed update_levels write_asks with_asks
  update-ask b tick e = rw e refl

  view-touched : (b : OrderBookV2 D) → view (touched b) ≡ view b
  unfolding view
  view-touched b = refl

  view-installed :
      (b : OrderBookV2 D) (c : ColdData D) (dirty : Bool)
      → IsBook b
      → IsSynced c (if dirty then copy_hot b.hot_data c else b.hot_data)
      → view (touched (installed b c dirty)) ≡ view_cold c
  view-installed b c dirty v s =
      view-touched (installed b c dirty)
      ∙ view-eq (installed b c dirty) (installed-IsBook b c dirty v s)
      ∙ ap view_cold (installed-buffers b c dirty v.write_index).0

  module _ (laws : IsFixed D) where
    bids-Updated :
        (c : ColdData D) (h : HotData D) (tick : Tick D)
        → IsSynced c h
        → Updated
            (descending laws)
            tick.price
            tick.quantity
            c.bids
            c.bid_count
            (update_bids tick.price tick.quantity c.bids c.bid_count)
    unfolding update_bids
    bids-Updated c h tick s =
        update_side-Updated (descending laws) tick.price tick.quantity c.bids c.bid_count s.bids

    asks-Updated :
        (c : ColdData D) (h : HotData D) (tick : Tick D)
        → IsSynced c h
        → Updated
            (ascending laws)
            tick.price
            tick.quantity
            c.asks
            c.ask_count
            (update_asks tick.price tick.quantity c.asks c.ask_count)
    unfolding update_asks
    asks-Updated c h tick s =
        update_side-Updated (ascending laws) tick.price tick.quantity c.asks c.ask_count s.asks

    -- The new contents of the write buffer, whichever side the tick is on.
    record Installs (b : OrderBookV2 D) (tick : Tick D) : Type 0 where
      c : ColdData D
      dirty : Bool
      is_update : update b tick ≡ touched (installed b c dirty)
      synced : IsSynced c (if dirty then copy_hot b.hot_data c else b.hot_data)
      applied : view_cold c ≡ apply (view_cold b.cold_buffer_0) tick

    update-Installs : (b : OrderBookV2 D) (tick : Tick D) → IsBook b → Installs b tick
    unfolding apply with_bids with_asks
    update-Installs b tick v = elim (Bool-cases (is_bid tick.side)) [
      | inl e ↦
          let u = bids-Updated b.cold_buffer_0 b.hot_data tick v.synced in
          let a =
            update_bids tick.price tick.quantity b.cold_buffer_0.bids b.cold_buffer_0.bid_count in
          record {
            c = with_bids b.cold_buffer_0 tick a;
            dirty = is_hot a.position;
            is_update = update-bid b tick e ∙ ap (bid_step b tick) (write-eq b v);
            synced = bids-IsSynced laws b.cold_buffer_0 b.hot_data tick a v.synced u;
            applied = rw e (ap (λ l. record (view_cold b.cold_buffer_0) { bids = l }) u.use_eq);
          }
      | inr e ↦
          let u = asks-Updated b.cold_buffer_0 b.hot_data tick v.synced in
          let a =
            update_asks tick.price tick.quantity b.cold_buffer_0.asks b.cold_buffer_0.ask_count in
          record {
            c = with_asks b.cold_buffer_0 tick a;
            dirty = is_hot a.position;
            is_update = update-ask b tick e ∙ ap (ask_step b tick) (write-eq b v);
            synced = asks-IsSynced laws b.cold_buffer_0 b.hot_data tick a v.synced u;
            applied = rw e (ap (λ l. record (view_cold b.cold_buffer_0) { asks = l }) u.use_eq);
          }
    ]

    -- Every tick keeps the invariant of the book.
    pub update-IsBook : (b : OrderBookV2 D) (tick : Tick D) → IsBook b → IsBook (update b tick)
    update-IsBook b tick v =
        let i = update-Installs b tick v in
        rw i.is_update (touched-IsBook _ (installed-IsBook b i.c i.dirty v i.synced))

    -- A tick acts on what the readers see as a step of the ladders.
    pub view-update :
        (b : OrderBookV2 D) (tick : Tick D) → IsBook b → view (update b tick) ≡ apply (view b) tick
    view-update b tick v =
        let i = update-Installs b tick v in
        rw (i.is_update, view-eq b v) (view-installed b i.c i.dirty v i.synced ∙ i.applied)
