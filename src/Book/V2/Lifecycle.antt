-- ===== src/Book/V2/Lifecycle.antt =====
-- The constructor of `OrderBookV2`, `clear`, and runs of ticks.
use libchronos.Base.{ℕ, ◌≤◌, ◌%◌, ◌≡◌, refl, ap, sym, ◌∙◌, Bool, List, [], ◌∷◌, arith, replicate}
use libchronos.Base.Words.{inc64}
use libchronos.Decimal.{Fixed, IsFixed}
use libchronos.Types.{Tick}
use libchronos.Book.Levels.{empty_level}
use libchronos.Book.Spec.{Ladders, apply_all}
use libchronos.Book.V2.{
  ColdData, OrderBookV2, get_write_buffer, swap_cold_buffers, update, clear, new, clear_cold,
  new_cold, new_hot,
}
use libchronos.Book.V2.Side.{IsHot, IsCold}
use libchronos.Book.V2.Inv.{IsSynced, IsBook, view, view_cold, view-eq}
use libchronos.Book.V2.Refine.{update-IsBook, view-update}

abbrev pub no_levels : {D : Type 0} → Ladders D
no_levels = record { bids = []; asks = [] }

-- A run of the book: its ticks in order.
unfoldable pub update_all :
    {D : Type 0} ⦃fx : Fixed D⦄ → OrderBookV2 D → List (Tick D) → OrderBookV2 D
update_all b [] = b
update_all b (tick ∷ ticks) = update_all (update b tick) ticks

module _ {D : Type 0} ⦃fx : Fixed D⦄ where
  empty-IsCold : (before : D → D → Bool) → IsCold before (replicate 20 empty_level) 0
  empty-IsCold before = record {
    side = record { size = refl; room = omega arith; sorted = tt };
    positive = tt;
  }

  empty-IsHot :
      IsHot (replicate 20 empty_level) 0 (replicate 5 (fx.of_int 0)) (replicate 5 (fx.of_int 0)) 0
  empty-IsHot = record {
    count_eq = omega arith;
    prices_size = refl;
    quantities_size = refl;
    prices_eq = refl;
    quantities_eq = refl;
  }

  empty-IsSynced :
      (c : ColdData D) (v t : ℕ)
      → v % 2 ≡ 0
      → IsSynced (clear_cold c) (record new_hot { version = v; last_update_time = t })
  empty-IsSynced c v t e = record {
    bids = empty-IsCold fx.gt;
    asks = empty-IsCold fx.lt;
    hot_bids = empty-IsHot;
    hot_asks = empty-IsHot;
    even = e;
  }

  pub new-IsBook : IsBook {D = D} new
  unfolding new
  new-IsBook = record {
    same_buffers = refl;
    write_index = omega arith;
    active_index = omega arith;
    clean = refl;
    synced = empty-IsSynced new_cold 0 0 refl;
  }

  pub view-new : view {D = D} new ≡ no_levels
  unfolding view new
  view-new = refl

  clear-buffers :
      (b : OrderBookV2 D)
      → b.write_buffer_index ≤ 1
      → ((clear b).cold_buffer_0 ≡ clear_cold (get_write_buffer b))
        × ((clear b).cold_buffer_1 ≡ clear_cold (get_write_buffer b))
        × ((clear b).write_buffer_index ≤ 1)
        × ((clear b).active_cold_buffer ≤ 1)
        × ((clear b).hot_data_dirty ≡ b.hot_data_dirty)
        × ((clear b).hot_data ≡ record new_hot {
          version = inc64 (inc64 b.hot_data.version);
          last_update_time = b.hot_data.last_update_time;
        })
  unfolding clear swap_cold_buffers
  clear-buffers b h = ground arith

  -- `clear` makes of a valid book a valid book in which no reader sees a level.
  pub clear_lem : (b : OrderBookV2 D) → IsBook b → IsBook (clear b) × (view (clear b) ≡ no_levels)
  clear_lem b v = (book, view-eq (clear b) book ∙ ap view_cold parts.0)
    where
      parts :
          ((clear b).cold_buffer_0 ≡ clear_cold (get_write_buffer b))
          × ((clear b).cold_buffer_1 ≡ clear_cold (get_write_buffer b))
          × ((clear b).write_buffer_index ≤ 1)
          × ((clear b).active_cold_buffer ≤ 1)
          × ((clear b).hot_data_dirty ≡ b.hot_data_dirty)
          × ((clear b).hot_data ≡ record new_hot {
            version = inc64 (inc64 b.hot_data.version);
            last_update_time = b.hot_data.last_update_time;
          })
      parts = clear-buffers b v.write_index

      book : IsBook (clear b)
      book = record {
        same_buffers = parts.1 ∙ sym parts.0;
        write_index = parts.2;
        active_index = parts.3;
        clean = parts.4 ∙ v.clean;
        synced =
            rw (parts.0, parts.5)
              (empty-IsSynced (get_write_buffer b) (inc64 (inc64 b.hot_data.version))
                b.hot_data.last_update_time (omega (arith, v.synced.even)));
      }

  -- From a valid book on, a run of ticks keeps the invariant, and what the readers see is the run of
  -- the ladders.
  pub update_all_refines :
      (laws : IsFixed D) (ticks : List (Tick D)) (b : OrderBookV2 D)
      → IsBook b
      → IsBook (update_all b ticks) × (view (update_all b ticks) ≡ apply_all (view b) ticks)
  unfolding update_all apply_all
  update_all_refines laws [] b v = (v, refl)
  update_all_refines laws (tick ∷ ticks) b v =
      let (v', e) = update_all_refines laws ticks (update b tick) (update-IsBook laws b tick v) in
      (v', e ∙ ap (λ l. apply_all l ticks) (view-update laws b tick v))
