-- ===== src/Book/Tests.antt =====
-- The theorems of the order books at concrete books.
use libchronos.Base.{ℕ, ◌≡◌, some, List, [], ◌∷◌, take}
use libchronos.Base.Int.{ℤ}
use libchronos.Decimal.{descending}
use libchronos.Decimal.Sample.{raw_fixed, raw_IsFixed, whole}
use libchronos.Types.{Tick, TickSide}
use libchronos.Book.PriceMap.{assign, erase}
use libchronos.Book.Levels.{insert_level, remove_level}
use libchronos.Book.Levels.Side.{Refines}
use libchronos.Book.Levels.Insert.{insert_level-Refines}
use libchronos.Book.Levels.Remove.{remove_level-Refines}
use libchronos.Book.V1
use libchronos.Book.V2
use libchronos.Book.V1.{OrderBook}
use libchronos.Book.V2.{OrderBookV2}
use libchronos.Book.Spec.{apply_all, best}
use libchronos.Book.Agree.{replay, ticks_of, replay_refines, books_agree}

abbrev tick : TickSide → ℕ → ℕ → Tick ℤ
tick side price quantity = record {
  exchange_timestamp_us = 1;
  receive_timestamp_us = 2;
  exchange_id = 1;
  symbol_id = 7;
  price = whole price;
  quantity = whole quantity;
  side = side;
  flags = 0;
}

-- Two bids, two asks, then a bid taken out.
abbrev ticks : List (Tick ℤ)
ticks =
    tick TickSide.bid 100 5
    ∷ tick TickSide.bid 101 3
    ∷ tick TickSide.ask 103 2
    ∷ tick TickSide.ask 102 4
    ∷ tick TickSide.bid 100 0
    ∷ []

abbrev timed : List (Tick ℤ) → List (Tick ℤ × ℕ)
timed [] = []
timed (t ∷ ts) = (t, 50) ∷ timed ts

abbrev book_1 : OrderBook ℤ
book_1 = replay V1.new (timed ticks)

abbrev book_2 : OrderBookV2 ℤ
book_2 = V2.Lifecycle.update_all V2.new ticks

book_1-IsBook : V1.Refine.IsBook book_1
book_1-IsBook =
    (replay_refines raw_IsFixed (timed ticks) V1.new (V1.Refine.new-IsBook raw_IsFixed)).0

book_2-IsBook : V2.Inv.IsBook book_2
book_2-IsBook = (V2.Lifecycle.update_all_refines raw_IsFixed ticks V2.new V2.Lifecycle.new-IsBook).0

replay_refines_example :
    V1.Refine.IsBook (replay book_1 (timed ticks))
    × (V1.Refine.view (replay book_1 (timed ticks))
        ≡ apply_all (V1.Refine.view book_1) (ticks_of (timed ticks)))
replay_refines_example = replay_refines raw_IsFixed (timed ticks) book_1 book_1-IsBook

update_all_refines_example :
    V2.Inv.IsBook (V2.Lifecycle.update_all book_2 ticks)
    × (V2.Inv.view (V2.Lifecycle.update_all book_2 ticks) ≡ apply_all (V2.Inv.view book_2) ticks)
update_all_refines_example = V2.Lifecycle.update_all_refines raw_IsFixed ticks book_2 book_2-IsBook

books_agree_example :
    (V2.Inv.view (V2.Lifecycle.update_all V2.new (ticks_of (timed ticks))) ≡ V1.Refine.view book_1)
    × (V2.Read.get_best_bid (V2.Lifecycle.update_all V2.new (ticks_of (timed ticks)))
        ≡ some (V1.Read.get_best_bid book_1).0)
    × (V2.Read.get_best_ask (V2.Lifecycle.update_all V2.new (ticks_of (timed ticks)))
        ≡ some (V1.Read.get_best_ask book_1).0)
    × (V2.Read.get_spread (V2.Lifecycle.update_all V2.new (ticks_of (timed ticks)))
        ≡ some (V1.Read.get_spread book_1).0)
    × (V2.Read.get_mid_price (V2.Lifecycle.update_all V2.new (ticks_of (timed ticks)))
        ≡ some (V1.Read.get_mid_price book_1).0)
books_agree_example = books_agree raw_IsFixed (timed ticks)

hot_readers_example : V2.Readers.ReadsHot book_2 (V2.Inv.view book_2)
hot_readers_example = V2.Readers.hot_readers book_2 book_2-IsBook

cold_readers_example : V2.ColdReaders.ReadsCold book_2 (V2.Inv.view book_2)
cold_readers_example = V2.ColdReaders.cold_readers book_2 book_2-IsBook

clear_lem_example :
    V2.Inv.IsBook (V2.clear book_2) × (V2.Inv.view (V2.clear book_2) ≡ V2.Lifecycle.no_levels)
clear_lem_example = V2.Lifecycle.clear_lem book_2 book_2-IsBook

-- A tick, a rebuilding from the snapshot of `book_1`, and another tick.
abbrev writers : List (V1.Runs.Writer ℤ)
writers =
    V1.Runs.on_tick (tick TickSide.bid 100 5) 1
    ∷ V1.Runs.on_rebuild (V1.Read.generate_snapshot book_1) 9
    ∷ V1.Runs.on_tick (tick TickSide.ask 104 2) 1
    ∷ []

write_all-Reads_example :
    V1.Readers.Reads
      (V1.Runs.write_all V1.new writers)
      (V1.Refine.view (V1.Runs.write_all V1.new writers))
    × ((V1.Read.get_best_bid_ask (V1.Runs.write_all V1.new writers)).0 ≡ (
      best (V1.Runs.write_all V1.new writers).bids,
      best (V1.Runs.write_all V1.new writers).asks,
    ))
write_all-Reads_example = V1.Runs.write_all-Reads writers

rebuild-generate_example :
    V1.Refine.view (V1.rebuild_from_snapshot V1.new (V1.Read.generate_snapshot book_1) 9)
    ≡ V1.Refine.view book_1
rebuild-generate_example = V1.Snapshot.rebuild-generate raw_IsFixed book_1 V1.new 9 book_1-IsBook

abbrev cold : V2.ColdData ℤ
cold = book_2.cold_buffer_0

insert_level-Refines_example :
    Refines raw_fixed.gt
      (take cold.bid_count cold.bids)
      (assign raw_fixed.gt (whole 99) (whole 6) (take cold.bid_count cold.bids))
      (insert_level raw_fixed.gt raw_fixed.eq cold.bids cold.bid_count (whole 99) (whole 6))
insert_level-Refines_example =
    insert_level-Refines (descending raw_IsFixed) cold.bids cold.bid_count (whole 99) (whole 6)
      book_2-IsBook.synced.bids.side

remove_level-Refines_example :
    Refines raw_fixed.gt
      (take cold.bid_count cold.bids)
      (erase raw_fixed.gt (whole 101) (take cold.bid_count cold.bids))
      (remove_level raw_fixed.gt raw_fixed.lt cold.bids cold.bid_count (whole 101))
remove_level-Refines_example =
    remove_level-Refines (descending raw_IsFixed) cold.bids cold.bid_count (whole 101)
      book_2-IsBook.synced.bids.side
