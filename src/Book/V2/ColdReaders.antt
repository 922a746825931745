-- ===== src/Book/V2/ColdReaders.antt =====
-- What the lock-free readers of the cold data of `OrderBookV2` return.
use libchronos.Base.{
  ℕ, zero, suc, ◌≤◌, ◌≡◌, refl, ap, ap₂, sym, ◌∙◌, min, true, ◌&&◌, none, some, List, [], ◌∷◌, ◌↔◌,
  if◌then◌else◌, ltb, ◌==◌, length, take, All, arith, subst, replicate, length-take, take-take,
  get_or, get_elem?, get_or-take, pad, All-take,
}
use libchronos.Decimal.{Fixed}
use libchronos.Types.{PriceLevel}
use libchronos.Book.Levels.{empty_level}
use libchronos.Book.Spec.{Ladders, IsPositive}
use libchronos.Book.V2.{HotData, ColdData, OrderBookV2, copy_first, get_read_buffer}
use libchronos.Book.V2.Inv.{IsSynced, IsBook, view, view_cold, view-eq, read-eq}
use libchronos.Book.V2.Read.{
  level_at, get_bid_level, get_ask_level, valid_levels, get_bid_levels, get_ask_levels,
  get_bid_levels_fast, get_ask_levels_fast, generate_snapshot, is_empty,
}
use libchronos.Book.V2.Readers.{fits_side}

both_zero : (m n : ℕ) → ((m == 0 && n == 0) ≡ true) ↔ ((m ≡ 0) × (n ≡ 0))
both_zero m n = ground arith

module _ {D : Type 0} ⦃fx : Fixed D⦄ where
  valid_levels-All : (xs : List (PriceLevel D)) → All IsPositive xs → valid_levels xs ≡ xs
  unfolding valid_levels
  valid_levels-All [] all = refl
  valid_levels-All (x ∷ xs) all = rw (all.0, valid_levels-All xs all.1)

  valid_levels-take :
      (m count : ℕ) (levels : List (PriceLevel D))
      → All IsPositive (take count levels)
      → valid_levels (take (min m count) levels) ≡ take m (take count levels)
  valid_levels-take m count levels all =
      ap valid_levels (sym (take-take m count levels))
      ∙ valid_levels-All (take m (take count levels))
          (All-take IsPositive m (take count levels) all)

  copy-eq-pad :
      (n m : ℕ) (d : PriceLevel D) (xs : List (PriceLevel D))
      → n ≤ length xs
      → n ≤ m
      → copy_first n (λ l. l) xs (replicate m d) ≡ pad d m (take n xs)
  unfolding copy_first
  copy-eq-pad zero zero d xs h k = refl
  copy-eq-pad zero (suc m) d xs h k =
      ap (◌∷◌ d) (copy-eq-pad zero m d xs (omega arith) (omega arith))
  copy-eq-pad (suc n) m d [] h k = absurd (omega arith)
  copy-eq-pad (suc n) zero d (x ∷ xs) h k = absurd (omega arith)
  copy-eq-pad (suc n) (suc m) d (x ∷ xs) h k =
      ap (◌∷◌ x) (copy-eq-pad n m d xs (omega arith) (omega arith))

  get_elem?-get :
      (xs : List (PriceLevel D)) (i : ℕ)
      → get_elem? xs i ≡ (if ltb i (length xs) then some (get_or xs i empty_level) else none)
  get_elem?-get [] i = ground arith
  get_elem?-get (x ∷ xs) zero = ground arith
  get_elem?-get (x ∷ xs) (suc i) = ground (arith, get_elem?-get xs i)

  level-eq :
      (levels : List (PriceLevel D)) (count i : ℕ)
      → count ≤ length levels
      → (if ltb i count then some (get_or levels i empty_level) else none)
        ≡ get_elem? (take count levels) i
  level-eq levels count i h = ground (
    arith,
    get_elem?-get (take count levels) i,
    get_or-take count i levels empty_level,
    length-take count levels,
  )

  abbrev fast : ℕ → List (PriceLevel D) → List (PriceLevel D) × ℕ
  fast count levels = (copy_first count (λ l. l) levels (replicate 20 empty_level), count)

  fast-eq :
      (count : ℕ) (levels : List (PriceLevel D))
      → count ≤ 20
      → count ≤ length levels
      → fast count levels ≡ (pad empty_level 20 (take count levels), length (take count levels))
  fast-eq count levels small h =
      ap₂ (λ (l : List (PriceLevel D)) (n : ℕ). let r : List (PriceLevel D) × ℕ = (l, n) in r)
        (copy-eq-pad count 20 empty_level levels h small) (omega (arith, length-take count levels))

  -- What the readers of the cold data return over two ladders.
  pub record ReadsCold (b : OrderBookV2 D) (l : Ladders D) : Type 0 where
    pub bid_level : (i : ℕ) → (get_bid_level b i).0 ≡ get_elem? l.bids i
    pub ask_level : (i : ℕ) → (get_ask_level b i).0 ≡ get_elem? l.asks i
    pub bid_levels : (m : ℕ) → (get_bid_levels b m).0 ≡ take m l.bids
    pub ask_levels : (m : ℕ) → (get_ask_levels b m).0 ≡ take m l.asks
    pub bids_fast : (get_bid_levels_fast b).0 ≡ (pad empty_level 20 l.bids, length l.bids)
    pub asks_fast : (get_ask_levels_fast b).0 ≡ (pad empty_level 20 l.asks, length l.asks)
    pub snapshot_bids : (generate_snapshot b).bids ≡ l.bids
    pub snapshot_asks : (generate_snapshot b).asks ≡ l.asks
    pub empty_iff : (is_empty b ≡ true) ↔ ((length l.bids ≡ 0) × (length l.asks ≡ 0))

  level_at-eq :
      (b : OrderBookV2 D) (levels : List (PriceLevel D)) (count i : ℕ)
      → count ≤ 20
      → count ≤ length levels
      → (level_at b levels count i).0 ≡ get_elem? (take count levels) i
  unfolding level_at
  level_at-eq b levels count i small h = ground (arith, level-eq levels count i h)

  module _ (b : OrderBookV2 D) (c : ColdData D) (reads : get_read_buffer b ≡ c) (h : HotData D)
      (s : IsSynced c h) where
    in_bids : length (take c.bid_count c.bids) ≡ c.bid_count
    in_bids = omega (arith, length-take c.bid_count c.bids, s.bids.side)

    in_asks : length (take c.ask_count c.asks) ≡ c.ask_count
    in_asks = omega (arith, length-take c.ask_count c.asks, s.asks.side)

    valid_levels-take-All :
        (count : ℕ) (levels : List (PriceLevel D))
        → All IsPositive (take count levels)
        → valid_levels (take count levels) ≡ take count levels
    valid_levels-take-All count levels = valid_levels-All (take count levels)

    cold_readers_at : ReadsCold b (view_cold c)
    unfolding get_bid_level get_ask_level get_bid_levels get_ask_levels get_bid_levels_fast
        get_ask_levels_fast generate_snapshot is_empty
    cold_readers_at = record {
      bid_level = λ i.
          ap (λ (d : ColdData D). (level_at b d.bids d.bid_count i).0) reads
          ∙ level_at-eq b c.bids c.bid_count i s.bids.side.room (fits_side s.bids.side);
      ask_level = λ i.
          ap (λ (d : ColdData D). (level_at b d.asks d.ask_count i).0) reads
          ∙ level_at-eq b c.asks c.ask_count i s.asks.side.room (fits_side s.asks.side);
      bid_levels = λ m.
          ap (λ (d : ColdData D). valid_levels (take (min m d.bid_count) d.bids)) reads
          ∙ valid_levels-take m c.bid_count c.bids s.bids.positive;
      ask_levels = λ m.
          ap (λ (d : ColdData D). valid_levels (take (min m d.ask_count) d.asks)) reads
          ∙ valid_levels-take m c.ask_count c.asks s.asks.positive;
      bids_fast =
          ap (λ (d : ColdData D). fast d.bid_count d.bids) reads
          ∙ fast-eq c.bid_count c.bids s.bids.side.room (fits_side s.bids.side);
      asks_fast =
          ap (λ (d : ColdData D). fast d.ask_count d.asks) reads
          ∙ fast-eq c.ask_count c.asks s.asks.side.room (fits_side s.asks.side);
      snapshot_bids =
          ap (λ (d : ColdData D). valid_levels (take d.bid_count d.bids)) reads
          ∙ valid_levels-take-All c.bid_count c.bids s.bids.positive;
      snapshot_asks =
          ap (λ (d : ColdData D). valid_levels (take d.ask_count d.asks)) reads
          ∙ valid_levels-take-All c.ask_count c.asks s.asks.positive;
      empty_iff = rw (in_bids, in_asks, reads) (both_zero c.bid_count c.ask_count);
    }

  -- On a valid book the readers of the cold data return the levels of the active buffer: by index,
  -- up to a depth, as a filled-up array with its count, and in the snapshot.
  pub cold_readers : (b : OrderBookV2 D) → IsBook b → ReadsCold b (view b)
  cold_readers b v =
      subst (ReadsCold b) (sym (view-eq b v))
        (cold_readers_at b b.cold_buffer_0 (read-eq b v) b.hot_data v.synced)
