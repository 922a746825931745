-- ===== src/Book/V1/Refine.antt =====
-- `OrderBook` refines the ladders.
use libchronos.Base.{
  ℕ, ◌≤◌, ◌%◌, ◌≡◌, refl, ap, sym, ◌∙◌, Bool, false, List, [], ◌∷◌, inl, inr, if◌then◌else◌, length,
  take, All, arith, subst, Bool-cases, length-take, take_all, All-take,
}
use libchronos.Decimal.{Fixed, IsFixed, IsLine, ascending, descending}
use libchronos.Types.{PriceLevel, Tick, is_bid}
use libchronos.Book.PriceMap.{assign, erase, contains, IsSorted}
use libchronos.Book.PriceMap.Order.{assign-IsSorted, erase-IsSorted, take-IsSorted}
use libchronos.Book.Spec.{
  best, Ladders, apply, apply_side, IsPositive, assign-IsPositive, erase-IsPositive,
}
use libchronos.Book.V1.{
  OrderBook, trim, update_level, update_bid_level, update_ask_level, update_hot_data, trim_depth,
  update, new,
}
use libchronos.Book.V1.Trim.{trim-eq-take}
use libchronos.Book.V1.Hot.{IsFresh, update-IsFresh}
use libchronos.Book.V1.Read.{best_bid_of, best_ask_of}

module _ {D : Type 0} ⦃fx : Fixed D⦄ where
  erase-absent :
      (before : D → D → Bool) (p : D) (m : List (PriceLevel D))
      → contains before p m ≡ false
      → erase before p m ≡ m
  unfolding erase contains
  erase-absent before p [] h = refl
  erase-absent before p (x ∷ xs) h = ground (arith, erase-absent before p xs)

  levels-update :
      (before : D → D → Bool) (m : List (PriceLevel D)) (price quantity : D)
      → (update_level before m price quantity).levels ≡ (
          if fx.gt quantity (fx.of_int 0)
          then assign before price quantity m
          else erase before price m)
  unfolding update_level
  levels-update before m price quantity = ground (arith, erase-absent before price m)

  -- What the readers see.
  abbrev pub view : OrderBook D → Ladders D
  view b = record { bids = b.bids; asks = b.asks }

  pub record IsBook (b : OrderBook D) : Type 0 where
    pub bids_sorted : IsSorted fx.gt b.bids
    pub asks_sorted : IsSorted fx.lt b.asks
    pub bids_positive : All IsPositive b.bids
    pub asks_positive : All IsPositive b.asks
    pub bids_depth : length b.bids ≤ 20
    pub asks_depth : length b.asks ≤ 20
    pub hot_bid : best_bid_of b.hot_data ≡ best b.bids
    pub hot_ask : best_ask_of b.hot_data ≡ best b.asks
    pub even : b.hot_data.version % 2 ≡ 0

  trimmed : (m : List (PriceLevel D)) → length m ≤ 20 → trim (length m) m ≡ m
  trimmed m h = trim-eq-take (length m) m (omega arith) ∙ take_all 20 m h

  side-update :
      (before : D → D → Bool) (m : List (PriceLevel D)) (price quantity : D)
      → let u = (update_level before m price quantity).levels in
        trim (length u) u ≡ apply_side before price quantity m
  side-update before m price quantity =
      let u = (update_level before m price quantity).levels in
      trim-eq-take (length u) u (omega arith) ∙ ap (take 20) (levels-update before m price quantity)

  -- A tick acts on the levels as a step of the ladders.
  pub view-update :
      (b : OrderBook D) (tick : Tick D) (latency : ℕ)
      → IsBook b
      → view (update b tick latency) ≡ apply (view b) tick
  unfolding update apply update_bid_level update_ask_level update_hot_data trim_depth
  view-update b tick latency v = elim (Bool-cases (is_bid tick.side)) [
    | inl e ↦ rw e λ i. record {
      bids = side-update fx.gt b.bids tick.price tick.quantity i;
      asks = trimmed b.asks v.asks_depth i;
    }
    | inr e ↦ rw e λ i. record {
      bids = trimmed b.bids v.bids_depth i;
      asks = side-update fx.lt b.asks tick.price tick.quantity i;
    }
  ]

  module _ (laws : IsFixed D) where
    record IsLadder (before : D → D → Bool) (m : List (PriceLevel D)) : Type 0 where
      sorted : IsSorted before m
      positive : All IsPositive m
      depth : length m ≤ 20

    apply_side-IsLadder :
        {before after same : D → D → Bool} (line : IsLine before after same) (price quantity : D)
        (m : List (PriceLevel D))
        → IsLadder before m
        → IsLadder before (apply_side before price quantity m)
    apply_side-IsLadder {before} line price quantity m l =
        elim (Bool-cases (fx.gt quantity (fx.of_int 0))) [
          | inl more ↦ rw more (
              cut (assign before price quantity m) (assign-IsSorted line price quantity m l.sorted)
                (assign-IsPositive before price quantity m more l.positive))
          | inr less ↦ rw less (
              cut (erase before price m) (erase-IsSorted line price m l.sorted)
                (erase-IsPositive before price m l.positive))
        ]
      where
        cut :
            (t : List (PriceLevel D))
            → IsSorted before t
            → All IsPositive t
            → IsLadder before (take 20 t)
        cut t s p = record {
          sorted = take-IsSorted before 20 t s;
          positive = All-take IsPositive 20 t p;
          depth = omega (arith, length-take 20 t);
        }

    ladders-IsBook :
        (b : OrderBook D) → IsFresh b → IsLadder fx.gt b.bids → IsLadder fx.lt b.asks → IsBook b
    ladders-IsBook b f x y = record {
      bids_sorted = x.sorted;
      asks_sorted = y.sorted;
      bids_positive = x.positive;
      asks_positive = y.positive;
      bids_depth = x.depth;
      asks_depth = y.depth;
      hot_bid = f.fresh_bid;
      hot_ask = f.fresh_ask;
      even = f.fresh_even;
    }

    apply-IsLadders :
        (l : Ladders D) (tick : Tick D)
        → IsLadder fx.gt l.bids
        → IsLadder fx.lt l.asks
        → IsLadder fx.gt (apply l tick).bids × IsLadder fx.lt (apply l tick).asks
    unfolding apply
    apply-IsLadders l tick x y = elim (Bool-cases (is_bid tick.side)) [
      | inl e ↦ rw e (apply_side-IsLadder (descending laws) tick.price tick.quantity l.bids x, y)
      | inr e ↦ rw e (x, apply_side-IsLadder (ascending laws) tick.price tick.quantity l.asks y)
    ]

    -- Every tick keeps the invariant: both maps sorted, with positive quantities and at most twenty
    -- levels, and the hot prices those of the first levels.
    pub update-IsBook :
        (b : OrderBook D) (tick : Tick D) (latency : ℕ) → IsBook b → IsBook (update b tick latency)
    update-IsBook b tick latency v =
        let (x, y) =
          apply-IsLadders (view b) tick
            (record { sorted = v.bids_sorted; positive = v.bids_positive; depth = v.bids_depth })
            (record { sorted = v.asks_sorted; positive = v.asks_positive; depth = v.asks_depth }) in
        let e = view-update b tick latency v in
        ladders-IsBook (update b tick latency) (update-IsFresh b tick latency v.even)
          (subst (λ (l : Ladders D). IsLadder fx.gt l.bids) (sym e) x)
          (subst (λ (l : Ladders D). IsLadder fx.lt l.asks) (sym e) y)

    pub new-IsBook : IsBook new
    unfolding new best_bid_of best_ask_of
    new-IsBook = record {
      bids_sorted = tt;
      asks_sorted = tt;
      bids_positive = tt;
      asks_positive = tt;
      bids_depth = omega arith;
      asks_depth = omega arith;
      hot_bid = refl;
      hot_ask = refl;
      even = refl;
    }

pub view-new : {D : Type 0} ⦃fx : Fixed D⦄ → view {D = D} new ≡ record { bids = []; asks = [] }
unfolding new
view-new = refl
