-- ===== src/Book/Spec.antt =====
-- What both order books promise: two ladders of price levels, best price first, at most `MAX_DEPTH`
-- deep, each kept as a map from prices to quantities.
use mathlib.Core.Option
use libchronos.Base.{
  Option, none, some, head?, List, [], ◌∷◌, ◌≡◌, Bool, true, if◌then◌else◌, take, All, arith,
}
use libchronos.Decimal.{Fixed}
use libchronos.Types.{PriceLevel, Tick, is_bid}
use libchronos.Book.PriceMap.{assign, erase}
use libchronos.Book.Levels.{max_depth}

pub record Ladders (D : Type 0) : Type 0 where
  pub bids : List (PriceLevel D)
  pub asks : List (PriceLevel D)

module _ {D : Type 0} ⦃fx : Fixed D⦄ where
  -- A positive quantity sets the level, any other one takes it out; then the worst level goes if
  -- there are too many.
  abbrev pub apply_side : (D → D → Bool) → D → D → List (PriceLevel D) → List (PriceLevel D)
  apply_side before price quantity levels = take max_depth (
      if fx.gt quantity (fx.of_int 0)
      then assign before price quantity levels
      else erase before price levels)

  unfoldable pub apply : Ladders D → Tick D → Ladders D
  apply l tick =
      if is_bid tick.side
      then record l { bids = apply_side fx.gt tick.price tick.quantity l.bids }
      else record l { asks = apply_side fx.lt tick.price tick.quantity l.asks }

  unfoldable pub apply_all : Ladders D → List (Tick D) → Ladders D
  apply_all l [] = l
  apply_all l (tick ∷ ticks) = apply_all (apply l tick) ticks

  abbrev pub IsPositive : PriceLevel D → Type 0
  IsPositive l = fx.gt l.quantity (fx.of_int 0) ≡ true

  pub assign-IsPositive :
      (before : D → D → Bool) (p q : D) (xs : List (PriceLevel D))
      → fx.gt q (fx.of_int 0) ≡ true
      → All IsPositive xs
      → All IsPositive (assign before p q xs)
  unfolding assign
  assign-IsPositive before p q [] h all = (h, tt)
  assign-IsPositive before p q (x ∷ xs) h all =
      ground (arith, assign-IsPositive before p q xs h all.1)

  pub erase-IsPositive :
      (before : D → D → Bool) (p : D) (xs : List (PriceLevel D))
      → All IsPositive xs
      → All IsPositive (erase before p xs)
  unfolding erase
  erase-IsPositive before p [] all = tt
  erase-IsPositive before p (x ∷ xs) all = ground (arith, erase-IsPositive before p xs all.1)

  -- The best price of a ladder.
  abbrev pub best : List (PriceLevel D) → Option D
  best levels = Option.map (λ (l : PriceLevel D). l.price) (head? levels)

  abbrev pub combine : (D → D → D) → Option D → Option D → Option D
  combine f (some a) (some b) = some (f a b)
  combine f _ _ = none
