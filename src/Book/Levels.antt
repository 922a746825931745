-- ===== src/Book/Levels.antt =====
-- src/market_data/orderbook_v2.cpp, "Static Helper Methods for Sorted Array Operations": a side of
-- the book is an array of `MAX_DEPTH` levels and the number of those in use. The helpers for bids
-- and for asks differ in their comparisons only, which are the section's parameters: `before` is
-- `>` for bids and `<` for asks, `after` the other one, `same` is `==`.
-- A result -1 is `none`. A read past the array, which does not occur, gives the empty level.
pub mod Search
pub mod Shift
pub mod Side
pub mod Insert
pub mod Remove
use libchronos.Base.{
  ℕ, zero, suc, ◌+◌, ◌-◌, ◌/◌, Bool, true, false, ◌&&◌, Option, none, some, List, if◌then◌else◌,
  ltb, leb, get_or, set,
}
use libchronos.Base.Words.{inc8, dec8}
use libchronos.Decimal.{Fixed}
use libchronos.Types.{PriceLevel}

-- `MAX_DEPTH` and `HOT_DEPTH`
abbrev pub max_depth : ℕ
max_depth = 20

abbrev pub hot_depth : ℕ
hot_depth = 5

-- `ColdData::Level()`, and `PriceLevel()`
abbrev pub empty_level : {D : Type 0} ⦃fx : Fixed D⦄ → PriceLevel D
empty_level ⦃fx⦄ = record { price = fx.of_int 0; quantity = fx.of_int 0 }

module _ {D : Type 0} ⦃fx : Fixed D⦄ (before : D → D → Bool) where
  -- The binary search of the insertion: `while (lo < hi)`, on fuel.
  unfoldable pub search : List (PriceLevel D) → D → ℕ → ℕ → ℕ → ℕ
  search levels price zero lo hi = lo
  search levels price (suc fuel) lo hi =
      let mid = lo + (hi - lo) / 2 in
      elim (ltb lo hi) [
        | true ↦ elim (before (get_or levels mid empty_level).price price) [
          | true ↦ search levels price fuel (mid + 1) hi
          | false ↦ search levels price fuel lo mid
        ]
        | false ↦ lo
      ]

-- `for (i = count; i > insert_pos; --i) levels[i] = levels[i - 1];`
unfoldable pub shift_up {ℓ} : {A : Type ℓ} → A → List A → ℕ → ℕ → List A
shift_up d levels insert_pos zero = levels
shift_up d levels insert_pos (suc i) =
    let rest = shift_up d (set levels (suc i) (get_or levels i d)) insert_pos i in
    if ltb insert_pos (suc i) then rest else levels

-- `for (j = mid; j < count - 1; ++j) levels[j] = levels[j + 1];`, with the rounds left.
unfoldable pub shift_down {ℓ} : {A : Type ℓ} → A → List A → ℕ → ℕ → List A
shift_down d levels j zero = levels
shift_down d levels j (suc rounds) =
    shift_down d (set levels j (get_or levels (suc j) d)) (suc j) rounds

-- What a helper does: the new array and count, and the affected position.
pub record Affected (D : Type 0) : Type 0 where
  pub levels : List (PriceLevel D)
  pub count : ℕ
  pub position : Option ℕ

module _ {D : Type 0} ⦃fx : Fixed D⦄ where
  -- The last part of the insertion, with the count after "Trim if at capacity".
  unfoldable pub place : List (PriceLevel D) → ℕ → ℕ → D → D → Affected D
  unfolding shift_up
  place levels count insert_pos price quantity = record {
    levels =
        set (shift_up empty_level levels insert_pos count) insert_pos
          (record { price = price; quantity = quantity });
    count = inc8 count;
    position = some insert_pos;
  }

module _ {D : Type 0} ⦃fx : Fixed D⦄ (before same : D → D → Bool) where
  unfoldable pub insert_level : List (PriceLevel D) → ℕ → D → D → Affected D
  unfolding search place
  insert_level levels count price quantity =
      let lo = search before levels price count 0 count in
      let found = get_or levels lo empty_level in
      if ltb lo count && same found.price price
      then record {
        levels = set levels lo (record { price = found.price; quantity = quantity });
        count = count;
        position = some lo;
      }
      else if leb max_depth count
      then (if leb max_depth lo
          then record { levels = levels; count = count; position = none }
          else place levels (max_depth - 1) lo price quantity)
      else place levels count lo price quantity

module _ {D : Type 0} ⦃fx : Fixed D⦄ (before after : D → D → Bool) where
  -- The binary search of the removal.
  unfoldable pub locate : List (PriceLevel D) → D → ℕ → ℕ → ℕ → Option ℕ
  locate levels price zero lo hi = none
  locate levels price (suc fuel) lo hi =
      let mid = lo + (hi - lo) / 2 in
      let here = (get_or levels mid empty_level).price in
      elim (ltb lo hi) [
        | true ↦ elim (before here price) [
          | true ↦ locate levels price fuel (mid + 1) hi
          | false ↦ elim (after here price) [
            | true ↦ locate levels price fuel lo mid
            | false ↦ some mid
          ]
        ]
        | false ↦ none
      ]

  unfoldable pub remove_level : List (PriceLevel D) → ℕ → D → Affected D
  unfolding locate shift_down
  remove_level levels count price = elim (locate levels price count 0 count) [
    | none ↦ record { levels = levels; count = count; position = none }
    | some mid ↦ record {
      levels = shift_down empty_level levels mid (count - 1 - mid);
      count = dec8 count;
      position = some mid;
    }
  ]
