-- ===== src/Book/Levels/Side.antt =====
-- A side of the book: where a price belongs in it, and what the two binary searches find.
use libchronos.Base.{
  ℕ, ◌≤◌, ◌<◌, ◌≡◌, refl, Bool, true, false, ◌&&◌, Option, none, some, List, ltb, length, get_or,
  take, arith, inl, inr, Bool-cases, length-take, get_or-take, le→ltb,
}
use libchronos.Decimal.{Fixed, IsLine}
use libchronos.Types.{PriceLevel}
use libchronos.Book.PriceMap.{IsSorted}
use libchronos.Book.PriceMap.Order.{IsSorted-get}
use libchronos.Book.PriceMap.Rank.{rank, hit, rank-le-length, before-eq-ltb}
use libchronos.Book.Levels.{empty_level, search, locate, Affected}
use libchronos.Book.Levels.Search.{Splits, search_lem, Located, locate_lem}

-- An array of `MAX_DEPTH` levels, of which the first `count` are in use and sorted.
pub record IsSide {D : Type 0} (before : D → D → Bool) (levels : List (PriceLevel D)) (count : ℕ)
    : Type 0 where
  pub size : length levels ≡ 20
  pub room : count ≤ 20
  pub sorted : IsSorted before (take count levels)

-- The first `k` levels lie before the affected position.
abbrev pub Beyond : ℕ → Option ℕ → Type 0
Beyond k none = Unit
Beyond k (some p) = k ≤ p

-- The result of a helper on a side with the levels `old` in use: a side again, whose levels in use
-- are `target` cut at `MAX_DEPTH`, and the levels before the affected position are those of `old`.
pub record Refines {D : Type 0} (before : D → D → Bool) (old target : List (PriceLevel D))
    (a : Affected D) : Type 0 where
  pub is_side : IsSide before a.levels a.count
  pub use_eq : take a.count a.levels ≡ take 20 target
  pub kept : (k : ℕ) → Beyond k a.position → take k (take a.count a.levels) ≡ take k old

module _ {D : Type 0} ⦃fx : Fixed D⦄ {before after same : D → D → Bool}
    (line : IsLine before after same) (levels : List (PriceLevel D)) (count : ℕ) (price : D)
    (side : IsSide before levels count) where
  open line use {before_irrefl, before_trans, before_connex, after_eq, same_iff}
  open side use {size, room, sorted}

  -- The rank of the price among the levels in use.
  abbrev pub r : ℕ
  r = rank before price (take count levels)

  abbrev pub is_hit : Bool
  is_hit = ltb r count && same (get_or levels r empty_level).price price

  pub length-live : length (take count levels) ≡ count
  length-live = omega (arith, length-take count levels)

  pub r-le : r ≤ count
  r-le = omega (arith, rank-le-length line price (take count levels), length-live)

  side-Splits : Splits before levels price count r
  side-Splits i lt = rw (← get_or-take count i levels empty_level lt) (
      before-eq-ltb line price (take count levels) empty_level i sorted
        (omega (arith, length-live)))

  pub hit-eq : hit before same price empty_level (take count levels) ≡ is_hit
  hit-eq = rw length-live (elim (Bool-cases (ltb r count)) [
    | inl below ↦ rw (below, get_or-take count r levels empty_level (ground arith)) refl
    | inr above ↦ rw above refl
  ])

  -- Prices strictly between two levels in use are told apart.
  live-sorted :
      (i j : ℕ)
      → i < j
      → j < count
      → before (get_or levels i empty_level).price (get_or levels j empty_level).price ≡ true
  live-sorted i j lt h =
      rw
        (
          ← get_or-take count i levels empty_level (omega arith),
          ← get_or-take count j levels empty_level h,
        )
        (IsSorted-get before (take count levels) empty_level i j sorted lt
          (omega (arith, length-live)))

  found_at :
      (i : ℕ)
      → i < count
      → before (get_or levels i empty_level).price price ≡ false
      → after (get_or levels i empty_level).price price ≡ false
      → (i ≡ r) × (is_hit ≡ true)
  found_at i lt b a = (at_rank, rw (← at_rank) (ground (arith, (same_iff here price).1 same_price)))
    where
      here : D
      here = (get_or levels i empty_level).price

      same_price : here ≡ price
      same_price = before_connex here price b (ground (arith, after_eq here price))

      at_rank : i ≡ r
      at_rank = ground (arith, side-Splits i lt, side-Splits r, live-sorted r i, same_price)

  passed_at :
      (i : ℕ)
      → i < count
      → after (get_or levels i empty_level).price price ≡ true
      → i ≡ r
      → is_hit ≡ false
  passed_at i lt a e = ground (
    arith,
    after_eq (get_or levels i empty_level).price price,
    (same_iff (get_or levels i empty_level).price price).0,
    before_irrefl price,
  )

  pub search-rank : search before levels price count 0 count ≡ r
  search-rank =
      search_lem before levels price count r side-Splits count 0 count (omega arith) (omega arith)
        r-le (omega arith)

  pub locate-Located : Located is_hit r (locate before after levels price count 0 count)
  locate-Located =
      locate_lem before after levels price count r is_hit side-Splits found_at passed_at count 0
        count (omega arith) (omega arith) r-le (λ e. rw (le→ltb r count (omega arith)) refl)
        (omega arith)
