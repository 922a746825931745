-- ===== src/Book/Levels/Search.antt =====
-- Both binary searches end within `count` rounds, and find the rank of the price.
use libchronos.Base.{
  ℕ, zero, suc, ◌+◌, ◌-◌, ◌/◌, ◌≤◌, ◌<◌, ◌≡◌, Bool, true, false, Option, none, some, List, ltb,
  get_or, arith, inl, inr, Bool-cases,
}
use libchronos.Decimal.{Fixed}
use libchronos.Types.{PriceLevel}
use libchronos.Book.Levels.{search, locate, empty_level}

module _ {D : Type 0} ⦃fx : Fixed D⦄ (before : D → D → Bool) where
  -- `r` is where the price belongs among the first `count` levels.
  abbrev pub Splits : List (PriceLevel D) → D → ℕ → ℕ → Type 0
  Splits levels price count r =
      (i : ℕ) → i < count → before (get_or levels i empty_level).price price ≡ ltb i r

  pub search_lem :
      (levels : List (PriceLevel D)) (price : D) (count r : ℕ)
      → Splits levels price count r
      → (fuel lo hi : ℕ) → hi ≤ count
      → lo ≤ r
      → r ≤ hi
      → hi - lo ≤ fuel
      → search before levels price fuel lo hi ≡ r
  unfolding search
  search_lem levels price count r split zero lo hi hc lr rh enough = omega arith
  search_lem levels price count r split (suc fuel) lo hi hc lr rh enough =
      elim (Bool-cases (ltb lo hi)) [
        | inr done ↦ ground arith
        | inl more ↦ ground (
          arith,
          split (lo + (hi - lo) / 2),
          search_lem levels price count r split fuel (lo + (hi - lo) / 2 + 1) hi,
          search_lem levels price count r split fuel lo (lo + (hi - lo) / 2),
        )
      ]

-- Whether the removal finds the price at its rank.
abbrev pub Located : Bool → ℕ → Option ℕ → Type 0
Located hit r none = hit ≡ false
Located hit r (some mid) = (mid ≡ r) × (hit ≡ true)

module _ {D : Type 0} ⦃fx : Fixed D⦄ (before after : D → D → Bool) where
  pub locate_lem :
      (levels : List (PriceLevel D)) (price : D) (count r : ℕ) (hit : Bool)
      → Splits before levels price count r
      → ((i : ℕ)
          → i < count
          → before (get_or levels i empty_level).price price ≡ false
          → after (get_or levels i empty_level).price price ≡ false
          → (i ≡ r) × (hit ≡ true))
      → ((i : ℕ)
          → i < count
          → after (get_or levels i empty_level).price price ≡ true
          → i ≡ r
          → hit ≡ false)
      → (fuel lo hi : ℕ) → hi ≤ count
      → lo ≤ r
      → r ≤ hi
      → (r ≡ hi → hit ≡ false)
      → hi - lo ≤ fuel
      → Located hit r (locate before after levels price fuel lo hi)
  unfolding locate
  locate_lem levels price count r hit split found passed zero lo hi hc lr rh miss enough =
      miss (omega arith)
  locate_lem levels price count r hit split found passed (suc fuel) lo hi hc lr rh miss enough =
      elim (Bool-cases (ltb lo hi)) [
        | inr done ↦ ground (arith, miss)
        | inl more ↦ ground (
          arith,
          split (lo + (hi - lo) / 2),
          found (lo + (hi - lo) / 2),
          passed (lo + (hi - lo) / 2),
          locate_lem levels price count r hit split found passed fuel (lo + (hi - lo) / 2 + 1) hi,
          locate_lem levels price count r hit split found passed fuel lo (lo + (hi - lo) / 2),
        )
      ]
