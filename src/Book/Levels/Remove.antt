-- ===== src/Book/Levels/Remove.antt =====
-- `removeBidLevel` and `removeAskLevel` refine the erasure of a price from a map.
use libchronos.Base.{
  ℕ, zero, suc, ◌+◌, ◌-◌, ◌≤◌, ◌<◌, ◌≡◌, refl, ap, sym, ◌∙◌, Bool, true, false, none, some, List,
  [], ◌∷◌, length, take, arith, inl, inr, Option-cases, take_all,
}
use libchronos.Base.Words.{dec8}
use libchronos.Decimal.{Fixed, IsLine}
use libchronos.Types.{PriceLevel}
use libchronos.Book.PriceMap.{erase}
use libchronos.Book.PriceMap.Order.{erase-IsSorted, take-IsSorted}
use libchronos.Book.PriceMap.Rank.{remove_at, erase-hit, erase-miss}
use libchronos.Book.Levels.{empty_level, locate, remove_level, shift_down}
use libchronos.Book.Levels.Search.{Located}
use libchronos.Book.Levels.Shift.{shift_down_remove, length-shift_down}
use libchronos.Book.Levels.Side.{IsSide, Refines, r, is_hit, length-live, hit-eq, locate-Located}

module _ {ℓ} {A : Type ℓ} where
  length-remove_at-le : (n : ℕ) (xs : List A) → length (remove_at n xs) ≤ length xs
  length-remove_at-le n [] = omega arith
  length-remove_at-le zero (x ∷ xs) = omega arith
  length-remove_at-le (suc n) (x ∷ xs) = omega (arith, length-remove_at-le n xs)

  take-remove_at_le : (k p : ℕ) (xs : List A) → k ≤ p → take k (remove_at p xs) ≡ take k xs
  take-remove_at_le zero p xs h = refl
  take-remove_at_le (suc k) p [] h = refl
  take-remove_at_le (suc k) zero (x ∷ xs) h = absurd (omega arith)
  take-remove_at_le (suc k) (suc p) (x ∷ xs) h = ap (◌∷◌ x) (take-remove_at_le k p xs (omega arith))

module _ {D : Type 0} ⦃fx : Fixed D⦄ {before after same : D → D → Bool}
    (line : IsLine before after same) (levels : List (PriceLevel D)) (count : ℕ) (price : D)
    (side : IsSide before levels count) where
  open side use {size, room, sorted}

  abbrev old : List (PriceLevel D)
  old = take count levels

  abbrev target : List (PriceLevel D)
  target = erase before price old

  abbrev spot : ℕ
  spot = r line levels count price side

  length-old : length old ≡ count
  length-old = length-live line levels count price side

  removed :
      is_hit line levels count price side ≡ true
      → Refines before old target (record {
        levels = shift_down empty_level levels spot (count - 1 - spot);
        count = dec8 count;
        position = some spot;
      })
  removed h = record {
    is_side = record {
      size = length-shift_down empty_level levels spot (count - 1 - spot) ∙ size;
      room = omega (arith, below);
      sorted = rw in_use (take-IsSorted before 20 target (erase-IsSorted line price old sorted));
    };
    use_eq = in_use;
    kept = λ k b. rw (count-eq, closed) (take-remove_at_le k spot old b);
  }
    where
      below : spot < count
      below = ground arith

      count-eq : dec8 count ≡ spot + (count - 1 - spot)
      count-eq = omega (arith, below)

      all : suc (spot + (count - 1 - spot)) ≡ count
      all = omega (arith, below)

      closed :
          take (spot + (count - 1 - spot)) (shift_down empty_level levels spot (count - 1 - spot))
          ≡ remove_at spot old
      closed =
          shift_down_remove empty_level levels spot (count - 1 - spot) (omega (arith, below))
          ∙ ap (λ c. remove_at spot (take c levels)) all

      in_use :
          take (dec8 count) (shift_down empty_level levels spot (count - 1 - spot)) ≡ take 20 target
      in_use =
          rw
            (
              count-eq,
              closed,
              erase-hit line price old empty_level (hit-eq line levels count price side ∙ h),
            )
            (sym (
              take_all 20 (remove_at spot old)
                (omega (arith, length-remove_at-le spot old, length-old))))

  absent :
      is_hit line levels count price side ≡ false
      → Refines before old target (record { levels = levels; count = count; position = none })
  absent h = record {
    is_side = side;
    use_eq =
        rw (erase-miss line price old empty_level (hit-eq line levels count price side ∙ h))
          (sym (take_all 20 old (omega (arith, length-old))));
    kept = λ k b. refl;
  }

  -- On a side of the book the removal takes the price out, as a map would; no level before the
  -- affected position changes.
  pub remove_level-Refines :
      Refines before old target (remove_level before after levels count price)
  unfolding remove_level
  remove_level-Refines =
      let located = locate-Located line levels count price side in
      elim (Option-cases (locate before after levels price count 0 count)) [
        | inl e ↦ rw (e, remove_level) (absent (rw e at located))
        | inr (mid, e) ↦
            let found : Located (is_hit line levels count price side) spot (some mid) =
              rw e at located in
            rw (e, remove_level, found.0) (removed found.1)
      ]
