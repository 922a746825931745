-- ===== src/Book/Levels/Insert.antt =====
-- `insertBidLevel` and `insertAskLevel` refine `m[price] = quantity` on a map that is then cut off at
-- `MAX_DEPTH` entries.
use libchronos.Base.{
  ℕ, zero, suc, ◌≤◌, ◌<◌, ◌≡◌, refl, ap, sym, ◌∙◌, Bool, true, false, none, some, List, [], ◌∷◌,
  if◌then◌else◌, leb, length, get_or, set, take, arith, inl, inr, ◌⊎◌, Bool-cases, length-take,
  get_or-take, length-set, take-take_le, dec_lt, le→leb, lt→leb_false, take_all,
}
use libchronos.Base.Words.{inc8}
use libchronos.Decimal.{Fixed, IsLine}
use libchronos.Types.{PriceLevel}
use libchronos.Book.PriceMap.{assign, IsSorted}
use libchronos.Book.PriceMap.Order.{assign-IsSorted, take-IsSorted}
use libchronos.Book.PriceMap.Rank.{insert_at, assign-hit, assign-miss}
use libchronos.Book.Levels.{empty_level, place, insert_level, shift_up}
use libchronos.Book.Levels.Shift.{take-set_lt, take-set_le, shift_up_insert, length-shift_up}
use libchronos.Book.Levels.Side.{IsSide, Refines, r, is_hit, length-live, r-le, hit-eq, search-rank}

module _ {ℓ} {A : Type ℓ} where
  length-insert_at : (n : ℕ) (v : A) (xs : List A) → length (insert_at n v xs) ≡ suc (length xs)
  length-insert_at zero v xs = refl
  length-insert_at (suc n) v [] = refl
  length-insert_at (suc n) v (x ∷ xs) = ap suc (length-insert_at n v xs)

  take-suc-insert_at :
      (n p : ℕ) (v : A) (xs : List A)
      → p ≤ n
      → take (suc n) (insert_at p v xs) ≡ insert_at p v (take n xs)
  take-suc-insert_at n zero v xs h = refl
  take-suc-insert_at zero (suc p) v xs h = absurd (omega arith)
  take-suc-insert_at (suc n) (suc p) v [] h = refl
  take-suc-insert_at (suc n) (suc p) v (x ∷ xs) h =
      ap (◌∷◌ x) (take-suc-insert_at n p v xs (omega arith))

  take-insert_at_le :
      (k p : ℕ) (v : A) (xs : List A)
      → k ≤ p
      → p ≤ length xs
      → take k (insert_at p v xs) ≡ take k xs
  take-insert_at_le zero p v xs h q = refl
  take-insert_at_le (suc k) zero v xs h q = absurd (omega arith)
  take-insert_at_le (suc k) (suc p) v [] h q = absurd (omega arith)
  take-insert_at_le (suc k) (suc p) v (x ∷ xs) h q =
      ap (◌∷◌ x) (take-insert_at_le k p v xs (omega arith) (omega arith))

module _ {D : Type 0} ⦃fx : Fixed D⦄ {before after same : D → D → Bool}
    (line : IsLine before after same) (levels : List (PriceLevel D)) (count : ℕ)
    (price quantity : D) (side : IsSide before levels count) where
  open side use {size, room, sorted}

  abbrev old : List (PriceLevel D)
  old = take count levels

  abbrev target : List (PriceLevel D)
  target = assign before price quantity old

  abbrev spot : ℕ
  spot = r line levels count price side

  abbrev new_level : PriceLevel D
  new_level = record { price = price; quantity = quantity }

  target-IsSorted : IsSorted before (take 20 target)
  target-IsSorted = take-IsSorted before 20 target (assign-IsSorted line price quantity old sorted)

  length-old : length old ≡ count
  length-old = length-live line levels count price side

  miss-target : is_hit line levels count price side ≡ false → target ≡ insert_at spot new_level old
  miss-target h =
      assign-miss line price quantity old empty_level (hit-eq line levels count price side ∙ h)

  -- The level stands there already: its quantity is written.
  updated :
      is_hit line levels count price side ≡ true
      → Refines before old target (record {
        levels =
            set levels spot
              (record { price = (get_or levels spot empty_level).price; quantity = quantity });
        count = count;
        position = some spot;
      })
  updated h = record {
    is_side = record {
      size = length-set levels spot v ∙ size;
      room = room;
      sorted = rw in_use target-IsSorted;
    };
    use_eq = in_use;
    kept = λ k b. rw set-use (take-set_le k spot old v b);
  }
    where
      below : spot < count
      below = ground arith

      v : PriceLevel D
      v = record { price = (get_or levels spot empty_level).price; quantity = quantity }

      set-use : take count (set levels spot v) ≡ set old spot v
      set-use = take-set_lt count spot levels v below

      is-target : set old spot v ≡ target
      is-target = sym (
          assign-hit line price quantity old empty_level (hit-eq line levels count price side ∙ h)
          ∙ ap
              (λ (x : PriceLevel D). set old spot (record { price = x.price; quantity = quantity }))
              (get_or-take count spot levels empty_level below))

      in_use : take count (set levels spot v) ≡ take 20 target
      in_use =
          set-use
          ∙ is-target
          ∙ sym (
              take_all 20 target
                (omega (arith, ap length is-target, length-set old spot v, length-old)))

  -- The level goes in spot its rank; spot capacity the last one goes.
  placed :
      (c : ℕ)
      → is_hit line levels count price side ≡ false
      → spot ≤ c
      → c ≤ 19
      → (c ≡ count) ⊎ ((c ≡ 19) × (count ≡ 20))
      → Refines before old target (place levels c spot price quantity)
  unfolding place
  placed c h le small why = record {
    is_side = record {
      size =
          length-set (shift_up empty_level levels spot c) spot new_level
          ∙ length-shift_up empty_level levels spot c
          ∙ size;
      room = omega arith;
      sorted = rw in_use target-IsSorted;
    };
    use_eq = in_use;
    kept = λ k b.
        rw (count-eq, inserted)
          (take-insert_at_le k spot new_level (take c levels) b
              (omega (arith, length-take c levels))
            ∙ take-take_le k c levels (omega arith)
            ∙ sym (take-take_le k count levels (omega arith)));
  }
    where
      count-eq : inc8 c ≡ suc c
      count-eq = omega arith

      inserted :
          take (suc c) (set (shift_up empty_level levels spot c) spot new_level)
          ≡ insert_at spot new_level (take c levels)
      inserted = shift_up_insert empty_level new_level levels spot c le (omega arith)

      cut : take 20 (insert_at spot new_level old) ≡ insert_at spot new_level (take c levels)
      cut = elim why [
        | inl e ↦
            rw e (take_all 20 _ (omega (arith, length-insert_at spot new_level old, length-old)))
        | inr both ↦ rw both.0 (
            take-suc-insert_at 19 spot new_level old (omega arith)
            ∙ ap (insert_at spot new_level) (take-take_le 19 count levels (omega arith)))
      ]

      in_use :
          take (inc8 c) (set (shift_up empty_level levels spot c) spot new_level) ≡ take 20 target
      in_use = rw (count-eq, inserted, miss-target h) (sym cut)

  -- No room, and the price belongs behind the last level.
  ignored :
      is_hit line levels count price side ≡ false
      → count ≡ 20
      → spot ≡ 20
      → Refines before old target (record { levels = levels; count = count; position = none })
  ignored h full last = record {
    is_side = side;
    use_eq = rw (miss-target h) (
        sym (
          take-insert_at_le 20 spot new_level old (omega arith) (omega (arith, length-old))
          ∙ take_all 20 old (omega (arith, length-old))));
    kept = λ k b. refl;
  }

  at_capacity :
      is_hit line levels count price side ≡ false
      → count ≡ 20
      → Refines before old target (
          if leb 20 spot
          then record { levels = levels; count = count; position = none }
          else place levels 19 spot price quantity)
  at_capacity h full = elim (dec_lt spot 20) [
    | yes inside ↦
        rw (lt→leb_false 20 spot inside)
          (placed 19 h (omega arith) (omega arith) (inr (refl, full)))
    | no last ↦
        rw (le→leb 20 spot (omega arith))
          (ignored h full (omega (arith, r-le line levels count price side)))
  ]

  -- On a side of the book the insertion sets the price's quantity, as a map would, and keeps the
  -- first `MAX_DEPTH` levels; no level before the affected position changes.
  pub insert_level-Refines :
      Refines before old target (insert_level before same levels count price quantity)
  unfolding insert_level
  insert_level-Refines =
      rw (search-rank line levels count price side)
        (elim (Bool-cases (is_hit line levels count price side)) [
          | inl h ↦ rw h (updated h)
          | inr h ↦ rw h (elim (dec_lt count 20) [
            | yes free ↦
                rw (lt→leb_false 20 count free)
                  (placed count h (r-le line levels count price side) (omega arith) (inl refl))
            | no full ↦ rw (le→leb 20 count (omega arith)) (at_capacity h (omega arith))
          ])
        ])
