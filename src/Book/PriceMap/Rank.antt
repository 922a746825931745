-- ===== src/Book/PriceMap/Rank.antt =====
-- `assign` and `erase` through the position at which they act.
use libchronos.Base.{
  ℕ, zero, suc, ◌<◌, ◌≤◌, Bool, true, false, List, [], ◌∷◌, ◌≡◌, refl, if◌then◌else◌, All, arith,
  length, get_or, set, ltb, ◌&&◌,
}
use libchronos.Types.{PriceLevel}
use libchronos.Decimal.{IsLine}
use libchronos.Book.PriceMap.{assign, erase, IsSorted}

module _ {ℓ} {A : Type ℓ} where
  abbrev pub insert_at : ℕ → A → List A → List A
  insert_at zero v xs = v ∷ xs
  insert_at (suc n) v [] = v ∷ []
  insert_at (suc n) v (x ∷ xs) = x ∷ insert_at n v xs

  abbrev pub remove_at : ℕ → List A → List A
  remove_at n [] = []
  remove_at zero (x ∷ xs) = xs
  remove_at (suc n) (x ∷ xs) = x ∷ remove_at n xs

-- The number of leading entries that stand before the price.
unfoldable pub rank : {D : Type 0} → (D → D → Bool) → D → List (PriceLevel D) → ℕ
rank before p [] = 0
rank before p (x ∷ xs) = if before x.price p then suc (rank before p xs) else 0

-- The price stands at its rank.
abbrev pub hit :
    {D : Type 0} → (D → D → Bool) → (D → D → Bool) → D → PriceLevel D → List (PriceLevel D) → Bool
hit before same p d xs =
    ltb (rank before p xs) (length xs) && same (get_or xs (rank before p xs) d).price p

module _ {D : Type 0} {before after same : D → D → Bool} (line : IsLine before after same) where
  open line use {before_irrefl, before_trans, before_asym, before_connex, same_iff}

  pub rank-le-length : (p : D) (xs : List (PriceLevel D)) → rank before p xs ≤ length xs
  unfolding rank
  rank-le-length p [] = omega arith
  rank-le-length p (x ∷ xs) = ground (arith, rank-le-length p xs)

  not_before_above :
      (p a : D) (xs : List (PriceLevel D)) (d : PriceLevel D) (i : ℕ)
      → before a p ≡ false
      → All (λ y. before a y.price ≡ true) xs
      → i < length xs
      → before (get_or xs i d).price p ≡ false
  not_before_above p a [] d i h all lt = absurd (omega arith)
  not_before_above p a (x ∷ xs) d zero h all lt = ground (arith, before_trans a x.price p)
  not_before_above p a (x ∷ xs) d (suc i) h all lt =
      not_before_above p a xs d i h all.1 (omega arith)

  -- In a sorted list the test of the binary search tells on which side of the rank an index lies.
  pub before-eq-ltb :
      (p : D) (xs : List (PriceLevel D)) (d : PriceLevel D) (i : ℕ)
      → IsSorted before xs
      → i < length xs
      → before (get_or xs i d).price p ≡ ltb i (rank before p xs)
  unfolding rank
  before-eq-ltb p [] d i s lt = absurd (omega arith)
  before-eq-ltb p (x ∷ xs) d zero s lt = ground arith
  before-eq-ltb p (x ∷ xs) d (suc i) s lt =
      ground (arith, before-eq-ltb p xs d i s.1 (omega arith), not_before_above p x.price xs d i)

  -- A price that is not before `p` and stands above its rank is after `p`.
  pub assign-hit :
      (p q : D) (xs : List (PriceLevel D)) (d : PriceLevel D)
      → hit before same p d xs ≡ true
      → assign before p q xs
        ≡ set xs
            (rank before p xs)
            (record { price = (get_or xs (rank before p xs) d).price; quantity = q })
  unfolding assign rank
  assign-hit p q [] d h = ground arith
  assign-hit p q (x ∷ xs) d h =
      ground (arith, assign-hit p q xs d, (same_iff x.price p).0, before_irrefl p)

  pub assign-miss :
      (p q : D) (xs : List (PriceLevel D)) (d : PriceLevel D)
      → hit before same p d xs ≡ false
      → assign before p q xs ≡ insert_at (rank before p xs) (record { price = p; quantity = q }) xs
  unfolding assign rank
  assign-miss p q [] d h = refl
  assign-miss p q (x ∷ xs) d h =
      ground (arith, assign-miss p q xs d, (same_iff x.price p).1, before_connex x.price p)

  pub erase-hit :
      (p : D) (xs : List (PriceLevel D)) (d : PriceLevel D)
      → hit before same p d xs ≡ true
      → erase before p xs ≡ remove_at (rank before p xs) xs
  unfolding erase rank
  erase-hit p [] d h = refl
  erase-hit p (x ∷ xs) d h =
      ground (arith, erase-hit p xs d, (same_iff x.price p).0, before_irrefl p)

  pub erase-miss :
      (p : D) (xs : List (PriceLevel D)) (d : PriceLevel D)
      → hit before same p d xs ≡ false
      → erase before p xs ≡ xs
  unfolding erase rank
  erase-miss p [] d h = refl
  erase-miss p (x ∷ xs) d h =
      ground (arith, erase-miss p xs d, (same_iff x.price p).1, before_connex x.price p)
