-- ===== src/Book/V2/Side.antt =====
-- One side of `OrderBookV2`: its cold array, and the copy of the first levels in the hot data.
use libchronos.Base.{
  ℕ, zero, suc, ◌≤◌, ◌≡◌, refl, ap, sym, ◌∙◌, min, Bool, true, false, List, [], ◌∷◌, map,
  if◌then◌else◌, length, take, All, arith, inl, inr, Bool-cases, All-take, length-take,
  take-take_le,
}
use libchronos.Decimal.{Fixed, IsLine}
use libchronos.Types.{PriceLevel}
use libchronos.Book.PriceMap.{assign, erase}
use libchronos.Book.Levels.{Affected, insert_level, remove_level}
use libchronos.Book.Levels.Side.{IsSide, Beyond, Refines}
use libchronos.Book.Levels.Insert.{insert_level-Refines}
use libchronos.Book.Levels.Remove.{remove_level-Refines}
use libchronos.Book.Spec.{IsPositive, apply_side, assign-IsPositive, erase-IsPositive}
use libchronos.Book.V2.{copy_first}

module _ {ℓ κ} {A : Type ℓ} {B : Type κ} (f : A → B) where
  length-copy_first :
      (n : ℕ) (xs : List A) (ys : List B) → length (copy_first n f xs ys) ≡ length ys
  unfolding copy_first
  length-copy_first zero xs ys = refl
  length-copy_first (suc n) [] ys = refl
  length-copy_first (suc n) (x ∷ xs) [] = refl
  length-copy_first (suc n) (x ∷ xs) (y ∷ ys) = ap suc (length-copy_first n xs ys)

  pub take-copy_first :
      (n : ℕ) (xs : List A) (ys : List B)
      → n ≤ length xs
      → n ≤ length ys
      → take n (copy_first n f xs ys) ≡ map f (take n xs)
  unfolding copy_first
  take-copy_first zero xs ys h k = refl
  take-copy_first (suc n) [] ys h k = absurd (omega arith)
  take-copy_first (suc n) (x ∷ xs) [] h k = absurd (omega arith)
  take-copy_first (suc n) (x ∷ xs) (y ∷ ys) h k =
      ap (◌∷◌ (f x)) (take-copy_first n xs ys (omega arith) (omega arith))

module _ {D : Type 0} ⦃fx : Fixed D⦄ where
  -- The hot arrays hold the first levels.
  pub record IsHot (levels : List (PriceLevel D)) (count : ℕ) (prices quantities : List D) (n : ℕ)
      : Type 0 where
    pub count_eq : n ≡ min 5 count
    pub prices_size : length prices ≡ 5
    pub quantities_size : length quantities ≡ 5
    pub prices_eq : take n prices ≡ map (λ l. l.price) (take n levels)
    pub quantities_eq : take n quantities ≡ map (λ l. l.quantity) (take n levels)

  pub record IsCold (before : D → D → Bool) (levels : List (PriceLevel D)) (count : ℕ)
      : Type 0 where
    pub side : IsSide before levels count
    pub positive : All IsPositive (take count levels)

  -- The copy of `rebuildHotData` makes the arrays hot.
  pub copy-IsHot :
      (before : D → D → Bool) (levels : List (PriceLevel D)) (count : ℕ)
      (prices quantities : List D)
      → IsSide before levels count
      → length prices ≡ 5
      → length quantities ≡ 5
      → IsHot levels count
          (copy_first (min 5 count) (λ l. l.price) levels prices)
          (copy_first (min 5 count) (λ l. l.quantity) levels quantities)
          (min 5 count)
  copy-IsHot before levels count prices quantities side hp hq = record {
    count_eq = refl;
    prices_size = length-copy_first (λ l. l.price) (min 5 count) levels prices ∙ hp;
    quantities_size = length-copy_first (λ l. l.quantity) (min 5 count) levels quantities ∙ hq;
    prices_eq =
        take-copy_first (λ l. l.price) (min 5 count) levels prices (omega arith) (omega arith);
    quantities_eq =
        take-copy_first (λ l. l.quantity) (min 5 count) levels quantities (omega arith)
          (omega arith);
  }

  -- Where the first levels stay, the arrays stay hot.
  pub keep-IsHot :
      (levels levels' : List (PriceLevel D)) (count count' : ℕ) (prices quantities : List D) (n : ℕ)
      → count ≤ length levels
      → count' ≤ length levels'
      → take 5 (take count' levels') ≡ take 5 (take count levels)
      → IsHot levels count prices quantities n
      → IsHot levels' count' prices quantities n
  keep-IsHot levels levels' count count' prices quantities n fits fits' same hot = record {
    count_eq = n_eq;
    prices_size = hot.prices_size;
    quantities_size = hot.quantities_size;
    prices_eq = hot.prices_eq ∙ ap (map (λ l. l.price)) first;
    quantities_eq = hot.quantities_eq ∙ ap (map (λ l. l.quantity)) first;
  }
    where
      n_eq : n ≡ min 5 count'
      n_eq = omega (
        arith,
        hot.count_eq,
        ap length same,
        length-take 5 (take count' levels'),
        length-take 5 (take count levels),
        length-take count' levels',
        length-take count levels,
      )

      first : take n levels ≡ take n levels'
      first =
          sym (take-take_le n count levels (omega (arith, hot.count_eq)))
          ∙ sym (take-take_le n 5 (take count levels) (omega (arith, hot.count_eq)))
          ∙ ap (take n) (sym same)
          ∙ take-take_le n 5 (take count' levels') (omega (arith, hot.count_eq))
          ∙ take-take_le n count' levels' (omega (arith, n_eq))

  module _ {before after : D → D → Bool} (line : IsLine before after fx.eq) where
    -- `updateLevels` on one side.
    abbrev pub update_side : D → D → List (PriceLevel D) → ℕ → Affected D
    update_side price quantity levels count =
        if fx.gt quantity (fx.of_int 0)
        then insert_level before fx.eq levels count price quantity
        else remove_level before after levels count price

    pub record Updated (price quantity : D) (levels : List (PriceLevel D)) (count : ℕ)
        (a : Affected D) : Type 0 where
      pub cold : IsCold before a.levels a.count
      pub use_eq : take a.count a.levels ≡ apply_side before price quantity (take count levels)
      pub kept :
          (k : ℕ)
          → Beyond k a.position
          → take k (take a.count a.levels) ≡ take k (take count levels)

    -- It refines the ladder's step.
    pub update_side-Updated :
        (price quantity : D) (levels : List (PriceLevel D)) (count : ℕ)
        → IsCold before levels count
        → Updated price quantity levels count (update_side price quantity levels count)
    update_side-Updated price quantity levels count cold =
        elim (Bool-cases (fx.gt quantity (fx.of_int 0))) [
          | inl more ↦ rw more (inserted more)
          | inr less ↦ rw less (removed less)
        ]
      where
        inserted :
            fx.gt quantity (fx.of_int 0) ≡ true
            → Updated price quantity levels count
                (insert_level before fx.eq levels count price quantity)
        inserted more = record {
          cold = record {
            side = refines.is_side;
            positive = rw refines.use_eq (
                All-take IsPositive 20 _
                  (assign-IsPositive before price quantity (take count levels) more cold.positive));
          };
          use_eq = rw more refines.use_eq;
          kept = refines.kept;
        }
          where
            refines :
                Refines before
                  (take count levels)
                  (assign before price quantity (take count levels))
                  (insert_level before fx.eq levels count price quantity)
            refines = insert_level-Refines line levels count price quantity cold.side

        removed :
            fx.gt quantity (fx.of_int 0) ≡ false
            → Updated price quantity levels count (remove_level before after levels count price)
        removed less = record {
          cold = record {
            side = refines.is_side;
            positive = rw refines.use_eq (
                All-take IsPositive 20 _
                  (erase-IsPositive before price (take count levels) cold.positive));
          };
          use_eq = rw less refines.use_eq;
          kept = refines.kept;
        }
          where
            refines :
                Refines before
                  (take count levels)
                  (erase before price (take count levels))
                  (remove_level before after levels count price)
            refines = remove_level-Refines line levels count price cold.side
