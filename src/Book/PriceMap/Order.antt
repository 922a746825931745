-- ===== src/Book/PriceMap/Order.antt =====
-- `assign` and `erase` keep the entries sorted.
use libchronos.Base.{
  ◌<◌, length, get_or, Bool, true, List, [], ◌∷◌, ◌≡◌, All, arith, take, ℕ, zero, suc, All-take,
}
use libchronos.Types.{PriceLevel}
use libchronos.Decimal.{IsLine}
use libchronos.Book.PriceMap.{assign, erase, IsSorted}

module _ {D : Type 0} {before after same : D → D → Bool} (line : IsLine before after same) where
  open line use {before_trans, before_connex}

  Below : D → PriceLevel D → Type 0
  Below a y = before a y.price ≡ true

  All-Below-mono :
      (a b : D) (xs : List (PriceLevel D))
      → before a b ≡ true
      → All (λ y. before b y.price ≡ true) xs
      → All (λ y. before a y.price ≡ true) xs
  All-Below-mono a b [] h all = tt
  All-Below-mono a b (x ∷ xs) h all =
      (before_trans a b x.price h all.0, All-Below-mono a b xs h all.1)

  All-Below-assign :
      (a p q : D) (xs : List (PriceLevel D))
      → before a p ≡ true
      → All (λ y. before a y.price ≡ true) xs
      → All (λ y. before a y.price ≡ true) (assign before p q xs)
  unfolding assign
  All-Below-assign a p q [] h all = (h, tt)
  All-Below-assign a p q (x ∷ xs) h all = ground (arith, All-Below-assign a p q xs h all.1)

  All-Below-erase :
      (a p : D) (xs : List (PriceLevel D))
      → All (λ y. before a y.price ≡ true) xs
      → All (λ y. before a y.price ≡ true) (erase before p xs)
  unfolding erase
  All-Below-erase a p [] all = tt
  All-Below-erase a p (x ∷ xs) all = ground (arith, All-Below-erase a p xs all.1)

  pub assign-IsSorted :
      (p q : D) (xs : List (PriceLevel D))
      → IsSorted before xs
      → IsSorted before (assign before p q xs)
  unfolding assign
  assign-IsSorted p q [] s = (tt, tt)
  assign-IsSorted p q (x ∷ xs) s = ground (
    arith,
    assign-IsSorted p q xs s.1,
    All-Below-assign x.price p q xs,
    All-Below-mono p x.price xs,
  )

  pub erase-IsSorted :
      (p : D) (xs : List (PriceLevel D)) → IsSorted before xs → IsSorted before (erase before p xs)
  unfolding erase
  erase-IsSorted p [] s = tt
  erase-IsSorted p (x ∷ xs) s =
      ground (arith, erase-IsSorted p xs s.1, All-Below-erase x.price p xs s.0)

pub take-IsSorted :
    {D : Type 0} (before : D → D → Bool) (n : ℕ) (xs : List (PriceLevel D))
    → IsSorted before xs
    → IsSorted before (take n xs)
take-IsSorted before zero xs s = tt
take-IsSorted before (suc n) [] s = tt
take-IsSorted before (suc n) (x ∷ xs) s =
    (All-take (λ y. before x.price y.price ≡ true) n xs s.0, take-IsSorted before n xs s.1)

All-get :
    {D : Type 0} (before : D → D → Bool) (a : D) (xs : List (PriceLevel D)) (d : PriceLevel D)
    (i : ℕ)
    → All (λ y. before a y.price ≡ true) xs
    → i < length xs
    → before a (get_or xs i d).price ≡ true
All-get before a [] d i all lt = absurd (omega arith)
All-get before a (x ∷ xs) d zero all lt = all.0
All-get before a (x ∷ xs) d (suc i) all lt = All-get before a xs d i all.1 (omega arith)

pub IsSorted-get :
    {D : Type 0} (before : D → D → Bool) (xs : List (PriceLevel D)) (d : PriceLevel D) (i j : ℕ)
    → IsSorted before xs
    → i < j
    → j < length xs
    → before (get_or xs i d).price (get_or xs j d).price ≡ true
IsSorted-get before [] d i j s lt h = absurd (omega arith)
IsSorted-get before (x ∷ xs) d i zero s lt h = absurd (omega arith)
IsSorted-get before (x ∷ xs) d zero (suc j) s lt h = All-get before x.price xs d j s.0 (omega arith)
IsSorted-get before (x ∷ xs) d (suc i) (suc j) s lt h =
    IsSorted-get before xs d i j s.1 (omega arith) (omega arith)
