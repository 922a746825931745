-- ===== src/Book/PriceMap.antt =====
-- The `std::map` of prices to quantities that `OrderBook` keeps on each side, as the list of its
-- entries in the order of the map's comparator `before`. Two keys are equivalent if neither stands
-- before the other. The operations are those that the order book calls.
pub mod Order
pub mod Rank
use libchronos.Base.{Bool, true, false, List, [], ◌∷◌, ◌≡◌, if◌then◌else◌, All}
use libchronos.Types.{PriceLevel}

module _ {D : Type 0} (before : D → D → Bool) where
  -- `m[price] = quantity`
  unfoldable pub assign : D → D → List (PriceLevel D) → List (PriceLevel D)
  assign p q [] = record { price = p; quantity = q } ∷ []
  assign p q (x ∷ xs) =
      if before x.price p
      then x ∷ assign p q xs
      else if before p x.price
      then record { price = p; quantity = q } ∷ x ∷ xs
      else record x { quantity = q } ∷ xs

  -- `m.erase(m.find(price))`; the map stays as it is where `find` gives `end()`.
  unfoldable pub erase : D → List (PriceLevel D) → List (PriceLevel D)
  erase p [] = []
  erase p (x ∷ xs) =
      if before x.price p then x ∷ erase p xs else if before p x.price then x ∷ xs else xs

  -- `m.find(price) != m.end()`
  unfoldable pub contains : D → List (PriceLevel D) → Bool
  contains p [] = false
  contains p (x ∷ xs) =
      if before x.price p then contains p xs else if before p x.price then false else true

  -- The entries stand in the order of the comparator, without equivalent keys.
  abbrev pub IsSorted : List (PriceLevel D) → Type 0
  IsSorted [] = Unit
  IsSorted (x ∷ xs) = All (λ y. before x.price y.price ≡ true) xs × IsSorted xs

-- `--end()`, `erase`: the last entry goes.
unfoldable pub drop_last {ℓ} : {A : Type ℓ} → List A → List A
drop_last [] = []
drop_last (x ∷ []) = []
drop_last (x ∷ y ∷ ys) = x ∷ drop_last (y ∷ ys)
