-- ===== src/Base/Maps.antt =====
-- `std::unordered_map` with numbers as keys: an association list in the order of iteration.
use Prim.Native.Nat.{ℕ}
use mathlib.Core.Bool.{Bool, false, ◌||◌}
use libchronos.Base.Lists.{length}
use mathlib.Core.Path.{◌≡◌, refl}
use mathlib.Core.Option.{Option, none, some}
use mathlib.Core.List.{List, [], ◌∷◌}
use native.Mathlib.Omega.{arith}
use libchronos.Base.Tests.{◌==◌, if◌then◌else◌}

-- `m.find(k)`, `m[k] = a`, `m.erase(k)`
module _ {ℓ} {A : Type ℓ} where
  unfoldable pub lookup : ℕ → List (ℕ × A) → Option A
  lookup k [] = none
  lookup k ((j, a) ∷ m) = if j == k then some a else lookup k m

  unfoldable pub put : ℕ → A → List (ℕ × A) → List (ℕ × A)
  put k a [] = (k, a) ∷ []
  put k a ((j, b) ∷ m) = let rest = put k a m in if j == k then (k, a) ∷ m else (j, b) ∷ rest

  unfoldable pub remove : ℕ → List (ℕ × A) → List (ℕ × A)
  remove k [] = []
  remove k ((j, b) ∷ m) = let rest = remove k m in if j == k then rest else (j, b) ∷ rest

  pub lookup-put :
      (k j : ℕ) (a : A) (m : List (ℕ × A))
      → lookup j (put k a m) ≡ (if k == j then some a else lookup j m)
  unfolding lookup put
  lookup-put k j a [] = refl
  lookup-put k j a ((i, b) ∷ m) = ground (arith, lookup-put k j a m)

  pub lookup-remove :
      (k j : ℕ) (m : List (ℕ × A)) → lookup j (remove k m) ≡ (if k == j then none else lookup j m)
  unfolding lookup remove
  lookup-remove k j [] = ground arith
  lookup-remove k j ((i, b) ∷ m) = ground (arith, lookup-remove k j m)

  abbrev pub is_key : ℕ → List (ℕ × A) → Bool
  is_key k [] = false
  is_key k ((id, a) ∷ m) = (id == k) || is_key k m

  pub lookup-is_key : (k : ℕ) (m : List (ℕ × A)) → is_key k m ≡ false → lookup k m ≡ none
  unfolding lookup
  lookup-is_key k [] h = refl
  lookup-is_key k ((id, a) ∷ m) h = ground (arith, lookup-is_key k m)

  pub empty_of_lookup : (m : List (ℕ × A)) → ((k : ℕ) → lookup k m ≡ none) → length m ≡ 0
  unfolding lookup
  empty_of_lookup [] h = refl
  empty_of_lookup ((id, a) ∷ m) h = ground (arith, h id)
