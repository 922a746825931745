-- ===== src/Positions/Store.antt =====
-- The laws of the map of positions.
use libchronos.Base.{ℕ, ◌≡◌, refl, [], ◌∷◌, some, if◌then◌else◌, ◌==◌, arith}
use libchronos.Types.{Position}
use libchronos.Positions.{Positions, find, store}

module _ {D : Type 0} where
  pub find-store :
      (k j : ℕ) (p : Position D) (ps : Positions D)
      → find j (store k p ps) ≡ (if k == j then some p else find j ps)
  unfolding find store
  find-store k j p [] = refl
  find-store k j p ((i, q) ∷ ps) = ground (arith, find-store k j p ps)
