-- ===== src/Book/V1/Trim.antt =====
-- The trimming loop of `OrderBook`.
use libchronos.Base.{
  ℕ, zero, suc, ◌-◌, take-take_le, ◌≤◌, ◌≡◌, refl, ap, sym, ◌∙◌, List, [], ◌∷◌, length, take, head?,
  arith, length-take, take_all, dec_le, le→ltb,
}
use libchronos.Book.PriceMap.{drop_last}
use libchronos.Book.V1.{trim}

module _ {ℓ} {A : Type ℓ} where
  drop_last-eq-take : (n : ℕ) (xs : List A) → length xs ≡ suc n → drop_last xs ≡ take n xs
  unfolding drop_last
  drop_last-eq-take n [] h = absurd (omega arith)
  drop_last-eq-take zero (x ∷ []) h = refl
  drop_last-eq-take zero (x ∷ y ∷ ys) h = absurd (omega arith)
  drop_last-eq-take (suc n) (x ∷ []) h = absurd (omega arith)
  drop_last-eq-take (suc n) (x ∷ y ∷ ys) h = ap (◌∷◌ x) (drop_last-eq-take n (y ∷ ys) (omega arith))

  -- The trimming loop ends, and keeps the first twenty entries.
  pub trim-eq-take : (fuel : ℕ) (m : List A) → length m ≤ fuel → trim fuel m ≡ take 20 m
  unfolding trim
  trim-eq-take zero [] h = refl
  trim-eq-take zero (x ∷ xs) h = absurd (omega arith)
  trim-eq-take (suc fuel) m h = elim (dec_le (length m) 20) [
    | yes small ↦ rw (le→ltb 20 (length m) small, trim) (sym (take_all 20 m small))
    | no large ↦
        let shorter = drop_last-eq-take (length m - 1) m (omega arith) in
        ground (
          arith,
          trim-eq-take fuel (drop_last m)
                (omega (arith, ap length shorter, length-take (length m - 1) m))
              ∙ ap (take 20) shorter
              ∙ take-take_le 20 (length m - 1) m (omega arith),
        )
  ]

  pub head?-take : (n : ℕ) (xs : List A) → head? (take (suc n) xs) ≡ head? xs
  head?-take n [] = refl
  head?-take n (x ∷ xs) = refl
