-- ===== src/Book/Levels/Shift.antt =====
-- The two loops that move levels: they open a place, and close one.
use libchronos.Base.{
  lt→ltb, ℕ, zero, suc, ◌+◌, ◌≤◌, ◌<◌, ◌≡◌, refl, ap, sym, ◌∙◌, List, [], ◌∷◌, ◌++◌, length, get_or,
  set, take, drop, arith, length-take, length-set, lt→ltb,
}
use libchronos.Book.PriceMap.Rank.{insert_at, remove_at}
use libchronos.Book.Levels.{shift_up, shift_down}

module _ {ℓ} {A : Type ℓ} where
  take-append_length : (n : ℕ) (xs ys : List A) → length xs ≡ n → take n (xs ++ ys) ≡ xs
  take-append_length zero [] ys h = refl
  take-append_length zero (x ∷ xs) ys h = absurd (omega arith)
  take-append_length (suc n) [] ys h = absurd (omega arith)
  take-append_length (suc n) (x ∷ xs) ys h = ap (◌∷◌ x) (take-append_length n xs ys (omega arith))

  pub take-set_le : (n j : ℕ) (xs : List A) (v : A) → n ≤ j → take n (set xs j v) ≡ take n xs
  take-set_le zero j xs v h = refl
  take-set_le (suc n) j [] v h = refl
  take-set_le (suc n) zero (x ∷ xs) v h = absurd (omega arith)
  take-set_le (suc n) (suc j) (x ∷ xs) v h = ap (◌∷◌ x) (take-set_le n j xs v (omega arith))

  pub take-set_lt :
      (n j : ℕ) (xs : List A) (v : A) → j < n → take n (set xs j v) ≡ set (take n xs) j v
  take-set_lt zero j xs v h = absurd (omega arith)
  take-set_lt (suc n) j [] v h = refl
  take-set_lt (suc n) zero (x ∷ xs) v h = refl
  take-set_lt (suc n) (suc j) (x ∷ xs) v h = ap (◌∷◌ x) (take-set_lt n j xs v (omega arith))

  drop-set_self :
      (j : ℕ) (xs : List A) (v : A) → j < length xs → drop j (set xs j v) ≡ v ∷ drop (suc j) xs
  drop-set_self j [] v h = absurd (omega arith)
  drop-set_self zero (x ∷ xs) v h = refl
  drop-set_self (suc j) (x ∷ xs) v h = drop-set_self j xs v (omega arith)

  take-suc_append :
      (j : ℕ) (xs ys : List A) (d : A)
      → j < length xs
      → take (suc j) xs ++ ys ≡ take j xs ++ (get_or xs j d ∷ ys)
  take-suc_append j [] ys d h = absurd (omega arith)
  take-suc_append zero (x ∷ xs) ys d h = refl
  take-suc_append (suc j) (x ∷ xs) ys d h = ap (◌∷◌ x) (take-suc_append j xs ys d (omega arith))

  shift_up_first :
      (d v y : A) (ys : List A) (i : ℕ)
      → i < length (y ∷ ys)
      → set (shift_up d (y ∷ ys) 0 i) 0 v ≡ v ∷ (take i (y ∷ ys) ++ drop i ys)
  unfolding shift_up
  shift_up_first d v y ys zero h = refl
  shift_up_first d v y ys (suc j) h = rw (lt→ltb 0 (suc j) (omega arith)) (
      shift_up_first d v y (set ys j c) j (omega (arith, length-set ys j c))
      ∙ ap (λ t. v ∷ t) (regroup j (omega arith)))
    where
      c : A
      c = get_or (y ∷ ys) j d

      regroup :
          (j : ℕ)
          → j < length ys
          → take j (y ∷ set ys j (get_or (y ∷ ys) j d)) ++ drop j (set ys j (get_or (y ∷ ys) j d))
            ≡ take (suc j) (y ∷ ys) ++ drop (suc j) ys
      regroup zero lt = drop-set_self 0 ys y lt
      regroup (suc k) lt =
          rw
            (
              take-set_le k (suc k) ys (get_or ys k d) (omega arith),
              drop-set_self (suc k) ys (get_or ys k d) lt,
            )
            (ap (◌∷◌ y) (sym (take-suc_append k ys (drop (suc (suc k)) ys) d (omega arith))))

  shift_up-cons :
      (d y : A) (ys : List A) (p i : ℕ)
      → shift_up d (y ∷ ys) (suc p) (suc i) ≡ y ∷ shift_up d ys p i
  unfolding shift_up
  shift_up-cons d y ys p zero = ground arith
  shift_up-cons d y ys p (suc i) =
      ground (arith, shift_up-cons d y (set ys (suc i) (get_or ys i d)) p i)

  -- The shift and the write that follows it insert at `p`, among the levels in use.
  pub shift_up_insert :
      (d v : A) (xs : List A) (p c : ℕ)
      → p ≤ c
      → c < length xs
      → take (suc c) (set (shift_up d xs p c) p v) ≡ insert_at p v (take c xs)
  shift_up_insert d v [] p c h lt = absurd (omega arith)
  shift_up_insert d v (y ∷ ys) zero c h lt = rw (shift_up_first d v y ys c lt) (
      ap (◌∷◌ v) (
        take-append_length c (take c (y ∷ ys)) (drop c ys) (omega (arith, length-take c (y ∷ ys)))))
  shift_up_insert d v (y ∷ ys) (suc p) zero h lt = absurd (omega arith)
  shift_up_insert d v (y ∷ ys) (suc p) (suc c) h lt =
      rw (shift_up-cons d y ys p c)
        (ap (◌∷◌ y) (shift_up_insert d v ys p c (omega arith) (omega arith)))

  pub length-shift_up : (d : A) (xs : List A) (p i : ℕ) → length (shift_up d xs p i) ≡ length xs
  unfolding shift_up
  length-shift_up d xs p zero = refl
  length-shift_up d xs p (suc i) = ground (
    arith,
    length-shift_up d (set xs (suc i) (get_or xs i d)) p i,
    length-set xs (suc i) (get_or xs i d),
  )

  shift_down-cons :
      (d y : A) (ys : List A) (j k : ℕ) → shift_down d (y ∷ ys) (suc j) k ≡ y ∷ shift_down d ys j k
  unfolding shift_down
  shift_down-cons d y ys j zero = refl
  shift_down-cons d y ys j (suc k) = shift_down-cons d y (set ys j (get_or ys (suc j) d)) (suc j) k

  shift_down_first :
      (d y : A) (ys : List A) (k : ℕ)
      → k ≤ length ys
      → take k (shift_down d (y ∷ ys) 0 k) ≡ take k ys
  unfolding shift_down
  shift_down_first d y ys zero h = refl
  shift_down_first d y [] (suc k) h = absurd (omega arith)
  shift_down_first d y (z ∷ zs) (suc k) h =
      rw (shift_down-cons d z (z ∷ zs) 0 k) (ap (◌∷◌ z) (shift_down_first d z zs k (omega arith)))

  -- The loop of the removal takes out the level at `j`, among the levels in use.
  pub shift_down_remove :
      (d : A) (xs : List A) (j k : ℕ)
      → suc (j + k) ≤ length xs
      → take (j + k) (shift_down d xs j k) ≡ remove_at j (take (suc (j + k)) xs)
  shift_down_remove d [] j k h = absurd (omega arith)
  shift_down_remove d (y ∷ ys) zero k h =
      let e : 0 + k ≡ k = omega arith in rw e (shift_down_first d y ys k (omega arith))
  shift_down_remove d (y ∷ ys) (suc j) k h =
      let e : suc j + k ≡ suc (j + k) = omega arith in
      rw (e, shift_down-cons d y ys j k) (ap (◌∷◌ y) (shift_down_remove d ys j k (omega arith)))

  pub length-shift_down : (d : A) (xs : List A) (j k : ℕ) → length (shift_down d xs j k) ≡ length xs
  unfolding shift_down
  length-shift_down d xs j zero = refl
  length-shift_down d xs j (suc k) =
      length-shift_down d (set xs j (get_or xs (suc j) d)) (suc j) k
      ∙ length-set xs j (get_or xs (suc j) d)
