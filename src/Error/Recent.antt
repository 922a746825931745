-- ===== src/Error/Recent.antt =====
-- `getRecentErrors`, where nothing of the history has been overwritten.
use native.Mathlib.Nat.{mod-eq_of_lt, add-mod_right}
use mathlib.Core.List.{reverse, reverse-cons}
use libchronos.Base.{
  ℕ, zero, suc, ◌+◌, ◌-◌, ◌%◌, ◌≤◌, ◌<◌, ◌≡◌, refl, sym, ap, ap₂, ◌∙◌, some, List, [], ◌∷◌, ◌++◌,
  length, length-append, get_elem?, get_or, take, drop, drop-eq-cons, take-nil, min, arith,
  take-take, take_all, ◌⊎◌, inl, inr,
}
use libchronos.Error.{Error, ErrorHandler, read_back, get_recent_errors}

module _ {A : Type 0} where
  -- The library's, over the native numbers.
  length-reverse' : (xs : List A) → length (reverse xs) ≡ length xs
  length-reverse' [] = refl
  length-reverse' (x ∷ xs) =
      ap length (reverse-cons x xs)
      ∙ length-append (reverse xs) (x ∷ [])
      ∙ omega (arith, length-reverse' xs)

  get_or-append_left :
      (xs ys : List A) (i : ℕ) (d : A) → i < length xs → get_or (xs ++ ys) i d ≡ get_or xs i d
  get_or-append_left [] ys i d h = absurd (omega arith)
  get_or-append_left (x ∷ xs) ys zero d h = refl
  get_or-append_left (x ∷ xs) ys (suc i) d h = get_or-append_left xs ys i d (omega arith)

  get_or-append_end : (xs : List A) (x d : A) → get_or (xs ++ (x ∷ [])) (length xs) d ≡ x
  get_or-append_end [] x d = refl
  get_or-append_end (y ∷ xs) x d = get_or-append_end xs x d

  -- Read from its end, a list is its reverse.
  get_elem?-back :
      (xs : List A) (i : ℕ) (d : A)
      → i < length xs
      → get_elem? xs (length xs - 1 - i) ≡ some (get_or (reverse xs) i d)
  get_elem?-back [] i d h = absurd (omega arith)
  get_elem?-back (x ∷ xs) i d h = elim (ℕ-split i (length xs) (omega arith)) [
    | inl lt ↦
        ap (get_elem? (x ∷ xs)) {x = suc (length xs) - 1 - i} {y = suc (length xs - 1 - i)}
          (omega arith)
        ∙ get_elem?-back xs i d lt
        ∙ ap some (
            sym (get_or-append_left (reverse xs) (x ∷ []) i d (omega (arith, length-reverse' xs)))
            ∙ ap (λ l. get_or l i d) (sym (reverse-cons x xs)))
    | inr e ↦
        ap (get_elem? (x ∷ xs)) {x = suc (length xs) - 1 - i} {y = zero} (omega arith)
        ∙ ap some (
            sym (get_or-append_end (reverse xs) x d)
            ∙ ap₂ (λ l j. get_or l j d) (sym (reverse-cons x xs))
                (omega (arith, length-reverse' xs)))
  ]
    where
      ℕ-split : (i n : ℕ) → i < suc n → (i < n) ⊎ (i ≡ n)
      ℕ-split i n h = ground arith

  take-min : (n : ℕ) (xs : List A) → take (min n (length xs)) xs ≡ take n xs
  take-min n xs =
      sym (take-take n (length xs) xs) ∙ ap (take n) (take_all (length xs) xs (omega arith))

module _ {Text C : Type 0} where
  -- The next error goes behind the last, as long as nothing has been cut off.
  pub record IsAppending (h : ErrorHandler Text C) : Type 0 where
    pub at_end : h.history_write_index ≡ length h.error_history
    pub fits : length h.error_history ≤ h.max_history_size

  back-drop :
      (h : ErrorHandler Text C) (i n : ℕ) (d : Error Text)
      → IsAppending h
      → i + n ≤ length h.error_history
      → read_back h i n ≡ take n (drop i (reverse h.error_history))
  unfolding read_back
  back-drop h i zero d v le = refl
  back-drop h i (suc n) d v le =
      rw (at_index, read_back, get_elem?-back h.error_history i d (omega arith))
        (ap (λ l. get_or (reverse h.error_history) i d ∷ l)
            (back-drop h (suc i) n d v (omega arith))
          ∙ ap (take (suc n)) (
              sym (
                drop-eq-cons i (reverse h.error_history) d
                  (omega (arith, length-reverse' h.error_history)))))
    where
      at_index :
          (h.history_write_index + length h.error_history - 1 - i) % length h.error_history
          ≡ length h.error_history - 1 - i
      at_index =
          ap (λ k. k % length h.error_history) (omega (arith, v.at_end))
          ∙ add-mod_right (length h.error_history - 1 - i) (length h.error_history)
          ∙ mod-eq_of_lt (omega arith)

  pub recent-take :
      (h : ErrorHandler Text C) (max_count : ℕ)
      → IsAppending h
      → get_recent_errors h max_count ≡ take max_count (reverse h.error_history)
  unfolding get_recent_errors read_back
  recent-take h max_count v = go h.error_history refl
    where
      some_kept :
          (d : Error Text)
          → get_recent_errors h max_count ≡ take max_count (reverse h.error_history)
      some_kept d =
          back-drop h 0 (min max_count (length h.error_history)) d v (omega arith)
          ∙ ap (λ n. take (min max_count n) (reverse h.error_history))
              (sym (length-reverse' h.error_history))
          ∙ take-min max_count (reverse h.error_history)

      none_kept :
          h.error_history ≡ []
          → get_recent_errors h max_count ≡ take max_count (reverse h.error_history)
      none_kept e =
          ap (read_back h 0) {x = min max_count (length h.error_history)} {y = 0}
            (omega (arith, ap length e))
          ∙ sym (ap (λ l. take max_count (reverse l)) e ∙ take-nil max_count)

      go :
          (l : List (Error Text))
          → h.error_history ≡ l
          → get_recent_errors h max_count ≡ take max_count (reverse h.error_history)
      go [] e = none_kept e
      go (d ∷ l) e = some_kept d
