-- ===== src/Error/Ids.antt =====
-- The ids of the callbacks: no two that are registered at the same time share one.
use libchronos.Base.{
  ℕ, ◌+◌, ◌^◌, ◌≤◌, ◌<◌, ◌≡◌, refl, sym, ap, subst, ◌∙◌, Bool, true, false, none, some, List, [],
  ◌∷◌, ◌++◌, length, if◌then◌else◌, ◌==◌, ◌||◌, arith, lookup, put, remove, lookup-put, is_key,
  Option-cases, inl, inr,
}
use libchronos.Error.{
  ErrorHandler, ErrorCategory, category_index, in_category, register_callback, unregister_callback,
  register_category_callback, unregister_category_callback, new,
}

module _ {A : Type 0} where
  pub put-end :
      (k : ℕ) (a : A) (m : List (ℕ × A)) → is_key k m ≡ false → put k a m ≡ m ++ ((k, a) ∷ [])
  unfolding put
  put-end k a [] h = refl
  put-end k a ((j, b) ∷ m) h = ground (arith, put-end k a m)

  remove-absent : (k : ℕ) (m : List (ℕ × A)) → is_key k m ≡ false → remove k m ≡ m
  unfolding remove
  remove-absent k [] h = refl
  remove-absent k ((j, b) ∷ m) h = ground (arith, remove-absent k m)

  pub remove-put :
      (k : ℕ) (a : A) (m : List (ℕ × A)) → is_key k m ≡ false → remove k (put k a m) ≡ m
  unfolding put remove
  remove-put k a [] h = ground arith
  remove-put k a ((j, b) ∷ m) h = ground (arith, remove-put k a m)

  is_key-put :
      (k j : ℕ) (a : A) (m : List (ℕ × A)) → is_key j (put k a m) ≡ ((k == j) || is_key j m)
  unfolding put
  is_key-put k j a [] = ground arith
  is_key-put k j a ((i, b) ∷ m) = ground (arith, is_key-put k j a m)

  is_key-remove : (k j : ℕ) (m : List (ℕ × A)) → is_key j m ≡ false → is_key j (remove k m) ≡ false
  unfolding remove
  is_key-remove k j [] h = refl
  is_key-remove k j ((i, b) ∷ m) h = ground (arith, is_key-remove k j m)

-- What changes the callbacks.
pub data Operation (C : Type 0) : Type 0 where
  register : C → Operation C
  unregister : ℕ → Operation C
  register_in : ErrorCategory → C → Operation C
  unregister_in : ErrorCategory → ℕ → Operation C

module _ {Text C : Type 0} where
  abbrev step : ErrorHandler Text C → Operation C → ErrorHandler Text C
  step h (register c) = (register_callback h c).1
  step h (unregister id) = unregister_callback h id
  step h (register_in cat c) = (register_category_callback h cat c).1
  step h (unregister_in cat id) = unregister_category_callback h cat id

  abbrev pub run : ErrorHandler Text C → List (Operation C) → ErrorHandler Text C
  run h [] = h
  run h (o ∷ os) = run (step h o) os

  -- Ids from `next_callback_id` on are not in use.
  pub record IsFresh (h : ErrorHandler Text C) : Type 0 where
    pub fresh : (k : ℕ) → h.next_callback_id ≤ k → is_key k h.callbacks ≡ false
    pub fresh_in :
        (c : ErrorCategory) (k : ℕ) → h.next_callback_id ≤ k → is_key k (in_category h c) ≡ false

  pub in_category-put :
      (h : ErrorHandler Text C) (c cat : ErrorCategory) (m : List (ℕ × C))
      → in_category
          (record h { category_callbacks = put (category_index c) m h.category_callbacks })
          cat
        ≡ (if category_index c == category_index cat then m else in_category h cat)
  in_category-put h c cat m =
      ground (arith, lookup-put (category_index c) (category_index cat) m h.category_callbacks)

  category-IsFresh :
      (h : ErrorHandler Text C) (c cat : ErrorCategory) (m : List (ℕ × C)) (k : ℕ)
      → is_key k m ≡ false
      → is_key k (in_category h cat) ≡ false
      → is_key k (
          in_category
            (record h { category_callbacks = put (category_index c) m h.category_callbacks })
            cat)
        ≡ false
  category-IsFresh h c cat m k e f =
      ap (is_key k) (in_category-put h c cat m) ∙ split (category_index c == category_index cat)
    where
      split : (b : Bool) → is_key k (if b then m else in_category h cat) ≡ false
      split true = e
      split false = f

  abbrev IsNext : ErrorHandler Text C → ErrorHandler Text C → Type 0
  IsNext h h' = IsFresh h' × (h'.next_callback_id ≤ h.next_callback_id + 1)

  unregister_in-none :
      (h : ErrorHandler Text C) (c : ErrorCategory) (id : ℕ)
      → lookup (category_index c) h.category_callbacks ≡ none
      → unregister_category_callback h c id ≡ h
  unfolding unregister_category_callback
  unregister_in-none h c id e = rw (unregister_category_callback, e) refl

  pub unregister_in-some :
      (h : ErrorHandler Text C) (c : ErrorCategory) (id : ℕ) (m : List (ℕ × C))
      → lookup (category_index c) h.category_callbacks ≡ some m
      → unregister_category_callback h c id ≡ record h {
        category_callbacks = put (category_index c) (remove id m) h.category_callbacks;
      }
  unfolding unregister_category_callback
  unregister_in-some h c id m e = rw (unregister_category_callback, e) refl

  step-IsFresh :
      (h : ErrorHandler Text C) (o : Operation C)
      → IsFresh h
      → h.next_callback_id + 1 < 2 ^ 64
      → IsNext h (step h o)
  unfolding register_callback unregister_callback register_category_callback
      unregister_category_callback
  step-IsFresh h (register c) v small = (
    record {
      fresh = λ k le. ground (arith, is_key-put h.next_callback_id k c h.callbacks, v.fresh k);
      fresh_in = λ cat k le. v.fresh_in cat k (omega arith);
    },
    omega arith,
  )
  step-IsFresh h (unregister id) v small = (
    record {
      fresh = λ k le. is_key-remove id k h.callbacks (v.fresh k le);
      fresh_in = λ cat k le. v.fresh_in cat k le;
    },
    omega arith,
  )
  step-IsFresh h (register_in c a) v small = (
    record {
      fresh = λ k le. v.fresh k (omega arith);
      fresh_in = λ cat k le.
          category-IsFresh h c cat (put h.next_callback_id a (in_category h c)) k
            (ground (arith, is_key-put h.next_callback_id k a (in_category h c), v.fresh_in c k))
            (v.fresh_in cat k (omega arith));
    },
    omega arith,
  )
  step-IsFresh h (unregister_in c id) v small =
      elim (Option-cases (lookup (category_index c) h.category_callbacks)) [
        | inl e ↦ subst (IsNext h) (sym (unregister_in-none h c id e)) (v, omega arith)
        | inr (m, e) ↦ subst (IsNext h) (sym (unregister_in-some h c id m e)) (
          record {
            fresh = λ k le. v.fresh k le;
            fresh_in = λ cat k le.
                category-IsFresh h c cat (remove id m) k
                  (is_key-remove id k m (ground (arith, e, v.fresh_in c k le)))
                  (v.fresh_in cat k le);
          },
          omega arith,
        )
      ]

  pub run-IsFresh :
      (h : ErrorHandler Text C) (os : List (Operation C))
      → IsFresh h
      → h.next_callback_id + length os < 2 ^ 64
      → IsFresh (run h os) × ((run h os).next_callback_id < 2 ^ 64)
  run-IsFresh h [] v small = (v, omega arith)
  run-IsFresh h (o ∷ os) v small =
      let (v', le) = step-IsFresh h o v (omega arith) in run-IsFresh (step h o) os v' (omega arith)

  pub new-IsFresh : IsFresh (new {Text = Text} {C = C})
  unfolding lookup
  new-IsFresh = record { fresh = λ k le. refl; fresh_in = λ c k le. refl }
