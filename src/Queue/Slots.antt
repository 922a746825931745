-- ===== src/Queue/Slots.antt =====
-- Tickets that share a slot, and the signed difference of tickets below 2 ^ 63.
use native.Mathlib.Nat.{mod-lt, mod-eq_of_lt, mod-add-mod, add-mod_right}
use libchronos.Base.{
  dec_lt, ◌⊎◌, ℕ, ◌+◌, ◌-◌, ◌%◌, ◌^◌, ◌≤◌, ◌<◌, ◌≡◌, sym, ap, ◌∙◌, ltb, ◌==◌, arith,
}
use libchronos.Base.Int.{pos, -ℤ_parts}
use libchronos.Queue.{to_int64, diff, is_zero, is_negative}

pub slot-add : (n p : ℕ) → (p + n) % n ≡ p % n
slot-add n p = add-mod_right p n

wrap_once : (n r d : ℕ) → r < n → d < n → (r + d) % n ≡ r → d ≡ 0
wrap_once n r d hr hd e = elim (dec_lt (r + d) n) [
  | yes lt ↦ omega (arith, mod-eq_of_lt lt, e)
  | no ge ↦
      let back : (k : ℕ) × (r + d ≡ k + n) × (k < n) × (k < r ⊎ (d ≡ 0)) =
        (r + d - n, omega arith, omega arith, ground arith) in
      absurd (ground (arith, add-mod_right back.0 n, mod-eq_of_lt back.2, e, back.1, back.3))
]

-- Tickets less than `n` apart have different slots.
pub slot-inj : (n p q : ℕ) → p ≤ q → q < p + n → p % n ≡ q % n → p ≡ q
slot-inj n p q le lt e = omega (
  arith,
  wrap_once n (p % n) (q - p) (mod-lt p (omega arith)) (omega arith)
      (mod-add-mod p n (q - p) ∙ ap (λ k. k % n) (omega arith) ∙ sym e),
)

pub is_zero-diff : (a b : ℕ) → a < 2 ^ 63 → b < 2 ^ 63 → is_zero (diff a b) ≡ (a == b)
unfolding diff to_int64
is_zero-diff a b ha hb = ground (arith, -ℤ_parts (pos a) (pos b))

pub is_negative-diff : (a b : ℕ) → a < 2 ^ 63 → b < 2 ^ 63 → is_negative (diff a b) ≡ ltb a b
unfolding diff to_int64
is_negative-diff a b ha hb = ground (arith, -ℤ_parts (pos a) (pos b))
