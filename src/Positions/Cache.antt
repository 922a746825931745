-- ===== src/Positions/Cache.antt =====
-- `recalcTotalValue`: the cached total of the open positions at their average prices.
use libchronos.Base.{
  ℕ, ◌≡◌, ◌≤◌, ◌^◌, ◌-◌, ◌+◌, refl, ap, ◌∙◌, List, [], ◌∷◌, if◌then◌else◌, arith, min, inl, inr,
  Bool-cases,
}
use libchronos.Base.Int.{
  ℤ, pos, pos_part, neg_part, ◌+ℤ◌, ltb_ℤ, IsInt64, +ℤ_parts, -ℤ_parts, one_part,
}
use libchronos.Decimal.{Fixed}
use libchronos.Types.{Position, Fill}
use libchronos.Positions.{
  Positions, PositionManager, nought, abs, update_position, recalc_total_value, sum_values,
  saturating_add, int64_high, int64_low, get_total_value_cached,
}
use libchronos.Positions.Ledger.{update_all}  -- The nearest `int64_t`.

abbrev pub clamp : ℤ → ℤ
clamp a = if ltb_ℤ int64_high a then int64_high else if ltb_ℤ a int64_low then int64_low else a

-- The saturating addition of two int64 values is the exact sum, clamped.
pub saturating_add_lem : (a b : ℤ) → IsInt64 a → IsInt64 b → saturating_add a b ≡ clamp (a +ℤ b)
unfolding saturating_add
saturating_add_lem a b ha hb = ground (
  arith,
  +ℤ_parts a b,
  -ℤ_parts int64_high b,
  -ℤ_parts int64_low b,
  one_part a,
  one_part b,
  one_part (a +ℤ b),
)

saturating_add-min :
    (n : ℕ) (v : ℤ)
    → n ≤ 2 ^ 63 - 1
    → pos_part v ≤ 2 ^ 63 - 1
    → neg_part v ≡ 0
    → saturating_add (pos n) v ≡ pos (min (n + pos_part v) (2 ^ 63 - 1))
saturating_add-min n v hn hv above =
    ground (arith, saturating_add_lem (pos n) v, +ℤ_parts (pos n) v, one_part (pos n +ℤ v))

module _ {D : Type 0} ⦃fx : Fixed D⦄ where
  abbrev value_of : Position D → ℤ
  value_of p = fx.raw_value (fx.mul (abs p.quantity) p.average_price)

  -- Values are raw values and not negative.
  unfoldable pub IsPriced : Positions D → Type 0
  IsPriced [] = Unit
  IsPriced ((id, p) ∷ ps) =
      (pos_part (value_of p) ≤ 2 ^ 63 - 1) × (neg_part (value_of p) ≡ 0) × IsPriced ps

  -- The exact total of the open positions.
  unfoldable pub exact_total : Positions D → ℕ
  exact_total [] = 0
  exact_total ((id, p) ∷ ps) =
      let rest = exact_total ps in
      if fx.eq p.quantity nought then rest else pos_part (value_of p) + rest

  sum_values-exact :
      (n : ℕ) (ps : Positions D)
      → n ≤ 2 ^ 63 - 1
      → IsPriced ps
      → sum_values (pos n) ps ≡ pos (min (n + exact_total ps) (2 ^ 63 - 1))
  unfolding sum_values IsPriced exact_total
  sum_values-exact n [] h u = ground arith
  sum_values-exact n ((id, p) ∷ ps) h (fits, above, rest) =
      let closed = sum_values-exact n ps h rest in
      let opened =
        sum_values-exact (min (n + pos_part (value_of p)) (2 ^ 63 - 1)) ps (omega arith) rest in
      elim (Bool-cases (fx.eq p.quantity nought)) [
        | inl e ↦ rw e closed
        | inr e ↦
            rw (e, saturating_add-min n (value_of p) h fits above)
              (opened ∙ ap (λ k. pos k) (omega arith))
      ]

  -- The cache is the total of the positions that are there.
  unfoldable pub IsCached : PositionManager D → Type 0
  IsCached m = m.total_value_raw ≡ sum_values (pos 0) m.positions

  update_position-IsCached :
      (m : PositionManager D) (fill : Fill D) → IsCached m → IsCached (update_position m fill).1
  unfolding update_position IsCached recalc_total_value
  update_position-IsCached m fill h = elim (Bool-cases (fx.eq fill.fill_quantity nought)) [
    | inl e ↦ rw e h
    | inr e ↦ rw e refl
  ]

  update_all-IsCached :
      (m : PositionManager D) (fills : List (Fill D)) → IsCached m → IsCached (update_all m fills)
  unfolding update_all
  update_all-IsCached m [] h = h
  update_all-IsCached m (fill ∷ fills) h =
      update_all-IsCached (update_position m fill).1 fills (update_position-IsCached m fill h)

  -- After any fills the cached total is the exact total of the open positions at their average
  -- prices, or INT64_MAX where that is less, provided that the cache was right before them and that
  -- the value of each position in the end is the raw value of a Decimal and not negative.
  pub cached_total-exact :
      (m : PositionManager D) (fills : List (Fill D))
      → IsCached m
      → IsPriced (update_all m fills).positions
      → get_total_value_cached (update_all m fills)
        ≡ fx.from_raw_value (pos (min (exact_total (update_all m fills).positions) (2 ^ 63 - 1)))
  unfolding get_total_value_cached IsCached
  cached_total-exact m fills h priced =
      ap fx.from_raw_value (update_all-IsCached m fills h ∙ total ∙ ap (λ n. pos n) (omega arith))
    where
      total :
          sum_values (pos 0) (update_all m fills).positions
          ≡ pos (min (0 + exact_total (update_all m fills).positions) (2 ^ 63 - 1))
      total = sum_values-exact 0 (update_all m fills).positions (omega arith) priced
