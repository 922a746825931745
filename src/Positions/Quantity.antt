-- ===== src/Positions/Quantity.antt =====
-- Quantities.
use libchronos.Base.{◌≡◌, ◌≤◌, ◌⊎◌, ◌^◌, ◌-◌, ◌+◌, false, if◌then◌else◌, arith}
use libchronos.Base.Int.{
  pos, negsuc, pos_part, neg_part, ◌+ℤ◌, ◌-ℤ◌, -ℤ◌, ltb_ℤ, IsInt64, +ℤ_parts, -ℤ_parts, neg_parts,
  eq_of_parts, one_part,
}
use libchronos.Decimal.{Fixed, IsFixed}
use libchronos.Types.{Position, Fill}
use libchronos.Positions.{nought, abs, sign_of, signed_quantity, apply_fill, increase, reduce, flip}

module _ {D : Type 0} ⦃fx : Fixed D⦄ (laws : IsFixed D) where
  open laws use {raw-zero, lt_raw, gt_raw, le_raw, eq_raw, raw-add, raw-sub, raw-neg}

  -- The magnitude fits, so that it can be negated.
  abbrev pub IsSmall : D → Type 0
  IsSmall a = (pos_part (fx.raw_value a) ≤ 2 ^ 63 - 1) × (neg_part (fx.raw_value a) ≤ 2 ^ 63 - 1)

  pub raw-neg_small : (a : D) → IsSmall a → fx.raw_value (fx.neg a) ≡ -ℤ◌ (fx.raw_value a)
  raw-neg_small a h = raw-neg a (omega (arith, neg_parts (fx.raw_value a)))

  raw-abs :
      (a : D)
      → IsSmall a
      → (pos_part (fx.raw_value (abs a)) ≡ pos_part (fx.raw_value a) + neg_part (fx.raw_value a))
        × (neg_part (fx.raw_value (abs a)) ≡ 0)
  raw-abs a h =
      ground (arith, lt_raw a nought, raw-zero, raw-neg_small a h, neg_parts (fx.raw_value a))

  raw-signed_quantity :
      (fill : Fill D) → IsSmall fill.fill_quantity → IsSmall (signed_quantity fill)
  raw-signed_quantity fill h =
      ground
        (arith, raw-neg_small fill.fill_quantity h, neg_parts (fx.raw_value fill.fill_quantity))

  sign_of-pos : (v : D) → sign_of v ≡ pos 1 → neg_part (fx.raw_value v) ≡ 0
  unfolding sign_of
  sign_of-pos v e = ground (arith, gt_raw v nought, lt_raw v nought, raw-zero, e)

  sign_of-cases :
      (v : D)
      → ((sign_of v ≡ pos 1) × (neg_part (fx.raw_value v) + 1 ≤ pos_part (fx.raw_value v)))
        ⊎ ((sign_of v ≡ negsuc 0) × (pos_part (fx.raw_value v) + 1 ≤ neg_part (fx.raw_value v)))
        ⊎ ((sign_of v ≡ pos 0) × (pos_part (fx.raw_value v) ≡ neg_part (fx.raw_value v)))
  unfolding sign_of
  sign_of-cases v = ground (arith, lt_raw v nought, gt_raw v nought, raw-zero)

  -- What the fill leaves over once it has closed the position.
  raw-remaining :
      (q s : D)
      → IsSmall q
      → IsSmall s
      → fx.le (abs s) (abs q) ≡ false
      → IsSmall (fx.sub (abs s) (abs q))
        × (fx.raw_value (fx.sub (abs s) (abs q)) ≡ fx.raw_value (abs s) -ℤ fx.raw_value (abs q))
  raw-remaining q s hq hs g = (small, value)
    where
      differ : IsInt64 (fx.raw_value (abs s) -ℤ fx.raw_value (abs q))
      differ = ground (
        arith,
        raw-abs q hq,
        raw-abs s hs,
        -ℤ_parts (fx.raw_value (abs s)) (fx.raw_value (abs q)),
        one_part (fx.raw_value (abs s) -ℤ fx.raw_value (abs q)),
        one_part (fx.raw_value q),
        one_part (fx.raw_value s),
      )

      value : fx.raw_value (fx.sub (abs s) (abs q)) ≡ fx.raw_value (abs s) -ℤ fx.raw_value (abs q)
      value = raw-sub (abs s) (abs q) differ

      small : IsSmall (fx.sub (abs s) (abs q))
      small = ground (
        arith,
        value,
        raw-abs q hq,
        raw-abs s hs,
        -ℤ_parts (fx.raw_value (abs s)) (fx.raw_value (abs q)),
        one_part (fx.raw_value (abs s) -ℤ fx.raw_value (abs q)),
        one_part (fx.raw_value q),
        one_part (fx.raw_value s),
        le_raw (abs s) (abs q),
        g,
      )

  flip-raw :
      (q s : D)
      → IsSmall q
      → IsSmall s
      → ¬ (sign_of q ≡ sign_of s)
      → ¬ (sign_of q ≡ pos 0)
      → fx.le (abs s) (abs q) ≡ false
      → fx.raw_value (
          if ltb_ℤ (pos 0) (sign_of s)
          then fx.sub (abs s) (abs q)
          else fx.neg (fx.sub (abs s) (abs q)))
        ≡ fx.raw_value q +ℤ fx.raw_value s
  flip-raw q s hq hs ne nz g = ground (
    arith,
    eq_of_parts
        (fx.raw_value (
          if ltb_ℤ (pos 0) (sign_of s)
          then fx.sub (abs s) (abs q)
          else fx.neg (fx.sub (abs s) (abs q))))
        (fx.raw_value q +ℤ fx.raw_value s),
    raw-remaining q s hq hs g,
    raw-neg_small (fx.sub (abs s) (abs q)),
    neg_parts (fx.raw_value (fx.sub (abs s) (abs q))),
    -ℤ_parts (fx.raw_value (abs s)) (fx.raw_value (abs q)),
    +ℤ_parts (fx.raw_value q) (fx.raw_value s),
    raw-abs q hq,
    raw-abs s hs,
    sign_of-cases q,
    sign_of-cases s,
    one_part (fx.raw_value q),
    one_part (fx.raw_value s),
    le_raw (abs s) (abs q),
    g,
  )

  pub apply_fill-raw :
      (p : Position D) (fill : Fill D)
      → IsSmall p.quantity
      → IsSmall fill.fill_quantity
      → IsInt64 (fx.raw_value p.quantity +ℤ fx.raw_value (signed_quantity fill))
      → fx.raw_value (apply_fill p fill).quantity
        ≡ fx.raw_value p.quantity +ℤ fx.raw_value (signed_quantity fill)
  unfolding apply_fill increase reduce flip
  apply_fill-raw p fill hp hf fits = ground (
    arith,
    flip-raw p.quantity (signed_quantity fill) hp (raw-signed_quantity fill hf),
    raw-add p.quantity (signed_quantity fill) fits,
    eq_of_parts (fx.raw_value (signed_quantity fill))
        (fx.raw_value p.quantity +ℤ fx.raw_value (signed_quantity fill)),
    +ℤ_parts (fx.raw_value p.quantity) (fx.raw_value (signed_quantity fill)),
    sign_of-cases p.quantity,
  )
