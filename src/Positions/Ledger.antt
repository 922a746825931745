-- ===== src/Positions/Ledger.antt =====
-- The abstract view of `PositionManager`: a signed quantity per symbol, to which each fill is
-- posted.
use libchronos.Base.{
  ℕ, fun_ext, subst, ◌≡◌, ◌≤◌, ◌^◌, ◌-◌, refl, sym, ap, ◌∙◌, Option, none, some, List, [], ◌∷◌,
  if◌then◌else◌, ◌==◌, arith,
}
use libchronos.Base.Int.{
  ℤ, pos, pos_part, neg_part, ◌+ℤ◌, -ℤ◌, IsInt64, +ℤ_parts, neg_parts, eq_of_parts,
}
use libchronos.Decimal.{Fixed, IsFixed}
use libchronos.Types.{Position, Fill, OrderSide}
use libchronos.Positions.{
  PositionManager, find, nought, signed_quantity, next_position, update_position,
  recalc_total_value, get_position,
}
use libchronos.Positions.Store.{find-store}
use libchronos.Positions.Quantity.{raw-neg_small, apply_fill-raw}

abbrev pub IsSmallRaw : ℤ → Type 0
IsSmallRaw a = (pos_part a ≤ 2 ^ 63 - 1) × (neg_part a ≤ 2 ^ 63 - 1)

module _ {D : Type 0} ⦃fx : Fixed D⦄ where
  abbrev pub raw_of : Option (Position D) → ℤ
  raw_of none = pos 0
  raw_of (some p) = fx.raw_value p.quantity

  -- The signed raw quantity of a symbol, 0 where there is no position.
  unfoldable pub net : PositionManager D → ℕ → ℤ
  unfolding get_position
  net m k = raw_of (get_position m k)

  -- What a fill adds: buys count up, sells down.
  abbrev pub signed_raw : Fill D → ℤ
  signed_raw fill = elim fill.side [
    | OrderSide.sell ↦ -ℤ◌ (fx.raw_value fill.fill_quantity)
    | _ ↦ fx.raw_value fill.fill_quantity
  ]

  unfoldable pub post : (ℕ → ℤ) → Fill D → ℕ → ℤ
  post ledger fill k = if fill.symbol_id == k then ledger k +ℤ signed_raw fill else ledger k

  unfoldable pub post_all : (ℕ → ℤ) → List (Fill D) → ℕ → ℤ
  unfolding post
  post_all ledger [] k = ledger k
  post_all ledger (fill ∷ fills) k = post_all (post ledger fill) fills k

  -- `updatePosition` on one fill after the other.
  unfoldable pub update_all : PositionManager D → List (Fill D) → PositionManager D
  unfolding update_position
  update_all m [] = m
  update_all m (fill ∷ fills) = update_all (update_position m fill).1 fills

  -- Each quantity and each running sum is the raw value of a Decimal.
  unfoldable pub IsBounded : (ℕ → ℤ) → List (Fill D) → Type 0
  unfolding post
  IsBounded ledger [] = Unit
  IsBounded ledger (fill ∷ fills) =
      IsSmallRaw (fx.raw_value fill.fill_quantity)
      × IsSmallRaw (ledger fill.symbol_id)
      × IsSmallRaw (ledger fill.symbol_id +ℤ signed_raw fill)
      × IsBounded (post ledger fill) fills

module _ {D : Type 0} ⦃fx : Fixed D⦄ (laws : IsFixed D) where
  open laws use {raw-zero, eq_raw}

  pub raw-signed :
      (fill : Fill D)
      → IsSmallRaw (fx.raw_value fill.fill_quantity)
      → fx.raw_value (signed_quantity fill) ≡ signed_raw fill
  raw-signed fill h = ground (arith, raw-neg_small laws fill.fill_quantity h)

  next_position-raw :
      (p : Option (Position D)) (fill : Fill D)
      → IsSmallRaw (fx.raw_value fill.fill_quantity)
      → IsSmallRaw (raw_of p)
      → IsSmallRaw (raw_of p +ℤ signed_raw fill)
      → fx.raw_value (next_position p fill).quantity ≡ raw_of p +ℤ signed_raw fill
  unfolding next_position
  next_position-raw none fill hf hp hs = ground (
    arith,
    raw-signed fill hf,
    +ℤ_parts (pos 0) (signed_raw fill),
    eq_of_parts (signed_raw fill) (pos 0 +ℤ signed_raw fill),
  )
  next_position-raw (some p) fill hf hp hs =
      apply_fill-raw laws p fill hp hf fits
      ∙ ap (λ r. fx.raw_value p.quantity +ℤ r) (raw-signed fill hf)
    where
      fits : IsInt64 (fx.raw_value p.quantity +ℤ fx.raw_value (signed_quantity fill))
      fits = rw (raw-signed fill hf) omega arith

  -- One fill is posted to its symbol, and to no other.
  pub net-update_position :
      (m : PositionManager D) (fill : Fill D) (k : ℕ)
      → IsSmallRaw (fx.raw_value fill.fill_quantity)
      → IsSmallRaw (net m fill.symbol_id)
      → IsSmallRaw (net m fill.symbol_id +ℤ signed_raw fill)
      → net (update_position m fill).1 k ≡ post (net m) fill k
  unfolding net get_position update_position post recalc_total_value
  net-update_position m fill k hf hp hs = ground (
    arith,
    eq_raw fill.fill_quantity nought,
    raw-zero,
    raw-signed fill hf,
    find-store fill.symbol_id k (next_position (find fill.symbol_id m.positions) fill) m.positions,
    next_position-raw (find fill.symbol_id m.positions) fill hf hp hs,
    +ℤ_parts (raw_of (find k m.positions)) (signed_raw fill),
    neg_parts (fx.raw_value fill.fill_quantity),
    eq_of_parts (raw_of (find k m.positions)) (raw_of (find k m.positions) +ℤ signed_raw fill),
  )

  -- After any fills the quantity of each symbol is the one before them and the sum of its fills,
  -- signed, provided that the raw values of the quantities filled and of each running sum have a
  -- magnitude below 2 ^ 63.
  pub net-update_all :
      (m : PositionManager D) (fills : List (Fill D)) (k : ℕ)
      → IsBounded (net m) fills
      → net (update_all m fills) k ≡ post_all (net m) fills k
  unfolding update_all post_all IsBounded
  net-update_all m [] k h = refl
  net-update_all m (fill ∷ fills) k (hf, hp, hs, h) =
      net-update_all (update_position m fill).1 fills k bounded
      ∙ ap (λ ledger. post_all ledger fills k) posted
    where
      posted : net (update_position m fill).1 ≡ post (net m) fill
      posted = fun_ext (λ j. net-update_position m fill j hf hp hs)

      bounded : IsBounded (net (update_position m fill).1) fills
      bounded = subst (λ ledger. IsBounded ledger fills) (sym posted) h
