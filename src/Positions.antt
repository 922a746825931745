-- ===== src/Positions.antt =====
-- `class PositionManager`: include/chronos/trading/position_manager.hpp,
-- src/trading/position_manager.cpp. The mutex makes each method one step. The `unordered_map` is an
-- association list in the order in which it would be iterated; a null pointer is `none`.
pub mod Store
pub mod Quantity
pub mod Ledger
pub mod Cache
pub mod Tests
use libchronos.Base.{ℕ, ◌&&◌, Option, none, some, List, [], ◌∷◌, if◌then◌else◌, ◌==◌, suc}
use libchronos.Base.Int.{ℤ, pos, negsuc, ◌+ℤ◌, ◌-ℤ◌, ltb_ℤ, eqb_ℤ}
use libchronos.Decimal.{Fixed}
use libchronos.Types.{Position, Fill, OrderSide}

-- `positions_`: the pairs of a symbol and its position.
abbrev pub Positions : Type 0 → Type 0
Positions D = List (ℕ × Position D)

pub record PositionManager (D : Type 0) : Type 0 where
  pub positions : Positions D
  pub total_value_raw : ℤ

-- `positions_.find(k)`, `positions_[k] = p`
module _ {D : Type 0} where
  unfoldable pub find : ℕ → Positions D → Option (Position D)
  find k [] = none
  find k ((j, p) ∷ ps) = if j == k then some p else find k ps

  unfoldable pub store : ℕ → Position D → Positions D → Positions D
  store k p [] = (k, p) ∷ []
  store k p ((j, q) ∷ ps) = if j == k then (k, p) ∷ ps else (j, q) ∷ store k p ps

-- `INT64_MAX` and `INT64_MIN`
abbrev pub int64_high : ℤ
int64_high = pos 9223372036854775807

abbrev pub int64_low : ℤ
int64_low = negsuc 9223372036854775807

-- The saturating addition of `recalcTotalValue`.
unfoldable pub saturating_add : ℤ → ℤ → ℤ
saturating_add raw add =
    if ltb_ℤ (pos 0) add && ltb_ℤ (int64_high -ℤ add) raw
    then int64_high
    else if ltb_ℤ add (pos 0) && ltb_ℤ raw (int64_low -ℤ add)
    then int64_low
    else raw +ℤ add

module _ {D : Type 0} ⦃fx : Fixed D⦄ where
  abbrev pub nought : D
  nought = fx.of_int 0

  -- `v < Decimal(0) ? -v : v`
  abbrev pub abs : D → D
  abs v = if fx.lt v nought then fx.neg v else v

  unfoldable pub sign_of : D → ℤ
  sign_of v = if fx.gt v nought then pos 1 else if fx.lt v nought then negsuc 0 else pos 0

  unfoldable pub calc_weighted_average : D → D → D → D → D
  calc_weighted_average old_qty old_avg fill_qty fill_price =
      let old_abs = abs old_qty in
      let new_abs = fx.add old_abs fill_qty in
      if fx.eq new_abs nought
      then nought
      else fx.div (fx.add (fx.mul old_abs old_avg) (fx.mul fill_qty fill_price)) new_abs

  unfoldable pub calc_realized_pnl_on_reduce : Position D → D → D → D
  calc_realized_pnl_on_reduce p fill_price reduced_abs =
      if fx.gt p.quantity nought
      then fx.mul reduced_abs (fx.sub fill_price p.average_price)
      else fx.mul reduced_abs (fx.sub p.average_price fill_price)

  -- The loop of `recalcTotalValue`, from `raw` on.
  unfoldable pub sum_values : ℤ → Positions D → ℤ
  sum_values raw [] = raw
  sum_values raw ((id, p) ∷ ps) =
      sum_values
        (if fx.eq p.quantity nought
          then raw
          else saturating_add raw (fx.raw_value (fx.mul (abs p.quantity) p.average_price)))
        ps

  unfoldable pub recalc_total_value : PositionManager D → PositionManager D
  unfolding sum_values
  recalc_total_value m = record m { total_value_raw = sum_values (pos 0) m.positions }

  -- `fill.side == OrderSide::SELL ? -quantity : quantity`
  abbrev pub signed_quantity : Fill D → D
  signed_quantity fill = elim fill.side [
    | OrderSide.sell ↦ fx.neg fill.fill_quantity
    | _ ↦ fill.fill_quantity
  ]

  -- A position where there was none.
  abbrev pub open_position : Fill D → Position D
  open_position fill = record {
    symbol_id = fill.symbol_id;
    quantity = signed_quantity fill;
    average_price = fill.fill_price;
    realized_pnl = nought;
    last_update_us = fill.receive_timestamp_us;
  }

  -- "Partial or full reduction"
  unfoldable pub reduce : Position D → Fill D → Position D
  unfolding calc_realized_pnl_on_reduce
  reduce p fill =
      let quantity = fx.add p.quantity (signed_quantity fill) in
      record p {
        realized_pnl =
            fx.add p.realized_pnl
              (calc_realized_pnl_on_reduce p fill.fill_price (abs (signed_quantity fill)));
        quantity = quantity;
        average_price = if fx.eq quantity nought then nought else p.average_price;
        last_update_us = fill.receive_timestamp_us;
      }

  -- "Flip: close old position entirely, open new on opposite side"
  unfoldable pub flip : Position D → Fill D → Position D
  unfolding calc_realized_pnl_on_reduce sign_of
  flip p fill =
      let remaining = fx.sub (abs (signed_quantity fill)) (abs p.quantity) in
      record p {
        realized_pnl =
            fx.add p.realized_pnl (calc_realized_pnl_on_reduce p fill.fill_price (abs p.quantity));
        quantity =
            if ltb_ℤ (pos 0) (sign_of (signed_quantity fill)) then remaining else fx.neg remaining;
        average_price = fill.fill_price;
        last_update_us = fill.receive_timestamp_us;
      }

  -- "Same direction"
  unfoldable pub increase : Position D → Fill D → Position D
  unfolding calc_weighted_average
  increase p fill = record p {
    quantity = fx.add p.quantity (signed_quantity fill);
    average_price =
        calc_weighted_average p.quantity p.average_price fill.fill_quantity fill.fill_price;
    last_update_us = fill.receive_timestamp_us;
  }

  -- "Flat position": re-established.
  abbrev pub reopen : Position D → Fill D → Position D
  reopen p fill = record p {
    quantity = signed_quantity fill;
    average_price = fill.fill_price;
    last_update_us = fill.receive_timestamp_us;
  }

  -- The branches of `updatePosition` on the position that is there.
  unfoldable pub apply_fill : Position D → Fill D → Position D
  unfolding sign_of increase reduce flip
  apply_fill p fill =
      let old_sign = sign_of p.quantity in
      if eqb_ℤ old_sign (pos 0)
      then reopen p fill
      else if eqb_ℤ old_sign (sign_of (signed_quantity fill))
      then increase p fill
      else if fx.le (abs (signed_quantity fill)) (abs p.quantity)
      then reduce p fill
      else flip p fill

  unfoldable pub next_position : Option (Position D) → Fill D → Position D
  unfolding apply_fill
  next_position none fill = open_position fill
  next_position (some p) fill = apply_fill p fill

  unfoldable pub update_position :
      PositionManager D → Fill D → Option (Position D) × PositionManager D
  unfolding find store next_position recalc_total_value
  update_position m fill =
      let p = next_position (find fill.symbol_id m.positions) fill in
      if fx.eq fill.fill_quantity nought then (none, m) else (
        some p,
        recalc_total_value (record m { positions = store fill.symbol_id p m.positions }),
      )

  unfoldable pub get_position : PositionManager D → ℕ → Option (Position D)
  unfolding find
  get_position m symbol_id = find symbol_id m.positions

  -- The loop of `size`.
  unfoldable pub count_open : Positions D → ℕ
  count_open [] = 0
  count_open ((id, p) ∷ ps) = let n = count_open ps in if fx.eq p.quantity nought then n else suc n

  unfoldable pub get_total_value_cached : PositionManager D → D
  get_total_value_cached m = fx.from_raw_value m.total_value_raw

  unfoldable pub get_unrealized_pnl_of : Position D → D → D
  get_unrealized_pnl_of p current_price = fx.mul p.quantity (fx.sub current_price p.average_price)

  -- `getUnrealizedPnL`: prices that are missing or not positive do not count.
  unfoldable pub unrealized_from : D → (ℕ → Option D) → Positions D → D
  unfolding get_unrealized_pnl_of
  unrealized_from total prices [] = total
  unrealized_from total prices ((id, p) ∷ ps) =
      unrealized_from
        (elim (prices id) [
          | none ↦ total
          | some price ↦
              if fx.gt price nought then fx.add total (get_unrealized_pnl_of p price) else total
        ])
        prices ps

  unfoldable pub get_unrealized_pnl : PositionManager D → (ℕ → Option D) → D
  unfolding unrealized_from
  get_unrealized_pnl m prices = unrealized_from nought prices m.positions

  abbrev pub price_or_average : Option D → Position D → D
  price_or_average none p = p.average_price
  price_or_average (some price) p = if fx.gt price nought then price else p.average_price

  -- `getTotalValue`: the average price stands in for a missing one.
  unfoldable pub value_from : D → (ℕ → Option D) → Positions D → D
  value_from total prices [] = total
  value_from total prices ((id, p) ∷ ps) =
      value_from
        (if fx.eq p.quantity nought
          then total
          else fx.add total (fx.mul (abs p.quantity) (price_or_average (prices id) p)))
        prices ps

  unfoldable pub get_total_value : PositionManager D → (ℕ → Option D) → D
  unfolding value_from
  get_total_value m prices = value_from nought prices m.positions

-- `clear`
unfoldable pub clear : {D : Type 0} → PositionManager D → PositionManager D
clear m = record { positions = []; total_value_raw = pos 0 }
