-- ===== src/Risk/Limit.antt =====
-- `RiskEngine::checkOrder` and `PositionManager::updatePosition`: what the check of the position
-- limit means for the fill of the order.
use libchronos.Base.{ℕ, ◌≡◌, refl, sym, ap, ◌∙◌, true, false, Option, none, some, arith}
use libchronos.Base.Int.{◌+ℤ◌, IsInt64}
use libchronos.Decimal.{Fixed, IsFixed, eq_of_raw}
use libchronos.Types.{OrderRequest, Position, Fill}
use libchronos.Positions.{PositionManager, get_position, update_position, abs}
use libchronos.Positions.Ledger.{
  net, post, raw_of, signed_raw, IsSmallRaw, net-update_position, raw-signed,
}
use libchronos.Risk.{RiskEngine}
use libchronos.Risk.Check.{Clock, check_order, projected_value, existing_qty, signed_qty}
use libchronos.Risk.Decision.{check_order-first_failure, first_failure}

module _ {D : Type 0} ⦃fx : Fixed D⦄ where
  -- The fill of the whole order.
  abbrev pub fill_of : OrderRequest D → ℕ → Fill D
  fill_of order time = record {
    execution_id = 0;
    fill_id = 0;
    order_id = order.order_id;
    exchange_timestamp_us = time;
    receive_timestamp_us = time;
    fill_price = order.price;
    fill_quantity = order.quantity;
    symbol_id = order.symbol_id;
    exchange_id = order.exchange_id;
    strategy_id = order.strategy_id;
    side = order.side;
    is_maker = 0;
  }

module _ {D : Type 0} ⦃fx : Fixed D⦄ (laws : IsFixed D) where
  open laws use {raw-zero, raw-add}

  raw-existing_qty : (p : Option (Position D)) → fx.raw_value (existing_qty p) ≡ raw_of p
  raw-existing_qty none = raw-zero
  raw-existing_qty (some p) = refl

  -- The position after the fill is the one that was projected.
  existing_qty-update_position :
      (m : PositionManager D) (order : OrderRequest D) (time : ℕ)
      → IsSmallRaw (fx.raw_value order.quantity)
      → IsSmallRaw (net m order.symbol_id)
      → IsSmallRaw (net m order.symbol_id +ℤ signed_raw (fill_of order time))
      → existing_qty (get_position (update_position m (fill_of order time)).1 order.symbol_id)
        ≡ fx.add (existing_qty (get_position m order.symbol_id)) (signed_qty order)
  unfolding net post
  existing_qty-update_position m order time hq hp hs =
      eq_of_raw laws
        (existing_qty (get_position (update_position m (fill_of order time)).1 order.symbol_id))
        (fx.add (existing_qty (get_position m order.symbol_id)) (signed_qty order))
        (raw-existing_qty (get_position (update_position m (fill_of order time)).1 order.symbol_id)
          ∙ posted
          ∙ sym added)
    where
      posted :
          raw_of (get_position (update_position m (fill_of order time)).1 order.symbol_id)
          ≡ raw_of (get_position m order.symbol_id) +ℤ signed_raw (fill_of order time)
      posted =
          ground (arith, net-update_position laws m (fill_of order time) order.symbol_id hq hp hs)

      before :
          fx.raw_value (existing_qty (get_position m order.symbol_id))
          ≡ raw_of (get_position m order.symbol_id)
      before = raw-existing_qty (get_position m order.symbol_id)

      signed : fx.raw_value (signed_qty order) ≡ signed_raw (fill_of order time)
      signed = raw-signed laws (fill_of order time) hq

      fits : IsInt64 (
          fx.raw_value (existing_qty (get_position m order.symbol_id))
          +ℤ fx.raw_value (signed_qty order))
      fits = rw (before, signed) omega arith

      added :
          fx.raw_value (fx.add (existing_qty (get_position m order.symbol_id)) (signed_qty order))
          ≡ raw_of (get_position m order.symbol_id) +ℤ signed_raw (fill_of order time)
      added =
          raw-add (existing_qty (get_position m order.symbol_id)) (signed_qty order) fits
          ∙ ap (λ a. a +ℤ fx.raw_value (signed_qty order)) before
          ∙ ap (λ b. raw_of (get_position m order.symbol_id) +ℤ b) signed

  -- When checkOrder passes an order and the order is then filled as a whole, the position's value
  -- at the order's price is not above max_position_value; provided that the raw values of the
  -- order's quantity, of the position before and of the position after have a magnitude below
  -- 2 ^ 63.
  pub check_order-limits :
      {F : Type 0} (m : PositionManager D) (e : RiskEngine F D) (order : OrderRequest D)
      (clock : Clock) (time : ℕ)
      → (check_order m e order clock).0.passed ≡ true
      → IsSmallRaw (fx.raw_value order.quantity)
      → IsSmallRaw (net m order.symbol_id)
      → IsSmallRaw (net m order.symbol_id +ℤ signed_raw (fill_of order time))
      → fx.gt
          (fx.mul
            (abs (
              existing_qty
                (get_position (update_position m (fill_of order time)).1 order.symbol_id)))
            order.price)
          e.hot_params.max_position_value
        ≡ false
  unfolding first_failure projected_value
  check_order-limits m e order clock time passed hq hp hs =
      rw (existing_qty-update_position m order time hq hp hs) ground
        (arith, check_order-first_failure m e order clock)
