-- ===== src/Gateway/Simulated.antt =====
-- The simulation: an order is filled when it is processed.
use libchronos.Base.{
  ℕ, ◌≡◌, true, false, none, some, [], ◌∷◌, ◌++◌, arith, lookup, put, remove, lookup-put,
  lookup-remove,
}
use libchronos.Base.Int.{pos, ◌+ℤ◌, IsInt64, +ℤ_parts, one_part}
use libchronos.Decimal.{Fixed, IsFixed}
use libchronos.Types.{OrderRequest}
use libchronos.Positions.{nought}
use libchronos.Gateway.{
  PendingOrder, OrderGateway, Clock, find_pending, resolve_fill, simulate_send,
}
use libchronos.Gateway.Inject.{track_pending, pending_of, inject_fill, fill_pending}
use libchronos.Gateway.Process.{
  process_order, process_new, process_live, send_simulated, simulated_fill,
}

module _ {D : Type 0} ⦃fx : Fixed D⦄ (laws : IsFixed D) where
  open laws use {raw-zero, ge_raw, raw-add}

  -- The first fill of an order's whole quantity completes it.
  full_fill : (q : D) → IsInt64 (fx.raw_value q) → fx.ge (fx.add nought q) q ≡ true
  full_fill q h = ground (
    arith,
    ge_raw (fx.add nought q) q,
    raw-add nought q,
    raw-zero,
    +ℤ_parts (pos 0) (fx.raw_value q),
    one_part (fx.raw_value q),
    one_part (pos 0 +ℤ fx.raw_value q),
  )

  -- In a gateway that simulates fills and has a callback, an order for its exchange, of a quantity
  -- that is a raw int64 and not zero, and with an id that is not pending, is filled at once and in full: the callback gets one fill
  -- at the order's price, quantity, side, symbol and strategy, the order is not pending afterwards,
  -- and the other pending orders are as before.
  pub process_order-simulated :
      (g : OrderGateway D) (o : OrderRequest D) (clock : Clock)
      → g.simulate_fills ≡ true
      → g.has_callback ≡ true
      → o.exchange_id ≡ g.exchange_id
      → fx.eq o.quantity nought ≡ false
      → find_pending g o.order_id ≡ none
      → IsInt64 (fx.raw_value o.quantity)
      → ((process_order g o clock).delivered
          ≡ g.delivered ++ (simulated_fill o clock.send_time ∷ []))
        × ((k : ℕ) → find_pending (process_order g o clock) k ≡ find_pending g k)
  unfolding process_order process_live process_new send_simulated find_pending track_pending
      pending_of inject_fill resolve_fill fill_pending simulate_send
  process_order-simulated g o clock sim cb ex nz fresh fits =
      (ground (arith, laid, whole), λ k. ground (arith, laid, whole, other k))
    where
      po : PendingOrder D
      po = pending_of o clock.send_time

      laid : lookup o.order_id (put o.order_id po g.pending_orders) ≡ some po
      laid = ground (arith, lookup-put o.order_id o.order_id po g.pending_orders)

      whole : fx.ge (fx.add nought o.quantity) o.quantity ≡ true
      whole = full_fill o.quantity fits

      other :
          (k : ℕ)
          → lookup k (remove o.order_id (put o.order_id po g.pending_orders))
            ≡ lookup k g.pending_orders
      other k = ground (
        arith,
        lookup-remove o.order_id k (put o.order_id po g.pending_orders),
        lookup-put o.order_id k po g.pending_orders,
      )
