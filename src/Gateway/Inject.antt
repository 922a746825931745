-- ===== src/Gateway/Inject.antt =====
-- `OrderGateway`: the pending orders, what the exchange reports of them, and the shutdown.
use libchronos.Base.{
  ℕ, Bool, true, false, none, some, List, [], ◌∷◌, ◌++◌, if◌then◌else◌, ◌==◌, put,
}
use libchronos.Base.Words.{inc64}
use libchronos.Decimal.{Fixed}
use libchronos.Types.{OrderRequest, OrderStatus, Fill, OrderAck, OrderReject}
use libchronos.Positions.{nought}
use libchronos.Gateway.{
  PendingOrder, OrderGateway, rejected, cancelled, find_pending, store_pending, finalize_order,
  resolve_fill,
}

abbrev pub is_terminal : OrderStatus → Bool
is_terminal OrderStatus.filled = true
is_terminal OrderStatus.cancelled = true
is_terminal OrderStatus.rejected = true
is_terminal OrderStatus.expired = true
is_terminal _ = false

module _ {D : Type 0} where
  -- `injectOrderAck`
  unfoldable pub inject_order_ack : OrderGateway D → OrderAck → OrderGateway D
  unfolding find_pending
  inject_order_ack g ack = elim (find_pending g ack.order_id) [
    | none ↦ g
    | some po ↦
        let stored =
          store_pending g ack.order_id
            (record po { status = OrderStatus.accepted; last_update_us = ack.timestamp_us }) in
        if ack.exchange_order_id == 0 then stored else record stored {
          exchange_to_local = put ack.exchange_order_id ack.order_id stored.exchange_to_local;
        }
  ]

  -- `injectOrderReject`
  unfoldable pub inject_order_reject : OrderGateway D → OrderReject → OrderGateway D
  unfolding find_pending
  inject_order_reject g reject = elim (find_pending g reject.order_id) [
    | none ↦ rejected g
    | some po ↦ rejected (finalize_order g reject.order_id)
  ]

module _ {D : Type 0} ⦃fx : Fixed D⦄ where
  unfoldable pub pending_of : OrderRequest D → ℕ → PendingOrder D
  pending_of order submit_time_us = record {
    order_id = order.order_id;
    client_order_id = order.client_order_id;
    submit_timestamp_us = submit_time_us;
    symbol_id = order.symbol_id;
    exchange_id = order.exchange_id;
    strategy_id = order.strategy_id;
    side = order.side;
    type = order.type;
    status = OrderStatus.pending;
    original_price = order.price;
    original_quantity = order.quantity;
    filled_quantity = nought;
    last_update_us = submit_time_us;
  }

  -- `trackPending`
  unfoldable pub track_pending : OrderGateway D → OrderRequest D → ℕ → OrderGateway D
  unfolding pending_of
  track_pending g order submit_time_us =
      store_pending g order.order_id (pending_of order submit_time_us)

  -- `updatePendingStatus`
  unfoldable pub update_pending_status : OrderGateway D → ℕ → OrderStatus → D → ℕ → OrderGateway D
  unfolding find_pending
  update_pending_status g order_id status filled_qty now_us = elim (find_pending g order_id) [
    | none ↦ g
    | some po ↦
        if is_terminal status
        then finalize_order g order_id
        else store_pending g order_id (record po {
          status = status;
          last_update_us = now_us;
          filled_quantity =
              if fx.eq filled_qty nought
              then po.filled_quantity
              else fx.add po.filled_quantity filled_qty;
        })
  ]

  -- `injectFill`, on the pending order that the fill belongs to.
  unfoldable pub fill_pending : OrderGateway D → ℕ → PendingOrder D → Fill D → ℕ → OrderGateway D
  fill_pending g id po fill now_us =
      let filled_quantity = fx.add po.filled_quantity fill.fill_quantity in
      let enriched : Fill D = record fill {
        strategy_id = po.strategy_id;
        symbol_id = po.symbol_id;
      } in
      let stored =
        if fx.ge filled_quantity po.original_quantity
        then finalize_order g id
        else store_pending g id (record po {
          filled_quantity = filled_quantity;
          last_update_us = now_us;
          status = OrderStatus.partially_filled;
        }) in
      record stored {
        delivered = if g.has_callback then g.delivered ++ (enriched ∷ []) else g.delivered;
        stats = record g.stats { fills_received = inc64 g.stats.fills_received };
      }

  unfoldable pub inject_fill : OrderGateway D → Fill D → ℕ → OrderGateway D
  unfolding resolve_fill fill_pending
  inject_fill g fill now_us = elim (resolve_fill g fill.order_id) [
    | none ↦ record g { stats = record g.stats { fill_errors = inc64 g.stats.fill_errors } }
    | some found ↦ fill_pending g found.0 found.1 fill now_us
  ]

module _ {D : Type 0} where
  -- The loop of `cancelAllPending`, over the ids that were pending.
  unfoldable pub cancel_each : OrderGateway D → List (ℕ × PendingOrder D) → OrderGateway D
  cancel_each g [] = g
  cancel_each g ((id, po) ∷ ids) = cancel_each (cancelled (finalize_order g id)) ids

  unfoldable pub cancel_all_pending : OrderGateway D → OrderGateway D
  unfolding cancel_each
  cancel_all_pending g = cancel_each g g.pending_orders
