-- ===== src/Gateway/Process.antt =====
-- `OrderGateway::processOrder`.
use libchronos.Base.{
  ℕ, ◌*◌, ◌%◌, ◌^◌, Bool, true, false, not, ◌&&◌, none, some, ◌∷◌, if◌then◌else◌, ◌==◌,
}
use libchronos.Decimal.{Fixed}
use libchronos.Types.{OrderRequest, OrderStatus, Fill}
use libchronos.Positions.{nought}
use libchronos.Gateway.{
  PendingOrder, ClientOrderId, failed, unreadable, placed, Exchange, OrderGateway, Clock, received,
  mismatched, rejected, cancelled, modified, sent, real_client, has_symbol, simulate_send,
  find_pending, store_pending, finalize_order,
}
use libchronos.Gateway.Inject.{track_pending, inject_fill, inject_order_ack}

-- The statuses of an order that may be modified.
abbrev pub is_active : OrderStatus → Bool
is_active OrderStatus.pending = true
is_active OrderStatus.accepted = true
is_active OrderStatus.partially_filled = true
is_active _ = false

module _ {D : Type 0} ⦃fx : Fixed D⦄ where
  -- The request to the exchange, or its simulation; what the exchange answers is only logged.
  unfoldable pub tell_cancel : OrderGateway D → Clock → OrderGateway D
  unfolding simulate_send
  tell_cancel g clock = elim (real_client g) [ none ↦ simulate_send g clock | some place ↦ g ]

  -- The cancellation in `processOrder`.
  unfoldable pub process_cancel : OrderGateway D → ℕ → Clock → OrderGateway D
  unfolding find_pending tell_cancel
  process_cancel g cancel_id clock =
      let told = tell_cancel g clock in
      elim (find_pending told cancel_id) [
        | none ↦ cancelled told
        | some po ↦ cancelled (finalize_order told cancel_id)
      ]

  -- The modification of an active pending order.
  unfoldable pub process_modify :
      OrderGateway D → PendingOrder D → OrderRequest D → Clock → OrderGateway D
  unfolding simulate_send
  process_modify g po order clock = modified (
      store_pending (simulate_send g clock) order.order_id (record po {
        original_price = order.price;
        original_quantity = order.quantity;
        last_update_us = clock.send_time;
      }))

  -- `realSendWithClientId`: the response, and whether the order counts as sent.
  unfoldable pub real_send :
      OrderGateway D → Exchange D → OrderRequest D → ClientOrderId → Bool × OrderGateway D
  unfolding inject_order_ack
  real_send g place order c = elim (place order c) [
    | failed ↦ (false, g)
    | unreadable ↦ (true, g)
    | placed exchange_order_id update_time ↦ (
      true,
      inject_order_ack g (record {
        order_id = order.order_id;
        exchange_order_id = exchange_order_id;
        status = OrderStatus.accepted;
        timestamp_us = update_time * 1000 % 2 ^ 64;
      }),
    )
  ]

  -- A new order, to the exchange.
  unfoldable pub send_real : OrderGateway D → Exchange D → OrderRequest D → Clock → OrderGateway D
  unfolding has_symbol track_pending real_send
  send_real g place order clock =
      let c : ClientOrderId = (order.order_id, clock.later) in
      let named : OrderGateway D = record g {
        client_id_to_local = (c, order.order_id) ∷ g.client_id_to_local;
      } in
      let result = real_send (track_pending named order clock.send_time) place order c in
      if has_symbol g order.symbol_id
      then (if result.0 then sent result.1 else rejected result.1)
      else rejected g

  -- The fill of the simulation.
  abbrev pub simulated_fill : OrderRequest D → ℕ → Fill D
  simulated_fill order send_time = record {
    execution_id = 0;
    fill_id = 0;
    order_id = order.order_id;
    exchange_timestamp_us = send_time;
    receive_timestamp_us = send_time;
    fill_price = order.price;
    fill_quantity = order.quantity;
    symbol_id = order.symbol_id;
    exchange_id = order.exchange_id;
    strategy_id = order.strategy_id;
    side = order.side;
    is_maker = 0;
  }

  -- A new order, without an exchange.
  unfoldable pub send_simulated : OrderGateway D → OrderRequest D → Clock → OrderGateway D
  unfolding simulate_send track_pending inject_fill
  send_simulated g order clock =
      let tracked = track_pending (simulate_send g clock) order clock.send_time in
      if g.simulate_fills && g.has_callback
      then sent (inject_fill tracked (simulated_fill order clock.send_time) clock.later)
      else sent tracked

  unfoldable pub process_new : OrderGateway D → OrderRequest D → Clock → OrderGateway D
  unfolding send_real send_simulated
  process_new g order clock = elim (real_client g) [
    | none ↦ send_simulated g order clock
    | some place ↦ send_real g place order clock
  ]

  unfoldable pub process_live : OrderGateway D → OrderRequest D → Clock → OrderGateway D
  unfolding find_pending process_modify process_new
  process_live g order clock = elim (find_pending g order.order_id) [
    | none ↦ process_new g order clock
    | some po ↦
        if is_active po.status then process_modify g po order clock else process_new g order clock
  ]

  unfoldable pub process_order : OrderGateway D → OrderRequest D → Clock → OrderGateway D
  unfolding process_cancel process_live
  process_order g order clock =
      let counted = received g in
      if not (order.exchange_id == g.exchange_id)
      then mismatched counted
      else if fx.eq order.quantity nought
      then process_cancel counted order.order_id clock
      else process_live counted order clock
