-- ===== src/Gateway/Shutdown.antt =====
-- `stop`: the orders that are left when the gateway ends.
use libchronos.Base.{
  ℕ, ◌+◌, ◌%◌, ◌^◌, ◌<◌, ◌≡◌, refl, true, false, none, some, List, [], ◌∷◌, if◌then◌else◌, arith,
  lookup, map, lookup-remove, length, is_key, lookup-is_key, empty_of_lookup,
}
use libchronos.Decimal.{Fixed}
use libchronos.Types.{OrderRequest}
use libchronos.Queue.{MpmcQueue}
use libchronos.Queue.Fifo.{IsCalm, values}
use libchronos.Gateway.{PendingOrder, OrderGateway, Clock, pending_count, cancelled, finalize_order}
use libchronos.Gateway.Inject.{cancel_each, cancel_all_pending}
use libchronos.Gateway.Drain.{process_all, drain-Drained, queued-fits}
use libchronos.Gateway.Lifecycle.{queue_capacity, drain_fuel, stop}

module _ {D : Type 0} where
  cancel_each-pending :
      (g : OrderGateway D) (ids : List (ℕ × PendingOrder D)) (k : ℕ)
      → lookup k (cancel_each g ids).pending_orders
        ≡ (if is_key k ids then none else lookup k g.pending_orders)
  unfolding cancel_each
  cancel_each-pending g [] k = refl
  cancel_each-pending g ((id, po) ∷ ids) k = ground (
    arith,
    lookup-remove id k g.pending_orders,
    cancel_each-pending (cancelled (finalize_order g id)) ids k,
  )

  cancel_each-count :
      (g : OrderGateway D) (ids : List (ℕ × PendingOrder D))
      → (cancel_each g ids).stats.orders_cancelled % 2 ^ 64
        ≡ (g.stats.orders_cancelled + length ids) % 2 ^ 64
  unfolding cancel_each
  cancel_each-count g [] = ground arith
  cancel_each-count g ((id, po) ∷ ids) =
      let rest = cancel_each-count (cancelled (finalize_order g id)) ids in omega arith

  cancel_each-delivered :
      (g : OrderGateway D) (ids : List (ℕ × PendingOrder D))
      → (cancel_each g ids).delivered ≡ g.delivered
  unfolding cancel_each
  cancel_each-delivered g [] = refl
  cancel_each-delivered g ((id, po) ∷ ids) =
      cancel_each-delivered (cancelled (finalize_order g id)) ids

  cancel_all_pending-delivered :
      (g : OrderGateway D) → (cancel_all_pending g).delivered ≡ g.delivered
  unfolding cancel_all_pending
  cancel_all_pending-delivered g = cancel_each-delivered g g.pending_orders

  cancel_all_pending-count :
      (g : OrderGateway D)
      → (cancel_all_pending g).stats.orders_cancelled % 2 ^ 64
        ≡ (g.stats.orders_cancelled + pending_count g) % 2 ^ 64
  unfolding cancel_all_pending pending_count
  cancel_all_pending-count g = cancel_each-count g g.pending_orders

  cancel_all_pending-pending : (g : OrderGateway D) → pending_count (cancel_all_pending g) ≡ 0
  unfolding cancel_all_pending pending_count
  cancel_all_pending-pending g =
      ground (arith, empty_of_lookup (cancel_each g g.pending_orders).pending_orders gone)
    where
      gone : (k : ℕ) → lookup k (cancel_each g g.pending_orders).pending_orders ≡ none
      gone k =
          ground (arith, cancel_each-pending g g.pending_orders k, lookup-is_key k g.pending_orders)

module _ {D : Type 0} ⦃fx : Fixed D⦄ where
  -- What `stop` leaves of a gateway with these orders in its queue.
  pub record Stopped (clock : ℕ → Clock) (g : OrderGateway D) (q : MpmcQueue (OrderRequest D))
      (orders : List (OrderRequest D)) : Type 0 where
    drained : OrderGateway D
    after : OrderGateway D
    queue : MpmcQueue (OrderRequest D)
    all_processed : drained ≡ process_all clock 0 (record g { running = false }) orders
    returns : stop clock g q ≡ some (after, queue)
    none_queued : values queue_capacity queue ≡ []
    none_pending : pending_count after ≡ 0
    all_cancelled :
        after.stats.orders_cancelled % 2 ^ 64
        ≡ (drained.stats.orders_cancelled + pending_count drained) % 2 ^ 64
    same_fills : after.delivered ≡ drained.delivered

  -- When a gateway that runs is stopped, while no call is under way on its queue and fewer than
  -- 2 ^ 63 - 1024 tickets are drawn, the call returns. Every order in the queue has then been processed,
  -- in the order of the queue, and none is left there. No order is pending: orders_cancelled has grown
  -- by the number that were after these orders were processed, modulo 2 ^ 64. The cancellations hand
  -- over no fill.
  pub stop-Stopped :
      (clock : ℕ → Clock) (g : OrderGateway D) (q : MpmcQueue (OrderRequest D))
      (orders : List (OrderRequest D))
      → g.running ≡ true
      → IsCalm queue_capacity q
      → q.head + queue_capacity < 2 ^ 63
      → values queue_capacity q ≡ map some orders
      → Stopped clock g q orders
  unfolding stop
  stop-Stopped clock g q orders running calm small held =
      let d =
        drain-Drained clock 0 drain_fuel (record g { running = false }) q orders calm small held
          (queued-fits q orders calm held) in
      record {
        drained = drained;
        after = cancel_all_pending drained;
        queue = d.queue;
        all_processed = refl;
        returns = simp (running, d.returns) refl;
        none_queued = d.none_queued;
        none_pending = cancel_all_pending-pending drained;
        all_cancelled = counted;
        same_fills = fills;
      }
    where
      drained : OrderGateway D
      drained = process_all clock 0 (record g { running = false }) orders

      counted :
          (cancel_all_pending drained).stats.orders_cancelled % 2 ^ 64
          ≡ (drained.stats.orders_cancelled + pending_count drained) % 2 ^ 64
      counted = cancel_all_pending-count drained

      fills : (cancel_all_pending drained).delivered ≡ drained.delivered
      fills = cancel_all_pending-delivered drained
