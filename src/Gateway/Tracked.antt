-- ===== src/Gateway/Tracked.antt =====
-- The pending orders, whatever the gateway is asked to do and the exchange reports.
use libchronos.Base.{
  ℕ, ◌*◌, ◌%◌, ◌^◌, ◌&&◌, ◌≡◌, refl, sym, subst, true, some, List, [], ◌∷◌, ◌==◌, arith, inl, inr,
  lookup, put, remove, lookup-put, lookup-remove, Bool-cases, Option-cases,
}
use libchronos.Decimal.{Fixed}
use libchronos.Types.{OrderRequest, Fill, OrderAck, OrderReject, OrderStatus}
use libchronos.Gateway.{
  received, real_client, PendingOrder, OrderGateway, Clock, find_pending, resolve_fill,
  simulate_send, has_symbol, Exchange, failed, unreadable, placed, ClientOrderId,
}
use libchronos.Gateway.Inject.{
  track_pending, pending_of, inject_fill, fill_pending, inject_order_ack, inject_order_reject,
}
use libchronos.Positions.{nought}
use libchronos.Gateway.Process.{
  simulated_fill, is_active, process_order, process_cancel, process_modify, process_new,
  process_live, send_real, send_simulated, real_send, tell_cancel,
}

-- What the gateway's thread and the user stream ask of it, in the order of the mutex.
pub data Event (D : Type 0) : Type 0 where
  order : OrderRequest D → Clock → Event D
  fill : Fill D → ℕ → Event D
  ack : OrderAck → Event D
  reject : OrderReject → Event D

module _ {D : Type 0} ⦃fx : Fixed D⦄ where
  unfoldable pub step : OrderGateway D → Event D → OrderGateway D
  unfolding process_order inject_fill inject_order_ack inject_order_reject
  step g (order o clock) = process_order g o clock
  step g (fill f now_us) = inject_fill g f now_us
  step g (ack a) = inject_order_ack g a
  step g (reject r) = inject_order_reject g r

  unfoldable pub run : OrderGateway D → List (Event D) → OrderGateway D
  unfolding step
  run g [] = g
  run g (e ∷ events) = run (step g e) events

-- A pending order stands under its own id, and it is one that may still be filled.
module _ {D : Type 0} where
  abbrev pub IsOpen : ℕ → PendingOrder D → Type 0
  IsOpen k po = (po.order_id ≡ k) × (is_active po.status ≡ true)

  abbrev pub AllOpen : List (ℕ × PendingOrder D) → Type 0
  AllOpen m = (k : ℕ) (po : PendingOrder D) → lookup k m ≡ some po → IsOpen k po

  put-AllOpen :
      (id : ℕ) (new : PendingOrder D) (m : List (ℕ × PendingOrder D))
      → IsOpen id new
      → AllOpen m
      → AllOpen (put id new m)
  put-AllOpen id new m o h k po e = ground (arith, lookup-put id k new m, h k po)

  remove-AllOpen : (id : ℕ) (m : List (ℕ × PendingOrder D)) → AllOpen m → AllOpen (remove id m)
  remove-AllOpen id m h k po e = ground (arith, lookup-remove id k m, h k po)

  inject_order_ack-AllOpen :
      (g : OrderGateway D) (a : OrderAck)
      → AllOpen g.pending_orders
      → AllOpen (inject_order_ack g a).pending_orders
  unfolding inject_order_ack find_pending
  inject_order_ack-AllOpen g a h = elim (Option-cases (lookup a.order_id g.pending_orders)) [
    | inl e ↦ rw (e, inject_order_ack) h
    | inr (po, e) ↦
        let stored =
          put-AllOpen a.order_id
            (record po { status = OrderStatus.accepted; last_update_us = a.timestamp_us })
            g.pending_orders ((h a.order_id po e).0, refl) h in
        (elim (Bool-cases (a.exchange_order_id == 0)) [
          | inl z ↦ rw (e, z, inject_order_ack) stored
          | inr z ↦ rw (e, z, inject_order_ack) stored
        ])
  ]

  inject_order_reject-AllOpen :
      (g : OrderGateway D) (r : OrderReject)
      → AllOpen g.pending_orders
      → AllOpen (inject_order_reject g r).pending_orders
  unfolding inject_order_reject find_pending
  inject_order_reject-AllOpen g r h = elim (Option-cases (lookup r.order_id g.pending_orders)) [
    | inl e ↦ rw (e, inject_order_reject) h
    | inr (po, e) ↦ rw (e, inject_order_reject) (remove-AllOpen r.order_id g.pending_orders h)
  ]

  -- The order that a fill is resolved to is pending.
  resolve_fill-pending :
      (g : OrderGateway D) (id : ℕ) (found : ℕ × PendingOrder D)
      → resolve_fill g id ≡ some found
      → lookup found.0 g.pending_orders ≡ some found.1
  unfolding resolve_fill find_pending
  resolve_fill-pending g id found h = ground arith

module _ {D : Type 0} ⦃fx : Fixed D⦄ where
  fill_pending-AllOpen :
      (g : OrderGateway D) (id : ℕ) (po : PendingOrder D) (f : Fill D) (now_us : ℕ)
      → lookup id g.pending_orders ≡ some po
      → AllOpen g.pending_orders
      → AllOpen (fill_pending g id po f now_us).pending_orders
  unfolding fill_pending
  fill_pending-AllOpen g id po f now_us e h =
      elim (Bool-cases (fx.ge (fx.add po.filled_quantity f.fill_quantity) po.original_quantity)) [
        | inl z ↦ rw (z, fill_pending) (remove-AllOpen id g.pending_orders h)
        | inr z ↦
            rw (z, fill_pending)
              (put-AllOpen id
                (record po {
                  filled_quantity = fx.add po.filled_quantity f.fill_quantity;
                  last_update_us = now_us;
                  status = OrderStatus.partially_filled;
                })
                g.pending_orders ((h id po e).0, refl) h)
      ]

  inject_fill-AllOpen :
      (g : OrderGateway D) (f : Fill D) (now_us : ℕ)
      → AllOpen g.pending_orders
      → AllOpen (inject_fill g f now_us).pending_orders
  unfolding inject_fill
  inject_fill-AllOpen g f now_us h = elim (Option-cases (resolve_fill g f.order_id)) [
    | inl e ↦ rw (e, inject_fill) h
    | inr (found, e) ↦
        rw (e, inject_fill)
          (fill_pending-AllOpen g found.0 found.1 f now_us
            (resolve_fill-pending g f.order_id found e) h)
  ]

  tell_cancel-pending :
      (g : OrderGateway D) (clock : Clock) → (tell_cancel g clock).pending_orders ≡ g.pending_orders
  unfolding tell_cancel simulate_send
  tell_cancel-pending g clock = ground arith

  process_cancel-AllOpen :
      (g : OrderGateway D) (id : ℕ) (clock : Clock)
      → AllOpen g.pending_orders
      → AllOpen (process_cancel g id clock).pending_orders
  unfolding process_cancel find_pending
  process_cancel-AllOpen g id clock h =
      let told = subst AllOpen (sym (tell_cancel-pending g clock)) h in
      elim (Option-cases (lookup id (tell_cancel g clock).pending_orders)) [
        | inl e ↦ rw (e, process_cancel) told
        | inr (po, e) ↦
            rw (e, process_cancel) (remove-AllOpen id (tell_cancel g clock).pending_orders told)
      ]

  track_pending-AllOpen :
      (g : OrderGateway D) (o : OrderRequest D) (time : ℕ)
      → AllOpen g.pending_orders
      → AllOpen (track_pending g o time).pending_orders
  unfolding track_pending pending_of
  track_pending-AllOpen g o time h =
      put-AllOpen o.order_id (pending_of o time) g.pending_orders (refl, refl) h

  send_simulated-AllOpen :
      (g : OrderGateway D) (o : OrderRequest D) (clock : Clock)
      → AllOpen g.pending_orders
      → AllOpen (send_simulated g o clock).pending_orders
  unfolding send_simulated simulate_send
  send_simulated-AllOpen g o clock h =
      let tracked = track_pending-AllOpen (simulate_send g clock) o clock.send_time h in
      elim (Bool-cases (g.simulate_fills && g.has_callback)) [
        | inl e ↦
            rw (e, send_simulated)
              (inject_fill-AllOpen (track_pending (simulate_send g clock) o clock.send_time)
                (simulated_fill o clock.send_time) clock.later tracked)
        | inr e ↦ rw (e, send_simulated) tracked
      ]

  real_send-AllOpen :
      (g : OrderGateway D) (place : Exchange D) (o : OrderRequest D) (c : ClientOrderId)
      → AllOpen g.pending_orders
      → AllOpen (real_send g place o c).1.pending_orders
  unfolding real_send
  real_send-AllOpen g place o c h =
      elim (place o c) as (λ r. place o c ≡ r → AllOpen (real_send g place o c).1.pending_orders) [
        | failed ↦ λ e. rw (e, real_send) h
        | unreadable ↦ λ e. rw (e, real_send) h
        | placed id time ↦ λ e.
            rw (e, real_send)
              (inject_order_ack-AllOpen g
                (record {
                  order_id = o.order_id;
                  exchange_order_id = id;
                  status = OrderStatus.accepted;
                  timestamp_us = time * 1000 % 2 ^ 64;
                })
                h)
      ]
        refl

  send_real-AllOpen :
      (g : OrderGateway D) (place : Exchange D) (o : OrderRequest D) (clock : Clock)
      → AllOpen g.pending_orders
      → AllOpen (send_real g place o clock).pending_orders
  unfolding send_real
  send_real-AllOpen g place o clock h =
      let c : ClientOrderId = (o.order_id, clock.later) in
      let named : OrderGateway D = record g {
        client_id_to_local = (c, o.order_id) ∷ g.client_id_to_local;
      } in
      let tracked = track_pending named o clock.send_time in
      let real =
        real_send-AllOpen tracked place o c (track_pending-AllOpen named o clock.send_time h) in
      elim (Bool-cases (has_symbol g o.symbol_id)) [
        | inl e ↦ elim (Bool-cases (real_send tracked place o c).0) [
          | inl z ↦ rw (e, z, send_real) real
          | inr z ↦ rw (e, z, send_real) real
        ]
        | inr e ↦ rw (e, send_real) h
      ]

  process_new-AllOpen :
      (g : OrderGateway D) (o : OrderRequest D) (clock : Clock)
      → AllOpen g.pending_orders
      → AllOpen (process_new g o clock).pending_orders
  unfolding process_new
  process_new-AllOpen g o clock h = elim (Option-cases (real_client g)) [
    | inl e ↦ rw (e, process_new) (send_simulated-AllOpen g o clock h)
    | inr (place, e) ↦ rw (e, process_new) (send_real-AllOpen g place o clock h)
  ]

  process_live-AllOpen :
      (g : OrderGateway D) (o : OrderRequest D) (clock : Clock)
      → AllOpen g.pending_orders
      → AllOpen (process_live g o clock).pending_orders
  unfolding process_live process_modify find_pending simulate_send
  process_live-AllOpen g o clock h = elim (Option-cases (lookup o.order_id g.pending_orders)) [
    | inl e ↦ rw (e, process_live) (process_new-AllOpen g o clock h)
    | inr (po, e) ↦
        rw (e, (h o.order_id po e).1, process_live)
          (put-AllOpen o.order_id
            (record po {
              original_price = o.price;
              original_quantity = o.quantity;
              last_update_us = clock.send_time;
            })
            g.pending_orders (h o.order_id po e) h)
  ]

  process_order-AllOpen :
      (g : OrderGateway D) (o : OrderRequest D) (clock : Clock)
      → AllOpen g.pending_orders
      → AllOpen (process_order g o clock).pending_orders
  unfolding process_order
  process_order-AllOpen g o clock h = elim (Bool-cases (o.exchange_id == g.exchange_id)) [
    | inr e ↦ rw (e, process_order) h
    | inl e ↦ elim (Bool-cases (fx.eq o.quantity nought)) [
      | inl z ↦ rw (e, z, process_order) (process_cancel-AllOpen (received g) o.order_id clock h)
      | inr z ↦ rw (e, z, process_order) (process_live-AllOpen (received g) o clock h)
    ]
  ]

  step-AllOpen :
      (g : OrderGateway D) (e : Event D)
      → AllOpen g.pending_orders
      → AllOpen (step g e).pending_orders
  unfolding step
  step-AllOpen g (order o clock) h = process_order-AllOpen g o clock h
  step-AllOpen g (fill f now_us) h = inject_fill-AllOpen g f now_us h
  step-AllOpen g (ack a) h = inject_order_ack-AllOpen g a h
  step-AllOpen g (reject r) h = inject_order_reject-AllOpen g r h

  -- Whatever orders are processed and whatever the exchange reports, in any order, each pending
  -- order stands under its own id with a status that can still be filled: PENDING, ACCEPTED or
  -- PARTIALLY_FILLED; provided that it was so at the start.
  pub run-AllOpen :
      (g : OrderGateway D) (events : List (Event D))
      → AllOpen g.pending_orders
      → AllOpen (run g events).pending_orders
  unfolding run
  run-AllOpen g [] h = h
  run-AllOpen g (e ∷ events) h = run-AllOpen (step g e) events (step-AllOpen g e h)
