-- ===== src/Gateway/Drain.antt =====
-- `OrderGateway::run`: what the loops that pop the queue make of the orders in it.
use libchronos.Base.{
  ◌∙◌, ℕ, zero, suc, ◌+◌, ◌^◌, ◌<◌, ◌≡◌, refl, some, List, [], ◌∷◌, arith, map, length, inl, inr,
}
use libchronos.Decimal.{Fixed}
use libchronos.Types.{OrderRequest}
use libchronos.Queue.{MpmcQueue}
use libchronos.Queue.Fifo.{IsCalm, values, try_pop-Popped, length-values}
use libchronos.Gateway.{OrderGateway, Clock}
use libchronos.Gateway.Process.{process_order}
use libchronos.Gateway.Lifecycle.{queue_capacity, drain_fuel, drain, idle, poll}

length-map : {A : Type 0} (xs : List A) → length (map some xs) ≡ length xs
length-map [] = refl
length-map (x ∷ xs) = ground (arith, length-map xs)

module _ {D : Type 0} ⦃fx : Fixed D⦄ where
  -- What the gateway has made of a list of orders.
  unfoldable pub process_all :
      (ℕ → Clock) → ℕ → OrderGateway D → List (OrderRequest D) → OrderGateway D
  unfolding process_order
  process_all clock k g [] = g
  process_all clock k g (order ∷ orders) =
      process_all clock (suc k) (process_order g order (clock k)) orders

  pub queued-fits :
      (q : MpmcQueue (OrderRequest D)) (orders : List (OrderRequest D))
      → IsCalm queue_capacity q
      → values queue_capacity q ≡ map some orders
      → length orders < drain_fuel
  queued-fits q orders calm held = ground (
    arith,
    length-values queue_capacity (omega arith) q,
    held,
    calm.room,
    calm.ordered,
    length-map orders,
  )

  -- What the loop that empties the queue gives.
  pub record Drained (clock : ℕ → Clock) (k fuel : ℕ) (g : OrderGateway D)
      (q : MpmcQueue (OrderRequest D)) (orders : List (OrderRequest D)) : Type 0 where
    pub queue : MpmcQueue (OrderRequest D)
    pub returns : drain clock k fuel g q ≡ some (process_all clock k g orders, queue)
    pub none_queued : values queue_capacity queue ≡ []
    pub calm : IsCalm queue_capacity queue
    pub head_kept : queue.head ≡ q.head

  pub drain-Drained :
      (clock : ℕ → Clock) (k fuel : ℕ) (g : OrderGateway D) (q : MpmcQueue (OrderRequest D))
      (orders : List (OrderRequest D))
      → IsCalm queue_capacity q
      → q.head + queue_capacity < 2 ^ 63
      → values queue_capacity q ≡ map some orders
      → length orders < fuel
      → Drained clock k fuel g q orders
  unfolding drain process_all
  drain-Drained clock k zero g q orders calm small held enough = absurd (omega (arith, enough))
  drain-Drained clock k (suc fuel) g q [] calm small held enough =
      let p = try_pop-Popped queue_capacity (omega arith) q calm small in
      elim p.left [
        | inl (was, now, nothing) ↦ record {
          queue = p.after;
          returns = rw (p.returns, nothing) refl;
          none_queued = now;
          calm = p.calm;
          head_kept = p.head_kept;
        }
        | inr more ↦ absurd (ground (arith, held, more))
      ]
  drain-Drained clock k (suc fuel) g q (order ∷ orders) calm small held enough =
      let p = try_pop-Popped queue_capacity (omega arith) q calm small in
      elim p.left [
        | inl (was, now, nothing) ↦ absurd (ground (arith, held, was))
        | inr more ↦
            let first : p.value ≡ some order = ground (arith, held, more) in
            let others : values queue_capacity p.after ≡ map some orders =
              ground (arith, held, more) in
            let d =
              drain-Drained clock (suc k) fuel (process_order g order (clock k)) p.after orders
                p.calm (ground (arith, p.head_kept, small)) others (ground (arith, enough)) in
            record {
              queue = d.queue;
              returns = rw (p.returns, first) d.returns;
              none_queued = d.none_queued;
              calm = d.calm;
              head_kept = d.head_kept ∙ p.head_kept;
            }
      ]

  -- What a turn has made of a gateway: an empty poll counts.
  abbrev turned : (ℕ → Clock) → OrderGateway D → List (OrderRequest D) → OrderGateway D
  turned clock g [] = idle g
  turned clock g (order ∷ orders) = process_all clock 0 g (order ∷ orders)

  -- What a turn of the loop makes of a gateway with these orders in its queue.
  pub record Polled (clock : ℕ → Clock) (g : OrderGateway D) (q : MpmcQueue (OrderRequest D))
      (orders : List (OrderRequest D)) : Type 0 where
    after : OrderGateway D
    queue : MpmcQueue (OrderRequest D)
    returns : poll clock g q ≡ some (after, queue)
    all_processed : after ≡ turned clock g orders
    none_queued : values queue_capacity queue ≡ []
    calm : IsCalm queue_capacity queue
    head_kept : queue.head ≡ q.head

  -- While no call is under way on the queue, and fewer than 2 ^ 63 - 1024 tickets are drawn, a turn of
  -- the loop ends: it has processed every order in the queue, in the order of the queue, or has counted
  -- an empty poll where there was none. No order is left in the queue, which is at rest again, with as
  -- many tickets drawn as before.
  pub poll-Polled :
      (clock : ℕ → Clock) (g : OrderGateway D) (q : MpmcQueue (OrderRequest D))
      (orders : List (OrderRequest D))
      → IsCalm queue_capacity q
      → q.head + queue_capacity < 2 ^ 63
      → values queue_capacity q ≡ map some orders
      → Polled clock g q orders
  unfolding poll process_all
  poll-Polled clock g q [] calm small held =
      let p = try_pop-Popped queue_capacity (omega arith) q calm small in
      elim p.left [
        | inl (was, now, nothing) ↦ record {
          after = idle g;
          queue = p.after;
          returns = rw (p.returns, nothing) refl;
          all_processed = refl;
          none_queued = now;
          calm = p.calm;
          head_kept = p.head_kept;
        }
        | inr more ↦ absurd (ground (arith, held, more))
      ]
  poll-Polled clock g q (order ∷ orders) calm small held =
      let p = try_pop-Popped queue_capacity (omega arith) q calm small in
      elim p.left [
        | inl (was, now, nothing) ↦ absurd (ground (arith, held, was))
        | inr more ↦
            let first : p.value ≡ some order = ground (arith, held, more) in
            let others : values queue_capacity p.after ≡ map some orders =
              ground (arith, held, more) in
            let d =
              drain-Drained clock 1 drain_fuel (process_order g order (clock 0)) p.after orders
                p.calm (ground (arith, p.head_kept, small)) others
                (queued-fits p.after orders p.calm others) in
            record {
              after = process_all clock 1 (process_order g order (clock 0)) orders;
              queue = d.queue;
              returns = rw (p.returns, first) d.returns;
              all_processed = refl;
              none_queued = d.none_queued;
              calm = d.calm;
              head_kept = d.head_kept ∙ p.head_kept;
            }
      ]
