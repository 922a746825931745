-- ===== src/Engine/Cancel.antt =====
-- `StrategyContext::cancelOrder` and the gateway that pops its request.
use libchronos.Base.{
  ℕ, ◌≤◌, ◌≡◌, ◌≢◌, refl, Bool, true, false, some, [], ◌∷◌, ◌++◌, length, ◌==◌, arith, ◌⊎◌, inl,
  inr,
}
use libchronos.Decimal.{Fixed}
use libchronos.Types.{OrderRequest}
use libchronos.Queue.Fifo.{Pushed, Pushed-cases, try_push-Pushed}
use libchronos.Engine.{StrategyContext, queue_capacity, cancel_order, cancel_request}
use libchronos.Engine.Submit.{IsOpen, queued}
use libchronos.Gateway.{OrderGateway, Clock, received, mismatched}
use libchronos.Gateway.Process.{process_order}

module _ {F D : Type 0} ⦃fx : Fixed D⦄ where
  -- A cancellation that was queued, last, or found the queue full; and what a gateway makes of it.
  pub record Cancelled (ctx : StrategyContext F D) (order_id : ℕ) (g : OrderGateway D)
      (clock : Clock) : Type 0 where
    pub queued_ok : Bool
    pub after : StrategyContext F D
    pub returns : cancel_order ctx order_id ≡ some (queued_ok, after)
    pub last :
        ((queued_ok ≡ true)
          × (queued after ≡ queued ctx ++ (some (cancel_request order_id ctx.timestamp_us) ∷ [])))
        ⊎ ((queued_ok ≡ false)
            × (queue_capacity ≤ length (queued ctx))
            × (queued after ≡ queued ctx))
    pub ignored :
        process_order g (cancel_request order_id ctx.timestamp_us) clock ≡ mismatched (received g)

  -- Where the output queue is at rest, with fewer than 2 ^ 63 - 1024 requests pushed, cancelOrder
  -- returns: it queues a request last and says so, unless 1024 requests are queued. The gateway of an
  -- exchange whose id is not 0 counts that request as one for another exchange and does nothing else:
  -- the order stays pending.
  pub cancel_order-Cancelled :
      (ctx : StrategyContext F D) (order_id : ℕ) (g : OrderGateway D) (clock : Clock)
      → IsOpen ctx
      → g.exchange_id ≢ 0
      → Cancelled ctx order_id g clock
  unfolding cancel_order process_order
  cancel_order-Cancelled ctx order_id g clock v other =
      let request : OrderRequest D = cancel_request order_id ctx.timestamp_us in
      let p : Pushed queue_capacity ctx.order_output request =
        try_push-Pushed queue_capacity (omega arith) ctx.order_output request v.calm v.small in
      record {
        queued_ok = p.done;
        after = record ctx { order_output = p.after };
        returns = rw p.returns refl;
        last = elim (Pushed-cases queue_capacity ctx.order_output request p) [
          | inl (pushed, room, at_end) ↦ inl (pushed, at_end)
          | inr (full, none_free, same) ↦ inr (full, none_free, same)
        ];
        ignored = rw differs refl;
      }
    where
      differs : (0 == g.exchange_id) ≡ false
      differs = ground (arith, other)
