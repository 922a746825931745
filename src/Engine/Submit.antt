-- ===== src/Engine/Submit.antt =====
-- `StrategyContext::submitOrder` on a queue that no other call is working on.
use libchronos.Base.{
  ℕ, ◌+◌, ◌^◌, ◌≤◌, ◌<◌, ◌≡◌, refl, true, false, Option, some, List, [], ◌∷◌, ◌++◌, length, arith,
  Bool-cases, inl, inr,
}
use libchronos.Base.Words.{inc64}
use libchronos.Decimal.{Fixed}
use libchronos.Types.{OrderRequest}
use libchronos.Risk.{RiskCheckResult}
use libchronos.Risk.Check.{Clock, check_order}
use libchronos.Queue.Fifo.{IsCalm, values, Pushed, Pushed-cases, try_push-Pushed}
use libchronos.Engine.{StrategyContext, queue_capacity, validated, submit_order}

module _ {F D : Type 0} ⦃fx : Fixed D⦄ where
  abbrev pub queued : StrategyContext F D → List (Option (OrderRequest D))
  queued ctx = values queue_capacity ctx.order_output

  -- The queue of the context is at rest, and fewer than 2 ^ 63 - capacity tickets are drawn.
  pub record IsOpen (ctx : StrategyContext F D) : Type 0 where
    pub calm : IsCalm queue_capacity ctx.order_output
    pub small : ctx.order_output.head + queue_capacity < 2 ^ 63

  abbrev pub checked : StrategyContext F D → OrderRequest D → Clock → RiskCheckResult
  checked ctx order clock = (check_order ctx.position_manager ctx.risk_engine order clock).0

  -- The three ways in which a submission ends, with the id that it gives and all that it changes but
  -- for the state of the risk engine.
  pub data Outcome (ctx : StrategyContext F D) (order : OrderRequest D) (clock : Clock) (id : ℕ)
      (after : StrategyContext F D) : Type 0 where
    refused :
        (checked ctx order clock).passed ≡ false
        → id ≡ 0
        → queued after ≡ queued ctx
        → after.order_id_gen ≡ ctx.order_id_gen
        → after.orders_risk_rejected ≡ inc64 ctx.orders_risk_rejected
        → after.orders_queue_dropped ≡ ctx.orders_queue_dropped
        → after.orders_submitted ≡ ctx.orders_submitted
        → Outcome ctx order clock id after
    dropped :
        (checked ctx order clock).passed ≡ true
        → queue_capacity ≤ length (queued ctx)
        → id ≡ 0
        → queued after ≡ queued ctx
        → after.order_id_gen ≡ inc64 ctx.order_id_gen
        → after.orders_risk_rejected ≡ ctx.orders_risk_rejected
        → after.orders_queue_dropped ≡ inc64 ctx.orders_queue_dropped
        → after.orders_submitted ≡ ctx.orders_submitted
        → Outcome ctx order clock id after
    entered :
        (checked ctx order clock).passed ≡ true
        → length (queued ctx) < queue_capacity
        → id ≡ ctx.order_id_gen
        → queued after
          ≡ queued ctx
            ++ (some (record order {
              order_id = ctx.order_id_gen;
              timestamp_us = ctx.timestamp_us;
              strategy_id = ctx.current_strategy_id;
            })
                ∷ [])
        → after.order_id_gen ≡ inc64 ctx.order_id_gen
        → after.orders_risk_rejected ≡ ctx.orders_risk_rejected
        → after.orders_queue_dropped ≡ ctx.orders_queue_dropped
        → after.orders_submitted ≡ inc64 ctx.orders_submitted
        → Outcome ctx order clock id after

  pub record Submitted (ctx : StrategyContext F D) (order : OrderRequest D) (clock : Clock)
      : Type 0 where
    pub id : ℕ
    pub after : StrategyContext F D
    pub returns : submit_order ctx order clock ≡ some (id, after)
    pub calm : IsCalm queue_capacity after.order_output
    pub books : after.order_books ≡ ctx.order_books
    pub drawn : after.order_output.head ≤ ctx.order_output.head + 1
    pub outcome : Outcome ctx order clock id after

  -- Where the output queue is at rest and fewer than 2 ^ 63 - 1024 orders have been pushed,
  -- submitOrder returns and the queue is at rest again. An order that the risk engine rejects is
  -- counted, and nothing is queued; one that passes while 1024 orders are queued uses up an id and is
  -- counted as dropped; else it is queued last, under the next id and the current strategy and time,
  -- and that id is returned.
  pub submit_order-Submitted :
      (ctx : StrategyContext F D) (order : OrderRequest D) (clock : Clock)
      → IsOpen ctx
      → Submitted ctx order clock
  unfolding submit_order
  submit_order-Submitted ctx order clock v = elim (Bool-cases (checked ctx order clock).passed) [
    | inl passed ↦
        let p : Pushed queue_capacity ctx.order_output (validated ctx order) =
          try_push-Pushed queue_capacity (omega arith) ctx.order_output (validated ctx order) v.calm
            v.small in
        let taken : StrategyContext F D = record ctx {
          risk_engine = (check_order ctx.position_manager ctx.risk_engine order clock).1;
          order_id_gen = inc64 ctx.order_id_gen;
          order_output = p.after;
        } in
        elim (Pushed-cases queue_capacity ctx.order_output (validated ctx order) p) [
          | inl (pushed, room, last) ↦ record {
            id = ctx.order_id_gen;
            after = record taken { orders_submitted = inc64 ctx.orders_submitted };
            returns = rw (passed, p.returns, pushed) refl;
            calm = p.calm;
            books = refl;
            drawn = p.drawn;
            outcome = entered passed room refl last refl refl refl refl;
          }
          | inr (refused_push, full, same) ↦ record {
            id = 0;
            after = record taken { orders_queue_dropped = inc64 ctx.orders_queue_dropped };
            returns = rw (passed, p.returns, refused_push) refl;
            calm = p.calm;
            books = refl;
            drawn = p.drawn;
            outcome = dropped passed full refl same refl refl refl refl;
          }
        ]
    | inr failed ↦ record {
      id = 0;
      after = record ctx {
        risk_engine = (check_order ctx.position_manager ctx.risk_engine order clock).1;
        orders_risk_rejected = inc64 ctx.orders_risk_rejected;
      };
      returns = rw failed refl;
      calm = v.calm;
      books = refl;
      drawn = omega arith;
      outcome = refused failed refl refl refl refl refl refl;
    }
  ]
