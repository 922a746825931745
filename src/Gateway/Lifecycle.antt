-- ===== src/Gateway/Lifecycle.antt =====
-- The I/O thread of an `OrderGateway` and its end: `run` processes the orders in the queue; `stop`
-- clears `running_`, joins the thread, which then empties the queue, and cancels what is pending. No
-- other thread pushes an order during a turn of `run` or while `stop` waits, and `stop` finds the thread
-- between two turns. `cpuRelax` and the choice of a CPU have no effect on the state.
use libchronos.Base.{false, ℕ, zero, suc, Option, none, some, if◌then◌else◌, ◌>>=◌}
use libchronos.Base.Words.{inc64}
use libchronos.Decimal.{Fixed}
use libchronos.Types.{OrderRequest}
use libchronos.Queue.{MpmcQueue, try_pop}
use libchronos.Gateway.{OrderGateway, Clock}
use libchronos.Gateway.Inject.{cancel_all_pending}
use libchronos.Gateway.Process.{process_order}

-- `OrderQueue`
abbrev pub queue_capacity : ℕ
queue_capacity = 1024

-- Enough fuel: a pop for each slot, and the one that finds the queue empty.
abbrev pub drain_fuel : ℕ
drain_fuel = 1025

-- `!did_work`
abbrev pub idle : {D : Type 0} → OrderGateway D → OrderGateway D
idle g = record g { stats = record g.stats { queue_empty_polls = inc64 g.stats.queue_empty_polls } }

module _ {D : Type 0} ⦃fx : Fixed D⦄ where
  -- The loop of `run` after the stop signal, on fuel; `clock k` is what the clock shows while order k
  -- is processed.
  unfoldable pub drain :
      (ℕ → Clock)
      → ℕ
      → ℕ
      → OrderGateway D
      → MpmcQueue (OrderRequest D)
      → Option (OrderGateway D × MpmcQueue (OrderRequest D))
  unfolding try_pop process_order
  drain clock k zero g q = none
  drain clock k (suc fuel) g q = do
    popped ← try_pop queue_capacity q
    elim popped.0 [
      | none ↦ some (g, popped.1)
      | some order ↦ drain clock (suc k) fuel (process_order g order (clock k)) popped.1
    ]

  -- A turn of the loop of `run` before the stop signal.
  unfoldable pub poll :
      (ℕ → Clock)
      → OrderGateway D
      → MpmcQueue (OrderRequest D)
      → Option (OrderGateway D × MpmcQueue (OrderRequest D))
  unfolding try_pop process_order drain
  poll clock g q = do
    popped ← try_pop queue_capacity q
    elim popped.0 [
      | none ↦ some (idle g, popped.1)
      | some order ↦ drain clock 1 drain_fuel (process_order g order (clock 0)) popped.1
    ]

  unfoldable pub stop :
      (ℕ → Clock)
      → OrderGateway D
      → MpmcQueue (OrderRequest D)
      → Option (OrderGateway D × MpmcQueue (OrderRequest D))
  unfolding drain cancel_all_pending
  stop clock g q =
      if g.running
      then (do
        drained ← drain clock 0 drain_fuel (record g { running = false }) q
        some (cancel_all_pending drained.0, drained.1))
      else some (g, q)
