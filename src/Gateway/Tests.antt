-- ===== src/Gateway/Tests.antt =====
-- The theorems of the order gateway at a gateway that simulates fills.
use libchronos.Base.{ℕ, ◌≡◌, refl, Bool, true, false, none, some, [], ◌∷◌, ◌++◌, arith, lookup, put}
use libchronos.Base.Int.{ℤ}
use libchronos.Decimal.Sample.{raw_fixed, raw_IsFixed, whole}
use libchronos.Types.{OrderRequest, OrderSide, OrderType, TimeInForce}
use libchronos.Gateway.{OrderGateway, Clock, no_stats, find_pending, simulate_send}
use libchronos.Gateway.Inject.{track_pending}
use libchronos.Gateway.Process.{
  process_order, process_live, process_new, send_simulated, simulated_fill,
}
use libchronos.Gateway.Tracked.{order, AllOpen, run, step, run-AllOpen}
use libchronos.Gateway.Drain.{Polled, poll-Polled}
use libchronos.Gateway.Shutdown.{Stopped, stop-Stopped}
use libchronos.Queue as Queue
use libchronos.Queue.{MpmcQueue, store_push}
use libchronos.Queue.Order.{slice}
use libchronos.Queue.Fifo.{IsCalm, values, push-IsCalm, push-values}
use libchronos.Gateway.Lifecycle.{queue_capacity}
use libchronos.Gateway.Simulated.{process_order-simulated}

abbrev gateway : Bool → OrderGateway ℤ
gateway has_callback = record {
  running = true;
  exchange_id = 1;
  symbols = true ∷ [];
  simulate_fills = true;
  has_callback = has_callback;
  http_client = none;
  pending_orders = [];
  exchange_to_local = [];
  client_id_to_local = [];
  stats = no_stats;
  avg_send_latency_us = 0;
  delivered = [];
}

abbrev buy : ℕ → OrderRequest ℤ
buy order_id = record {
  order_id = order_id;
  timestamp_us = 5;
  price = whole 100;
  quantity = whole 2;
  stop_price = whole 0;
  client_order_id = 1;
  symbol_id = 1;
  exchange_id = 1;
  strategy_id = 3;
  side = OrderSide.buy;
  type = OrderType.limit;
  tif = TimeInForce.gtc;
  strategy_flags = 0;
}

abbrev clock : Clock
clock = record { send_time = 10; later = 12 }

none_open : AllOpen (gateway false).pending_orders
unfolding lookup
none_open k po e = ground arith

-- Without a callback the orders stay pending.
abbrev two_pending : OrderGateway ℤ
two_pending = run (gateway false) (order (buy 1) clock ∷ order (buy 2) clock ∷ [])

run-AllOpen_example : AllOpen two_pending.pending_orders
run-AllOpen_example =
    run-AllOpen (gateway false) (order (buy 1) clock ∷ order (buy 2) clock ∷ []) none_open

two_pending-running : two_pending.running ≡ true
unfolding run step process_order process_live process_new send_simulated simulate_send track_pending
    lookup put
two_pending-running = refl

new-IsCalm : IsCalm queue_capacity (Queue.new {A = OrderRequest ℤ})
new-IsCalm = record {
  ordered = omega arith;
  room = omega arith;
  live = λ p a b. ground arith;
  taken = λ p a b. ground arith;
  fresh = λ p a b. omega (arith, native.Mathlib.Nat.mod-eq_of_lt b);
}

-- A queue that holds a third order.
abbrev one_queued : MpmcQueue (OrderRequest ℤ)
one_queued = store_push queue_capacity Queue.new (buy 3) 0

one_queued-IsCalm : IsCalm queue_capacity one_queued
one_queued-IsCalm =
    push-IsCalm queue_capacity (omega arith) Queue.new (buy 3) new-IsCalm (omega arith)
      (omega arith)

one_queued-values : values queue_capacity one_queued ≡ some (buy 3) ∷ []
unfolding values slice
one_queued-values =
    push-values queue_capacity (omega arith) Queue.new (buy 3) new-IsCalm (omega arith)
      (omega arith)

stop-Stopped_example : Stopped (λ k. clock) two_pending one_queued (buy 3 ∷ [])
stop-Stopped_example =
    stop-Stopped (λ k. clock) two_pending one_queued (buy 3 ∷ []) two_pending-running
      one_queued-IsCalm (omega arith) one_queued-values

poll-Polled_example : Polled (λ k. clock) two_pending one_queued (buy 3 ∷ [])
poll-Polled_example =
    poll-Polled (λ k. clock) two_pending one_queued (buy 3 ∷ []) one_queued-IsCalm (omega arith)
      one_queued-values

none_pending : find_pending (gateway true) 1 ≡ none
unfolding find_pending lookup
none_pending = refl

process_order-simulated_example :
    ((process_order (gateway true) (buy 1) clock).delivered
      ≡ [] ++ (simulated_fill (buy 1) 10 ∷ []))
    × ((k : ℕ)
        → find_pending (process_order (gateway true) (buy 1) clock) k
          ≡ find_pending (gateway true) k)
process_order-simulated_example =
    process_order-simulated raw_IsFixed (gateway true) (buy 1) clock refl refl refl refl
      none_pending (omega arith, omega arith)
