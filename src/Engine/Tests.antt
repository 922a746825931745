-- ===== src/Engine/Tests.antt =====
-- The theorems of the strategy engine at an engine with two strategies.
use libchronos.Base.{ℕ, ◌≢◌, refl, true, none, some, [], ◌∷◌, arith, lookup}
use libchronos.Base.Int.{ℤ, pos}
use libchronos.Decimal.Sample.{raw_fixed, whole}
use libchronos.Types.{OrderRequest, OrderSide, Fill}
use libchronos.Risk.Check.{Clock}
use libchronos.Risk.Check as Check
use libchronos.Queue as Queue
use libchronos.Queue.Fifo.{IsCalm}
use libchronos.Gateway.{OrderGateway, no_stats}
use libchronos.Engine.{StrategyContext, first_id, default_order}
use libchronos.Engine.Program.{finish, submit, cancel, read_bid, Strategy}
use libchronos.Engine.Dispatch.{StrategyEngine, Readings}
use libchronos.Engine.Submit.{IsOpen, Submitted, submit_order-Submitted}
use libchronos.Engine.Live.{IsLive, Lives}
use libchronos.Engine.Loop.{run, run-Lives}
use libchronos.Engine.Cancel.{Cancelled, cancel_order-Cancelled}
use libchronos.Engine.Routing.{register_all, Delivered, register_all-Delivered}

abbrev ctx : StrategyContext ℕ ℤ
ctx = record {
  order_books = [];
  risk_engine = Check.new whole (record {
    max_order_value = 1000;
    max_position_value = 5000;
    max_orders_per_second = 2;
    max_total_position_value = 9000;
    min_available_capital = 100;
    max_drawdown_percent = 20;
  });
  position_manager = record { positions = []; total_value_raw = pos 0 };
  order_id_gen = first_id;
  order_output = Queue.new;
  orders_submitted = 0;
  orders_risk_rejected = 0;
  orders_queue_dropped = 0;
  timestamp_us = 0;
  current_strategy_id = 1;
}

abbrev buy : OrderRequest ℤ
buy = record default_order { price = whole 10; quantity = whole 2; symbol_id = 7; exchange_id = 1 }

abbrev clock : Clock
clock = record { check_us = 9; rate_us = 8; latency_ns = 50 }

new-IsCalm : {A : Type 0} → IsCalm 1024 (Queue.new {A = A})
new-IsCalm = record {
  ordered = omega arith;
  room = omega arith;
  live = λ p a b. ground arith;
  taken = λ p a b. ground arith;
  fresh = λ p a b. omega (arith, native.Mathlib.Nat.mod-eq_of_lt b);
}

ctx-IsOpen : IsOpen ctx
ctx-IsOpen = record { calm = new-IsCalm; small = omega arith }

submit_order-Submitted_example : Submitted ctx buy clock
submit_order-Submitted_example = submit_order-Submitted ctx buy clock ctx-IsOpen

-- A strategy that buys where there is no bid, and then cancels.
abbrev code : Strategy ℕ ℤ 3
code = record {
  symbols = λ s. [];
  on_load = λ s. finish s;
  on_unload = λ s. finish s;
  on_tick =
      λ tick s. read_bid tick.symbol_id (λ bid. submit buy (λ id. cancel id (λ ok. finish id)));
  on_fill = λ fill s. finish fill.order_id;
  on_timer = λ now_us s. finish s;
}

abbrev engine : StrategyEngine ℕ ℕ ℤ
engine = record {
  ctx = ctx;
  strategies = [];
  strategy_by_id = [];
  tick_queue = Queue.new;
  fill_queue = Queue.new;
  running = true;
  ticks_processed = 0;
  fills_processed = 0;
  last_timer_us = 0;
}

abbrev fill : Fill ℤ
fill = record {
  execution_id = 9;
  fill_id = 3;
  order_id = 1;
  exchange_timestamp_us = 0;
  receive_timestamp_us = 5;
  fill_price = whole 10;
  fill_quantity = whole 2;
  symbol_id = 7;
  exchange_id = 1;
  strategy_id = 2;
  side = OrderSide.buy;
  is_maker = 0;
}

register_all-Delivered_example :
    Delivered code (register_all code engine (5 ∷ 6 ∷ [])) fill (λ k. clock)
register_all-Delivered_example =
    register_all-Delivered code engine (5 ∷ 6 ∷ []) fill (λ k. clock) refl refl (omega arith)

abbrev readings : Readings
readings = record {
  tick_clock = λ i k. clock;
  timer_clock = λ i k. clock;
  fill_clock = λ k. clock;
  idle_us = some 100;
  idle_clock = λ i k. clock;
}

engine-IsLive : IsLive engine 100
unfolding lookup
engine-IsLive = record {
  ready = record { calm = new-IsCalm; small = omega arith; even = λ k b e. ground (arith, e) };
  ticks = new-IsCalm;
  ticks_small = omega arith;
  fills = new-IsCalm;
  fills_small = omega arith;
}

run-Lives_example : Lives engine (run code engine (readings ∷ readings ∷ [])) 94
run-Lives_example = run-Lives code engine (readings ∷ readings ∷ []) 94 engine-IsLive

abbrev gateway : OrderGateway ℤ
gateway = record {
  running = true;
  exchange_id = 1;
  symbols = true ∷ [];
  simulate_fills = true;
  has_callback = true;
  http_client = none;
  pending_orders = [];
  exchange_to_local = [];
  client_id_to_local = [];
  stats = no_stats;
  avg_send_latency_us = 0;
  delivered = [];
}

gateway-other : gateway.exchange_id ≢ 0
gateway-other e = absurd (omega (arith, e))

cancel_order-Cancelled_example : Cancelled ctx 1 gateway (record { send_time = 1; later = 2 })
cancel_order-Cancelled_example =
    cancel_order-Cancelled ctx 1 gateway (record { send_time = 1; later = 2 }) ctx-IsOpen
      gateway-other
