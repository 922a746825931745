-- ===== src/Engine/Dispatch.antt =====
-- `StrategyEngine`: include/chronos/trading/strategy_engine.hpp, src/trading/strategy_engine.cpp. The
-- worker thread runs the loop `run`, a turn at a time; the queues are filled between the turns.
use libchronos.Base.{
  ℕ, ◌%◌, ◌^◌, Bool, true, false, ◌||◌, Option, none, some, List, [], ◌∷◌, ◌++◌, length, get_elem?,
  set, if◌then◌else◌, ltb, ◌==◌, lookup, put, ◌>>=◌,
}
use libchronos.Base.Words.{inc64, inc32, sub64}
use libchronos.Decimal.{Fixed}
use libchronos.Types.{OrderRequest, Tick, Fill}
use libchronos.Book.V2.{OrderBookV2}
use libchronos.Book.V2 as V2
use libchronos.Positions.{update_position}
use libchronos.Risk.{RiskParameters, update_parameters}
use libchronos.Risk.Check.{Clock, set_available_capital}
use libchronos.Queue.{MpmcQueue, try_push, try_pop}
use libchronos.Engine.{StrategyContext, queue_capacity}
use libchronos.Engine.Program.{Program, Strategy, exec}

-- `struct StrategyEntry`
pub record StrategyEntry (S : Type 0) : Type 0 where
  pub id : ℕ
  pub strategy : S
  pub symbols : List ℕ
  pub is_wildcard : Bool

-- `strategy_by_id` gives places in `strategies`; `last_timer_us` is the local variable of `run`.
pub record StrategyEngine (S F D : Type 0) : Type 0 where
  pub ctx : StrategyContext F D
  pub strategies : List (StrategyEntry S)
  pub strategy_by_id : List (ℕ × ℕ)
  pub tick_queue : MpmcQueue (Tick D)
  pub fill_queue : MpmcQueue (Fill D)
  pub running : Bool
  pub ticks_processed : ℕ
  pub fills_processed : ℕ
  pub last_timer_us : ℕ

-- `symbols.count(id)`
abbrev pub contains : List ℕ → ℕ → Bool
contains [] id = false
contains (s ∷ ss) id = (s == id) || contains ss id

abbrev pub subscribes : {S : Type 0} → ℕ → StrategyEntry S → Bool
subscribes symbol_id entry = entry.is_wildcard || contains entry.symbols symbol_id

abbrev pub timer_interval_us : ℕ
timer_interval_us = 100000

-- What a turn of the loop reads from the clocks; `idle_us` is the time where no timer has run for
-- 100 ms.
pub record Readings : Type 0 where
  pub tick_clock : ℕ → ℕ → Clock
  pub timer_clock : ℕ → ℕ → Clock
  pub fill_clock : ℕ → Clock
  pub idle_us : Option ℕ
  pub idle_clock : ℕ → ℕ → Clock

module _ {S F D : Type 0} ⦃fx : Fixed D⦄ {n : ℕ} where
  -- A callback of one entry, under its id; `clock` is what its checks read.
  unfoldable pub call_entry :
      (S → Program S D n)
      → (ℕ → Clock)
      → StrategyContext F D
      → StrategyEntry S
      → Option (StrategyEntry S × StrategyContext F D)
  unfolding exec
  call_entry callback clock ctx entry = do
    r ← exec clock (record ctx { current_strategy_id = entry.id }) (callback entry.strategy)
    some (record entry { strategy = r.0 }, r.1)

  -- `for (auto& entry : strategies_)`, for those that `picks` picks.
  unfoldable pub for_each :
      (StrategyEntry S → Bool)
      → (S → Program S D n)
      → (ℕ → ℕ → Clock)
      → StrategyContext F D
      → List (StrategyEntry S)
      → Option (List (StrategyEntry S) × StrategyContext F D)
  unfolding call_entry
  for_each picks callback clock ctx [] = some ([], ctx)
  for_each picks callback clock ctx (entry ∷ entries) = do
    one ←
        (if picks entry then call_entry callback (clock entry.id) ctx entry else some (entry, ctx))
    rest ← for_each picks callback clock one.1 entries
    some (one.0 ∷ rest.0, rest.1)

  unfoldable pub call_all :
      (StrategyEntry S → Bool)
      → (S → Program S D n)
      → (ℕ → ℕ → Clock)
      → StrategyEngine S F D
      → Option (StrategyEngine S F D)
  unfolding for_each
  call_all picks callback clock e = do
    r ← for_each picks callback clock e.ctx e.strategies
    some (record e { ctx = r.1; strategies = r.0 })

module _ {F D : Type 0} ⦃fx : Fixed D⦄ where
  -- `try_emplace`, then `update`.
  unfoldable pub update_book : StrategyContext F D → Tick D → StrategyContext F D
  unfolding V2.new V2.update
  update_book ctx tick =
      let book : OrderBookV2 D = elim (lookup tick.symbol_id ctx.order_books) [
        | none ↦ V2.new
        | some b ↦ b
      ] in
      record ctx { order_books = put tick.symbol_id (V2.update book tick) ctx.order_books }

module _ {S F D : Type 0} ⦃fx : Fixed D⦄ where
  unfoldable pub push_tick : StrategyEngine S F D → Tick D → Option (Bool × StrategyEngine S F D)
  unfolding try_push
  push_tick e tick = do
    r ← try_push queue_capacity e.tick_queue tick
    some (r.0, record e { tick_queue = r.1 })

  unfoldable pub push_fill : StrategyEngine S F D → Fill D → Option (Bool × StrategyEngine S F D)
  unfolding try_push
  push_fill e fill = do
    r ← try_push queue_capacity e.fill_queue fill
    some (r.0, record e { fill_queue = r.1 })

  unfoldable pub pop_order :
      StrategyEngine S F D → Option (Option (OrderRequest D) × StrategyEngine S F D)
  unfolding try_pop
  pop_order e = do
    r ← try_pop queue_capacity e.ctx.order_output
    some (r.0, record e { ctx = record e.ctx { order_output = r.1 } })

  unfoldable pub update_risk_parameters :
      (F → D) → StrategyEngine S F D → RiskParameters F → ℕ → StrategyEngine S F D
  unfolding update_parameters
  update_risk_parameters to_decimal e p now_us = record e {
    ctx = record e.ctx { risk_engine = update_parameters to_decimal e.ctx.risk_engine p now_us };
  }

  unfoldable pub set_capital : StrategyEngine S F D → D → StrategyEngine S F D
  unfolding set_available_capital
  set_capital e capital = record e {
    ctx = record e.ctx { risk_engine = set_available_capital e.ctx.risk_engine capital };
  }

module _ {S F D : Type 0} ⦃fx : Fixed D⦄ {n : ℕ} (code : Strategy S D n) where
  unfoldable pub register_strategy : StrategyEngine S F D → S → StrategyEngine S F D
  register_strategy e strategy =
      let syms = code.symbols strategy in
      let id = inc32 (length e.strategies % 2 ^ 32) in
      record e {
        strategies =
            e.strategies
            ++ (record {
              id = id;
              strategy = strategy;
              symbols = syms;
              is_wildcard = length syms == 0;
            }
                ∷ []);
        strategy_by_id = put id (length e.strategies) e.strategy_by_id;
      }

  -- A tick that was popped.
  unfoldable pub process_tick :
      StrategyEngine S F D
      → Tick D
      → (ℕ → ℕ → Clock)
      → (ℕ → ℕ → Clock)
      → Option (StrategyEngine S F D)
  unfolding update_book call_all
  process_tick e tick clock timer_clock = do
    e' ← call_all (subscribes tick.symbol_id) (code.on_tick tick) clock (record e {
      ticks_processed = inc64 e.ticks_processed;
      ctx = update_book (record e.ctx { timestamp_us = tick.receive_timestamp_us }) tick;
    })
    (if ltb timer_interval_us (sub64 tick.receive_timestamp_us e'.last_timer_us)
        then call_all (λ entry. true) (code.on_timer tick.receive_timestamp_us) timer_clock
            (record e' { last_timer_us = tick.receive_timestamp_us })
        else some e')

  -- A fill that was popped.
  unfoldable pub process_fill :
      StrategyEngine S F D → Fill D → (ℕ → Clock) → Option (StrategyEngine S F D)
  unfolding update_position call_entry
  process_fill e fill clock =
      let e' : StrategyEngine S F D = record e {
        fills_processed = inc64 e.fills_processed;
        ctx = record e.ctx {
          timestamp_us = fill.receive_timestamp_us;
          position_manager = (update_position e.ctx.position_manager fill).1;
        };
      } in
      elim (lookup fill.strategy_id e.strategy_by_id) [
        | none ↦ some e'
        | some place ↦ elim (get_elem? e.strategies place) [
          | none ↦ some e'
          | some entry ↦ do
            r ←
                exec clock (record e'.ctx { current_strategy_id = fill.strategy_id })
                  (code.on_fill fill entry.strategy)
            some (record e' {
              ctx = r.1;
              strategies = set e.strategies place (record entry { strategy = r.0 });
            })
        ]
      ]

  -- The timers of an idle turn.
  unfoldable pub run_idle : StrategyEngine S F D → Readings → Option (StrategyEngine S F D)
  unfolding call_all
  run_idle e now = elim now.idle_us [
    | none ↦ some e
    | some now_us ↦ call_all (λ entry. true) (code.on_timer now_us) now.idle_clock e
  ]

  -- The second part of a turn: a fill, or the timers where nothing was popped.
  unfoldable pub turn_fill : StrategyEngine S F D → Bool → Readings → Option (StrategyEngine S F D)
  unfolding try_pop process_fill run_idle
  turn_fill e did_work now = do
    filled ← try_pop queue_capacity e.fill_queue
    let e' : StrategyEngine S F D = record e { fill_queue = filled.1 }
    elim filled.0 [
      | some fill ↦ process_fill e' fill now.fill_clock
      | none ↦ if did_work then some e' else run_idle e' now
    ]

  -- One turn of the loop `run`.
  unfoldable pub turn : StrategyEngine S F D → Readings → Option (StrategyEngine S F D)
  unfolding try_pop process_tick turn_fill
  turn e now = do
    ticked ← try_pop queue_capacity e.tick_queue
    let e' : StrategyEngine S F D = record e { tick_queue = ticked.1 }
    elim ticked.0 [
      | none ↦ turn_fill e' false now
      | some tick ↦ do
        done ← process_tick e' tick now.tick_clock now.timer_clock
        turn_fill done true now
    ]

  -- `onLoad` or `onUnload` of all: the id of the context is left as it is.
  unfoldable load_each :
      (S → Program S D n)
      → (ℕ → ℕ → Clock)
      → StrategyContext F D
      → List (StrategyEntry S)
      → Option (List (StrategyEntry S) × StrategyContext F D)
  unfolding exec
  load_each callback clock ctx [] = some ([], ctx)
  load_each callback clock ctx (entry ∷ entries) = do
    r ← exec (clock entry.id) ctx (callback entry.strategy)
    rest ← load_each callback clock r.1 entries
    some (record entry { strategy = r.0 } ∷ rest.0, rest.1)

  -- `start`, up to the thread that it starts.
  unfoldable pub start : StrategyEngine S F D → (ℕ → ℕ → Clock) → Option (StrategyEngine S F D)
  unfolding load_each
  start e clock = if e.running then some e else (do
    r ← load_each code.on_load clock e.ctx e.strategies
    some (record e { ctx = r.1; strategies = r.0; running = true; last_timer_us = 0 }))

  unfoldable pub stop : StrategyEngine S F D → (ℕ → ℕ → Clock) → Option (StrategyEngine S F D)
  unfolding load_each
  stop e clock =
      if e.running
      then (do
        r ← load_each code.on_unload clock e.ctx e.strategies
        some (record e { ctx = r.1; strategies = r.0; running = false }))
      else some e
