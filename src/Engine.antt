-- ===== src/Engine.antt =====
-- `StrategyContext` and `OrderIDGenerator`: include/chronos/trading/strategy.hpp,
-- include/chronos/trading/order_id_generator.hpp, src/trading/strategy_engine.cpp. The context refers
-- to parts of the engine; here it holds them. One thread calls it, so each call is one step; what the
-- risk engine reads from the clocks is the argument `clock`.
pub mod Program
pub mod Dispatch
pub mod Submit
pub mod Returns
pub mod Live
pub mod Events
pub mod Loop
pub mod Cancel
pub mod Routing
mod Tests
use libchronos.Base.{ℕ, Bool, Option, none, some, List, replicate, if◌then◌else◌, lookup, ◌>>=◌}
use libchronos.Base.Words.{inc64}
use libchronos.Decimal.{Fixed}
use libchronos.Types.{OrderRequest, OrderSide, OrderType, TimeInForce, PriceLevel}
use libchronos.Book.Levels.{empty_level}
use libchronos.Book.V2.{OrderBookV2}
use libchronos.Book.V2.Read.{
  get_best_bid, get_best_ask, get_mid_price, get_top5_bids, get_top5_asks,
}
use libchronos.Positions.{PositionManager, nought}
use libchronos.Risk.{RiskEngine}
use libchronos.Risk.Check.{Clock, check_order}
use libchronos.Queue.{MpmcQueue, try_push}

-- `OrderIDGenerator`: the next id; 0 stands for no order.
abbrev pub first_id : ℕ
first_id = 1

-- `generate`: the id, and the next one.
abbrev pub generate : ℕ → ℕ × ℕ
generate current_id = (current_id, inc64 current_id)

-- The capacity of `OrderQueue`, `TickQueue` and `FillQueue`.
abbrev pub queue_capacity : ℕ
queue_capacity = 1024

pub record StrategyContext (F D : Type 0) : Type 0 where
  pub order_books : List (ℕ × OrderBookV2 D)
  pub risk_engine : RiskEngine F D
  pub position_manager : PositionManager D
  pub order_id_gen : ℕ
  pub order_output : MpmcQueue (OrderRequest D)
  pub orders_submitted : ℕ
  pub orders_risk_rejected : ℕ
  pub orders_queue_dropped : ℕ
  pub timestamp_us : ℕ
  pub current_strategy_id : ℕ

module _ {D : Type 0} ⦃fx : Fixed D⦄ where
  -- `OrderRequest()`
  abbrev pub default_order : OrderRequest D
  default_order = record {
    order_id = 0;
    timestamp_us = 0;
    price = nought;
    quantity = nought;
    stop_price = nought;
    client_order_id = 0;
    symbol_id = 0;
    exchange_id = 0;
    strategy_id = 0;
    side = OrderSide.buy;
    type = OrderType.limit;
    tif = TimeInForce.gtc;
    strategy_flags = 0;
  }

  -- The request that `cancelOrder` pushes.
  abbrev pub cancel_request : ℕ → ℕ → OrderRequest D
  cancel_request order_id timestamp_us = record default_order {
    order_id = order_id;
    quantity = nought;
    timestamp_us = timestamp_us;
  }

module _ {F D : Type 0} ⦃fx : Fixed D⦄ where
  -- What a reader gives of a book, or `absent` where the symbol has none; `none` where the reader
  -- does not end.
  abbrev pub of_book :
      {R : Type 0} → StrategyContext F D → ℕ → R → (OrderBookV2 D → Option R) → Option R
  of_book ctx symbol_id absent reader = elim (lookup symbol_id ctx.order_books) [
    | none ↦ some absent
    | some book ↦ reader book
  ]

  unfoldable pub best_bid : StrategyContext F D → ℕ → Option (Option D)
  unfolding get_best_bid lookup
  best_bid ctx symbol_id = of_book ctx symbol_id none get_best_bid

  unfoldable pub best_ask : StrategyContext F D → ℕ → Option (Option D)
  unfolding get_best_ask lookup
  best_ask ctx symbol_id = of_book ctx symbol_id none get_best_ask

  unfoldable pub mid_price : StrategyContext F D → ℕ → Option (Option D)
  unfolding get_mid_price lookup
  mid_price ctx symbol_id = of_book ctx symbol_id none get_mid_price

  unfoldable pub top5_bids : StrategyContext F D → ℕ → Option (List (PriceLevel D))
  unfolding get_top5_bids lookup
  top5_bids ctx symbol_id = of_book ctx symbol_id (replicate 5 empty_level) get_top5_bids

  unfoldable pub top5_asks : StrategyContext F D → ℕ → Option (List (PriceLevel D))
  unfolding get_top5_asks lookup
  top5_asks ctx symbol_id = of_book ctx symbol_id (replicate 5 empty_level) get_top5_asks

  -- The order as it is queued.
  abbrev pub validated : StrategyContext F D → OrderRequest D → OrderRequest D
  validated ctx order = record order {
    order_id = (generate ctx.order_id_gen).0;
    timestamp_us = ctx.timestamp_us;
    strategy_id = ctx.current_strategy_id;
  }

  -- `submitOrder`: the id, or 0. Like the queue it gives `none` where it would not end.
  unfoldable pub submit_order :
      StrategyContext F D → OrderRequest D → Clock → Option (ℕ × StrategyContext F D)
  unfolding check_order try_push
  submit_order ctx order clock =
      let checked = check_order ctx.position_manager ctx.risk_engine order clock in
      let ctx' : StrategyContext F D = record ctx { risk_engine = checked.1 } in
      if checked.0.passed
      then (do
        pushed ← try_push queue_capacity ctx.order_output (validated ctx order)
        let taken : StrategyContext F D = record ctx' {
          order_id_gen = (generate ctx.order_id_gen).1;
          order_output = pushed.1;
        }
        some (
            if pushed.0
            then (
              (generate ctx.order_id_gen).0,
              record taken { orders_submitted = inc64 ctx.orders_submitted },
            )
            else (0, record taken { orders_queue_dropped = inc64 ctx.orders_queue_dropped })))
      else some (0, record ctx' { orders_risk_rejected = inc64 ctx.orders_risk_rejected })

  unfoldable pub cancel_order : StrategyContext F D → ℕ → Option (Bool × StrategyContext F D)
  unfolding try_push
  cancel_order ctx order_id = do
    pushed ← try_push queue_capacity ctx.order_output (cancel_request order_id ctx.timestamp_us)
    some (pushed.0, record ctx { order_output = pushed.1 })
