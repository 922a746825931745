-- ===== src/Engine/Program.antt =====
-- What the code of a strategy does with the context: the interface `Strategy` of
-- include/chronos/trading/strategy.hpp. A callback calls the context at most `n` times, and gives the
-- new state of the strategy; what it computes itself is not seen.
use libchronos.Base.{ℕ, suc, Bool, Option, some, List, ◌>>=◌}
use libchronos.Decimal.{Fixed}
use libchronos.Types.{OrderRequest, Tick, Fill, PriceLevel, Position}
use libchronos.Positions.{get_position}
use libchronos.Risk.Check.{Clock, get_available_capital}
use libchronos.Engine.{
  StrategyContext, best_bid, best_ask, mid_price, top5_bids, top5_asks, submit_order, cancel_order,
}

pub data Program (S D : Type 0) : ℕ → Type 0 where
  finish : {n : ℕ} → S → Program S D n
  submit : {n : ℕ} → OrderRequest D → (ℕ → Program S D n) → Program S D (suc n)
  cancel : {n : ℕ} → ℕ → (Bool → Program S D n) → Program S D (suc n)
  read_bid : {n : ℕ} → ℕ → (Option D → Program S D n) → Program S D (suc n)
  read_ask : {n : ℕ} → ℕ → (Option D → Program S D n) → Program S D (suc n)
  read_mid : {n : ℕ} → ℕ → (Option D → Program S D n) → Program S D (suc n)
  read_bids : {n : ℕ} → ℕ → (List (PriceLevel D) → Program S D n) → Program S D (suc n)
  read_asks : {n : ℕ} → ℕ → (List (PriceLevel D) → Program S D n) → Program S D (suc n)
  read_position : {n : ℕ} → ℕ → (Option (Position D) → Program S D n) → Program S D (suc n)
  read_capital : {n : ℕ} → (D → Program S D n) → Program S D (suc n)
  read_time : {n : ℕ} → (ℕ → Program S D n) → Program S D (suc n)

-- `class Strategy`, the same code for all; strategies that differ do so in their states.
pub record Strategy (S D : Type 0) (n : ℕ) : Type 0 where
  pub symbols : S → List ℕ
  pub on_load : S → Program S D n
  pub on_unload : S → Program S D n
  pub on_tick : Tick D → S → Program S D n
  pub on_fill : Fill D → S → Program S D n
  pub on_timer : ℕ → S → Program S D n

module _ {S F D : Type 0} ⦃fx : Fixed D⦄ (clock : ℕ → Clock) where
  -- A callback at work. `clock k` is what a check reads that has `k` calls after it.
  unfoldable pub exec :
      {n : ℕ} → StrategyContext F D → Program S D n → Option (S × StrategyContext F D)
  unfolding submit_order cancel_order best_bid best_ask mid_price top5_bids top5_asks get_position
      get_available_capital
  exec ctx (finish s) = some (s, ctx)
  exec ctx (submit {n} order next) = do r ← submit_order ctx order (clock n); exec r.1 (next r.0)
  exec ctx (cancel order_id next) = do r ← cancel_order ctx order_id; exec r.1 (next r.0)
  exec ctx (read_bid symbol_id next) = do p ← best_bid ctx symbol_id; exec ctx (next p)
  exec ctx (read_ask symbol_id next) = do p ← best_ask ctx symbol_id; exec ctx (next p)
  exec ctx (read_mid symbol_id next) = do p ← mid_price ctx symbol_id; exec ctx (next p)
  exec ctx (read_bids symbol_id next) = do l ← top5_bids ctx symbol_id; exec ctx (next l)
  exec ctx (read_asks symbol_id next) = do l ← top5_asks ctx symbol_id; exec ctx (next l)
  exec ctx (read_position symbol_id next) =
      exec ctx (next (get_position ctx.position_manager symbol_id))
  exec ctx (read_capital next) = exec ctx (next (get_available_capital ctx.risk_engine))
  exec ctx (read_time next) = exec ctx (next ctx.timestamp_us)
