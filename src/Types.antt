-- ===== src/Types.antt =====
-- include/chronos/core/types.hpp: the enumerations and the records that the components exchange.
-- Padding and `reserved` bytes are left out. `D` is the type of `Decimal`.
use libchronos.Base.{Bool, true, false, ℕ, List}

-- `enum class OrderSide`
pub data OrderSide : Type 0 where
  buy sell : OrderSide

-- `enum class TickSide`
pub data TickSide : Type 0 where
  bid ask trade : TickSide

-- `tick.side == TickSide::BID`
abbrev pub is_bid : TickSide → Bool
is_bid bid = true
is_bid _ = false

-- `enum class OrderType`
pub data OrderType : Type 0 where
  limit market stop_loss stop_limit : OrderType

-- `enum class TimeInForce`
pub data TimeInForce : Type 0 where
  gtc ioc fok day : TimeInForce

-- `enum class OrderStatus`
pub data OrderStatus : Type 0 where
  pending accepted rejected partially_filled filled cancelled expired : OrderStatus

-- `struct Tick`
pub record Tick (D : Type 0) : Type 0 where
  pub exchange_timestamp_us : ℕ
  pub receive_timestamp_us : ℕ
  pub exchange_id : ℕ
  pub symbol_id : ℕ
  pub price : D
  pub quantity : D
  pub side : TickSide
  pub flags : ℕ

-- `struct PriceLevel`
pub record PriceLevel (D : Type 0) : Type 0 where
  pub price : D
  pub quantity : D

-- `struct OrderBookSnapshot`
pub record OrderBookSnapshot (D : Type 0) : Type 0 where
  pub symbol_id : ℕ
  pub timestamp_us : ℕ
  pub bids : List (PriceLevel D)
  pub asks : List (PriceLevel D)

-- `struct OrderRequest`
pub record OrderRequest (D : Type 0) : Type 0 where
  pub order_id : ℕ
  pub timestamp_us : ℕ
  pub price : D
  pub quantity : D
  pub stop_price : D
  pub client_order_id : ℕ
  pub symbol_id : ℕ
  pub exchange_id : ℕ
  pub strategy_id : ℕ
  pub side : OrderSide
  pub type : OrderType
  pub tif : TimeInForce
  pub strategy_flags : ℕ

-- `struct Fill`
pub record Fill (D : Type 0) : Type 0 where
  pub execution_id : ℕ
  pub fill_id : ℕ
  pub order_id : ℕ
  pub exchange_timestamp_us : ℕ
  pub receive_timestamp_us : ℕ
  pub fill_price : D
  pub fill_quantity : D
  pub symbol_id : ℕ
  pub exchange_id : ℕ
  pub strategy_id : ℕ
  pub side : OrderSide
  pub is_maker : ℕ

-- `struct OrderAck`
pub record OrderAck : Type 0 where
  pub order_id : ℕ
  pub exchange_order_id : ℕ
  pub status : OrderStatus
  pub timestamp_us : ℕ

-- `struct OrderReject`; its text is not read.
pub record OrderReject : Type 0 where
  pub order_id : ℕ
  pub timestamp_us : ℕ

-- `struct Position`
pub record Position (D : Type 0) : Type 0 where
  pub symbol_id : ℕ
  pub quantity : D
  pub average_price : D
  pub realized_pnl : D
  pub last_update_us : ℕ
