-- ===== src/Gateway.antt =====
-- `class OrderGateway`: include/chronos/execution/order_gateway.hpp,
-- src/execution/order_gateway.cpp. A method is one step of the I/O thread; the clock it reads is an
-- argument. The HTTP client and the JSON parser are the parameter `Exchange`. The calls of the
-- fill callback are kept in the order in which they were made. The wire messages of the stub
-- encoders, which always succeed and which nothing reads, are left out.
pub mod Inject
pub mod Process
pub mod Lifecycle
pub mod Tracked
pub mod Drain
pub mod Shutdown
pub mod Simulated
pub mod Tests
use libchronos.Base.{
  ℕ, ◌+◌, ◌-◌, ◌*◌, ◌/◌, ◌%◌, ◌^◌, Bool, false, ◌&&◌, ◌||◌, Option, none, some, List, [], ◌∷◌,
  if◌then◌else◌, ltb, ◌==◌, lookup, put, remove, length, get_or,
}
use libchronos.Base.Words.{inc64, sub64}
use libchronos.Types.{OrderRequest, OrderSide, OrderType, OrderStatus, Fill}

-- `struct PendingOrder`
pub record PendingOrder (D : Type 0) : Type 0 where
  pub order_id : ℕ
  pub client_order_id : ℕ
  pub submit_timestamp_us : ℕ
  pub symbol_id : ℕ
  pub exchange_id : ℕ
  pub strategy_id : ℕ
  pub side : OrderSide
  pub type : OrderType
  pub status : OrderStatus
  pub original_price : D
  pub original_quantity : D
  pub filled_quantity : D
  pub last_update_us : ℕ

-- `struct OrderGatewayStats`
pub record OrderGatewayStats : Type 0 where
  pub orders_received : ℕ
  pub orders_sent : ℕ
  pub orders_rejected : ℕ
  pub orders_cancelled : ℕ
  pub orders_modified : ℕ
  pub fills_received : ℕ
  pub fill_errors : ℕ
  pub exchange_id_mismatch : ℕ
  pub queue_empty_polls : ℕ
  pub pending_order_count : ℕ
  pub avg_send_latency_us : ℕ

abbrev pub no_stats : OrderGatewayStats
no_stats = record {
  orders_received = 0;
  orders_sent = 0;
  orders_rejected = 0;
  orders_cancelled = 0;
  orders_modified = 0;
  fills_received = 0;
  fill_errors = 0;
  exchange_id_mismatch = 0;
  queue_empty_polls = 0;
  pending_order_count = 0;
  avg_send_latency_us = 0;
}

-- `clientOrderId`: the text is the order id and the time, joined by "_".
abbrev pub ClientOrderId : Type 0
ClientOrderId = ℕ × ℕ

-- What `placeOrder` and the JSON parser give: no response, one that cannot be parsed, or the id at
-- the exchange and the update time.
pub data PlaceResult : Type 0 where
  failed : PlaceResult
  unreadable : PlaceResult
  placed : ℕ → ℕ → PlaceResult

-- The exchange that a gateway with `http_client_` talks to.
abbrev pub Exchange : Type 0 → Type 0
Exchange D = OrderRequest D → ClientOrderId → PlaceResult

-- `symbols` tells which names of `config_.symbols` are not empty.
pub record OrderGateway (D : Type 0) : Type 0 where
  pub running : Bool
  pub exchange_id : ℕ
  pub symbols : List Bool
  pub simulate_fills : Bool
  pub has_callback : Bool
  pub http_client : Option (Exchange D)
  pub pending_orders : List (ℕ × PendingOrder D)
  pub exchange_to_local : List (ℕ × ℕ)
  pub client_id_to_local : List (ClientOrderId × ℕ)
  pub stats : OrderGatewayStats
  pub avg_send_latency_us : ℕ
  pub delivered : List (Fill D)

-- What the steady clock shows: when the step starts, and at its later readings.
pub record Clock : Type 0 where
  pub send_time : ℕ
  pub later : ℕ

-- `client_id_to_local_.find`; the latest assignment stands first.
unfoldable pub lookup_client : ClientOrderId → List (ClientOrderId × ℕ) → Option ℕ
lookup_client c [] = none
lookup_client c ((k, id) ∷ m) = if k.0 == c.0 && k.1 == c.1 then some id else lookup_client c m

module _ {D : Type 0} where
  abbrev pub received : OrderGateway D → OrderGateway D
  received g = record g {
    stats = record g.stats { orders_received = inc64 g.stats.orders_received };
  }

  abbrev pub mismatched : OrderGateway D → OrderGateway D
  mismatched g = record g {
    stats = record g.stats { exchange_id_mismatch = inc64 g.stats.exchange_id_mismatch };
  }

  abbrev pub rejected : OrderGateway D → OrderGateway D
  rejected g = record g {
    stats = record g.stats { orders_rejected = inc64 g.stats.orders_rejected };
  }

  abbrev pub cancelled : OrderGateway D → OrderGateway D
  cancelled g = record g {
    stats = record g.stats { orders_cancelled = inc64 g.stats.orders_cancelled };
  }

  abbrev pub modified : OrderGateway D → OrderGateway D
  modified g = record g {
    stats = record g.stats { orders_modified = inc64 g.stats.orders_modified };
  }

  abbrev pub sent : OrderGateway D → OrderGateway D
  sent g = record g { stats = record g.stats { orders_sent = inc64 g.stats.orders_sent } }

  -- `!simulate_fills_ && http_client_`
  abbrev pub real_client : OrderGateway D → Option (Exchange D)
  real_client g = if g.simulate_fills then none else g.http_client

  -- `symbolIdToName` gives a text that is not empty.
  unfoldable pub has_symbol : OrderGateway D → ℕ → Bool
  has_symbol g symbol_id =
      if symbol_id == 0 || ltb (length g.symbols) symbol_id
      then false
      else get_or g.symbols (symbol_id - 1) false

  -- `simulateSend`
  unfoldable pub simulate_send : OrderGateway D → Clock → OrderGateway D
  simulate_send g clock =
      let elapsed = sub64 clock.later clock.send_time in
      record g {
        avg_send_latency_us =
            if g.avg_send_latency_us == 0
            then elapsed
            else ((g.avg_send_latency_us * 7 + elapsed) % 2 ^ 64) / 8;
      }

  unfoldable pub find_pending : OrderGateway D → ℕ → Option (PendingOrder D)
  find_pending g order_id = lookup order_id g.pending_orders

  abbrev pub store_pending : OrderGateway D → ℕ → PendingOrder D → OrderGateway D
  store_pending g id po = record g { pending_orders = put id po g.pending_orders }

  -- `finalizeOrder`
  abbrev pub finalize_order : OrderGateway D → ℕ → OrderGateway D
  finalize_order g id = record g { pending_orders = remove id g.pending_orders }

  -- `exchange_to_local_.find`, then `pending_orders_.find`, when the id is not pending itself.
  unfoldable pub resolve_fill : OrderGateway D → ℕ → Option (ℕ × PendingOrder D)
  unfolding find_pending
  resolve_fill g id = elim (find_pending g id) [
    | some po ↦ some (id, po)
    | none ↦ elim (lookup id g.exchange_to_local) [
      | none ↦ none
      | some local ↦ elim (find_pending g local) [ none ↦ none | some po ↦ some (local, po) ]
    ]
  ]

  unfoldable pub resolve_by_client_order_id : OrderGateway D → ClientOrderId → ℕ
  unfolding lookup_client
  resolve_by_client_order_id g c = elim (lookup_client c g.client_id_to_local) [
    | none ↦ 0
    | some id ↦ id
  ]

  unfoldable pub pending_count : OrderGateway D → ℕ
  pending_count g = length g.pending_orders

  unfoldable pub get_stats : OrderGateway D → OrderGatewayStats
  get_stats g = record g.stats {
    pending_order_count = length g.pending_orders;
    avg_send_latency_us = g.avg_send_latency_us;
  }

  unfoldable pub reset_stats : OrderGateway D → OrderGateway D
  reset_stats g = record g { stats = no_stats; avg_send_latency_us = 0 }
