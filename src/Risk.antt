-- ===== src/Risk.antt =====
-- `class RiskEngine`: include/chronos/risk/risk_engine.hpp, src/risk/risk_engine.cpp. A method is
-- one step; the clock it reads is an argument. Doubles are the parameter `F`, with `toDecimal` as
-- the function `to_decimal`; the PositionManager that the engine refers to is an argument.
pub mod Check
pub mod Decision
pub mod Rate
pub mod Counts
pub mod Limit
pub mod Params
pub mod Tests
use libchronos.Base.{
  ℕ, zero, suc, ◌/◌, ◌%◌, ◌^◌, Bool, true, false, Option, none, some, if◌then◌else◌, ltb, ◌==◌,
}
use libchronos.Base.Int.{ℤ}
use libchronos.Base.Words.{inc64, inc32}

-- `struct RiskParameters` (include/chronos/core/config.hpp)
pub record RiskParameters (F : Type 0) : Type 0 where
  pub max_order_value : F
  pub max_position_value : F
  pub max_orders_per_second : ℕ
  pub max_total_position_value : F
  pub min_available_capital : F
  pub max_drawdown_percent : F

-- The texts of the rejections, and the words that `updateStats` looks for in them.
pub data RejectionReason : Type 0 where
  order_value_exceeds_limit : RejectionReason
  rate_limit_exceeded : RejectionReason
  position_value_for_symbol : ℕ → RejectionReason
  total_position_value_exceeds_limit : RejectionReason
  insufficient_available_capital : RejectionReason

pub data Keyword : Type 0 where
  word_rate_limit : Keyword
  word_order_value : Keyword
  word_position : Keyword
  word_total_position : Keyword
  word_capital : Keyword
  word_capital_upper : Keyword

-- `reason.find(word) != npos`, on the texts as they are spelled: "Total position value exceeds
-- limit" does not contain "Position".
unfoldable pub mentions : RejectionReason → Keyword → Bool
mentions order_value_exceeds_limit word_order_value = true
mentions rate_limit_exceeded word_rate_limit = true
mentions (position_value_for_symbol s) word_position = true
mentions total_position_value_exceeds_limit word_total_position = true
mentions insufficient_available_capital word_capital = true
mentions _ _ = false

-- `struct RiskCheckResult`; no reason is the empty string.
pub record RiskCheckResult : Type 0 where
  pub passed : Bool
  pub rejection_reason : Option RejectionReason
  pub check_timestamp_us : ℕ

abbrev pub accept : RiskCheckResult
accept = record { passed = true; rejection_reason = none; check_timestamp_us = 0 }

abbrev pub reject : RejectionReason → RiskCheckResult
reject reason = record { passed = false; rejection_reason = some reason; check_timestamp_us = 0 }

-- `struct Statistics`
pub record Statistics : Type 0 where
  pub total_checks : ℕ
  pub accepted : ℕ
  pub rejected : ℕ
  pub rate_limit_rejects : ℕ
  pub order_value_rejects : ℕ
  pub position_limit_rejects : ℕ
  pub total_position_rejects : ℕ
  pub capital_rejects : ℕ
  pub avg_check_latency : ℕ

abbrev pub no_statistics : Statistics
no_statistics = record {
  total_checks = 0;
  accepted = 0;
  rejected = 0;
  rate_limit_rejects = 0;
  order_value_rejects = 0;
  position_limit_rejects = 0;
  total_position_rejects = 0;
  capital_rejects = 0;
  avg_check_latency = 0;
}

-- `struct HotParams`
pub record HotParams (D : Type 0) : Type 0 where
  pub max_order_value : D
  pub max_position_value : D
  pub max_total_position_value : D
  pub min_available_capital : D
  pub max_orders_per_second : ℕ
  pub version : ℕ

-- `struct ColdParams`
pub record ColdParams (F D : Type 0) : Type 0 where
  pub params : RiskParameters F
  pub hot : HotParams D
  pub update_time_us : ℕ

pub record RiskEngine (F D : Type 0) : Type 0 where
  pub hot_params : HotParams D
  pub cold_buffer_0 : ColdParams F D
  pub cold_buffer_1 : ColdParams F D
  pub active_cold : ℕ
  pub write_idx : ℕ
  pub current_second : ℕ
  pub orders_this_second : ℕ
  pub available_capital_raw : ℤ
  pub stats : Statistics

-- `memcpy(&to, &from, offsetof(HotParams, version))`
abbrev pub copy_hot : {D : Type 0} → HotParams D → HotParams D → HotParams D
copy_hot to from = record from { version = to.version }

-- `readHotParamsOptimistic` with no writer at work: `retries` attempts, then the fallback.
unfoldable pub read_hot_params : {D : Type 0} → ℕ → HotParams D → HotParams D
read_hot_params zero hp = hp
read_hot_params (suc retries) hp =
    let again = read_hot_params retries hp in if hp.version % 2 == 1 then again else hp

module _ {F D : Type 0} where
  -- `cold_buffers_[i]`
  abbrev pub get_buffer : RiskEngine F D → ℕ → ColdParams F D
  get_buffer e i = if i == 0 then e.cold_buffer_0 else e.cold_buffer_1

  abbrev pub put_buffer : RiskEngine F D → ℕ → ColdParams F D → RiskEngine F D
  put_buffer e i c =
      if i == 0 then record e { cold_buffer_0 = c } else record e { cold_buffer_1 = c }

  abbrev pub build_hot : (F → D) → ColdParams F D → ColdParams F D
  build_hot to_decimal c = record c {
    hot = record {
      max_order_value = to_decimal c.params.max_order_value;
      max_position_value = to_decimal c.params.max_position_value;
      max_total_position_value = to_decimal c.params.max_total_position_value;
      min_available_capital = to_decimal c.params.min_available_capital;
      max_orders_per_second = c.params.max_orders_per_second;
      version = c.hot.version;
    };
  }

  -- `swapColdBuffers`
  unfoldable pub swap_cold_buffers : RiskEngine F D → RiskEngine F D
  swap_cold_buffers e =
      let next = if e.write_idx == 0 then 1 else 0 in
      let c = get_buffer e next in
      put_buffer (record e { active_cold = e.write_idx; write_idx = next }) next
        (record c { hot = copy_hot c.hot e.hot_params })

  -- `publishParams`
  unfoldable pub publish_params : (F → D) → RiskEngine F D → RiskEngine F D
  unfolding swap_cold_buffers
  publish_params to_decimal e =
      let built = build_hot to_decimal (get_buffer e e.write_idx) in
      let dark = record built { hot = record built.hot { version = inc64 e.hot_params.version } } in
      let hot = record e.hot_params { version = inc64 e.hot_params.version } in
      let copied = copy_hot hot dark.hot in
      swap_cold_buffers (record (put_buffer e e.write_idx dark) {
        hot_params = record copied { version = inc64 copied.version };
      })

  -- `updateParameters`
  unfoldable pub update_parameters :
      (F → D) → RiskEngine F D → RiskParameters F → ℕ → RiskEngine F D
  unfolding publish_params
  update_parameters to_decimal e params now_us = publish_params to_decimal (
      put_buffer e e.write_idx
        (record (get_buffer e e.write_idx) { params = params; update_time_us = now_us }))

  unfoldable pub get_parameters : RiskEngine F D → RiskParameters F
  get_parameters e = (get_buffer e e.active_cold).params

  -- `checkRateLimitInternal`; `now_us` is what the system clock shows.
  unfoldable pub check_rate_limit : RiskEngine F D → ℕ → Bool × RiskEngine F D
  unfolding read_hot_params
  check_rate_limit e now_us =
      let now_sec = now_us / 1000000 % 2 ^ 32 in
      let fresh =
        if e.current_second == now_sec
        then e
        else record e { current_second = now_sec; orders_this_second = 0 } in
      let max_ops = (read_hot_params 100 e.hot_params).max_orders_per_second in
      (
        ltb fresh.orders_this_second max_ops,
        record fresh { orders_this_second = inc32 fresh.orders_this_second },
      )
