-- ===== src/Risk/Check.antt =====
-- `RiskEngine::checkOrder`, the statistics, the capital and the constructor.
use libchronos.Base.{
  ℕ, ◌+◌, ◌*◌, ◌/◌, true, not, ◌&&◌, ◌||◌, Option, none, some, if◌then◌else◌, ◌==◌,
}
use libchronos.Base.Int.{pos}
use libchronos.Base.Words.{inc64}
use libchronos.Decimal.{Fixed}
use libchronos.Types.{OrderRequest, OrderSide, Position}
use libchronos.Positions.{PositionManager, get_position, get_total_value_cached, nought, abs}
use libchronos.Risk.{
  RiskParameters, RejectionReason, Keyword, mentions, RiskCheckResult, accept, reject, Statistics,
  no_statistics, HotParams, ColdParams, RiskEngine, copy_hot, read_hot_params, build_hot,
  check_rate_limit, order_value_exceeds_limit, rate_limit_exceeded, position_value_for_symbol,
  total_position_value_exceeds_limit, insufficient_available_capital,
}

-- `updateStats`: the counters, by the words found in the reason.
unfoldable pub count_reject : RejectionReason → Statistics → Statistics
unfolding mentions
count_reject reason s =
    if mentions reason Keyword.word_rate_limit
    then record s { rate_limit_rejects = inc64 s.rate_limit_rejects }
    else if mentions reason Keyword.word_order_value
    then record s { order_value_rejects = inc64 s.order_value_rejects }
    else if mentions reason Keyword.word_position
    then record s { position_limit_rejects = inc64 s.position_limit_rejects }
    else if mentions reason Keyword.word_total_position
    then record s { total_position_rejects = inc64 s.total_position_rejects }
    else if mentions reason Keyword.word_capital || mentions reason Keyword.word_capital_upper
    then record s { capital_rejects = inc64 s.capital_rejects }
    else s

-- The moving average of the latency.
abbrev pub average_latency : ℕ → ℕ → ℕ
average_latency avg latency_ns = if avg == 0 then latency_ns else (avg * 7 + latency_ns) / 8

unfoldable pub update_stats : RiskCheckResult → ℕ → Statistics → Statistics
unfolding count_reject
update_stats result latency_ns s =
    let total = record s { total_checks = inc64 s.total_checks } in
    let counted =
      if result.passed
      then record total { accepted = inc64 total.accepted }
      else (let rejected = record total { rejected = inc64 total.rejected } in
          elim result.rejection_reason [
            | none ↦ rejected
            | some reason ↦ count_reject reason rejected
          ]) in
    record counted { avg_check_latency = average_latency counted.avg_check_latency latency_ns }

-- `getStatistics` and `resetStatistics`
module _ {F D : Type 0} where
  unfoldable pub get_statistics : RiskEngine F D → Statistics
  get_statistics e = e.stats

  unfoldable pub reset_statistics : RiskEngine F D → RiskEngine F D
  reset_statistics e = record e { stats = no_statistics }

-- What `checkOrder` reads from the clocks: the time of the check, the time of the rate limit, and
-- how long it took.
pub record Clock : Type 0 where
  pub check_us : ℕ
  pub rate_us : ℕ
  pub latency_ns : ℕ

module _ {D : Type 0} ⦃fx : Fixed D⦄ where
  -- The members of HotParams as they are declared.
  abbrev pub default_hot : HotParams D
  default_hot = record {
    max_order_value = nought;
    max_position_value = nought;
    max_total_position_value = nought;
    min_available_capital = nought;
    max_orders_per_second = 100;
    version = 0;
  }

  abbrev pub order_value_abs : OrderRequest D → D
  order_value_abs order = abs (fx.mul order.price order.quantity)

  abbrev pub existing_qty : Option (Position D) → D
  existing_qty none = nought
  existing_qty (some p) = p.quantity

  abbrev pub signed_qty : OrderRequest D → D
  signed_qty order = elim order.side [ OrderSide.sell ↦ fx.neg order.quantity | _ ↦ order.quantity ]

  -- The value of the symbol's position, once the order is filled.
  unfoldable pub projected_value : PositionManager D → OrderRequest D → D
  unfolding get_position
  projected_value m order =
      fx.mul (abs (fx.add (existing_qty (get_position m order.symbol_id)) (signed_qty order)))
        order.price

module _ {F D : Type 0} ⦃fx : Fixed D⦄ where
  unfoldable pub check_order :
      PositionManager D → RiskEngine F D → OrderRequest D → Clock → RiskCheckResult × RiskEngine F D
  unfolding check_rate_limit projected_value update_stats get_total_value_cached read_hot_params
  check_order m e order clock =
      let info = read_hot_params 100 e.hot_params in
      let start = record accept { check_timestamp_us = clock.check_us } in
      let valued =
        if fx.gt (order_value_abs order) info.max_order_value
        then reject order_value_exceeds_limit
        else start in
      let rate = if valued.passed then check_rate_limit e clock.rate_us else (true, e) in
      let limited = if valued.passed && not rate.0 then reject rate_limit_exceeded else valued in
      let positioned =
        if limited.passed && fx.gt (projected_value m order) info.max_position_value
        then reject (position_value_for_symbol order.symbol_id)
        else limited in
      let totalled =
        if positioned.passed && fx.gt (get_total_value_cached m) info.max_total_position_value
        then reject total_position_value_exceeds_limit
        else positioned in
      let remaining = fx.sub (fx.from_raw_value e.available_capital_raw) (order_value_abs order) in
      let result =
        if totalled.passed && fx.lt remaining info.min_available_capital
        then reject insufficient_available_capital
        else totalled in
      (result, record rate.1 { stats = update_stats result clock.latency_ns rate.1.stats })

  unfoldable pub set_available_capital : RiskEngine F D → D → RiskEngine F D
  set_available_capital e capital = record e { available_capital_raw = fx.raw_value capital }

  unfoldable pub get_available_capital : RiskEngine F D → D
  get_available_capital e = fx.from_raw_value e.available_capital_raw

  -- The constructor, from the default parameters and what the members hold before it runs.
  unfoldable pub new : (F → D) → RiskParameters F → RiskEngine F D
  unfolding set_available_capital
  new to_decimal defaults =
      let buf : ColdParams F D =
        build_hot to_decimal
          (record { params = defaults; hot = default_hot; update_time_us = 0 }) in
      set_available_capital
        (record {
          hot_params = record (copy_hot default_hot buf.hot) { version = 0 };
          cold_buffer_0 = buf;
          cold_buffer_1 = buf;
          active_cold = 0;
          write_idx = 1;
          current_second = 0;
          orders_this_second = 0;
          available_capital_raw = pos 0;
          stats = no_statistics;
        })
        (to_decimal defaults.max_total_position_value)
