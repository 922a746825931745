-- ===== src/Risk/Tests.antt =====
-- The theorems of the risk engine at concrete orders.
use libchronos.Base.{ℕ, ◌≡◌, refl, List, [], ◌∷◌, min, arith, true, false}
use libchronos.Base.Int.{ℤ, pos, ◌+ℤ◌, ◌-ℤ◌, ◌*ℤ◌, -ℤ◌}
use libchronos.Decimal.Sample.{raw_fixed, raw_IsFixed, whole}
use libchronos.Types.{OrderRequest, OrderSide, OrderType, TimeInForce}
use libchronos.Positions.{
  PositionManager, get_position, update_position, find, abs, get_total_value_cached,
}
use libchronos.Positions.Ledger.{net, signed_raw, IsSmallRaw}
use libchronos.Risk.Limit.{fill_of, check_order-limits}
use libchronos.Risk.{RiskParameters, RiskEngine, get_parameters, check_rate_limit, read_hot_params}
use libchronos.Risk.Check.{
  Clock, new, check_order, projected_value, existing_qty, set_available_capital,
}
use libchronos.Risk.Decision.{first_failure, checks, is_none, check_order-first_failure}
use libchronos.Risk.Rate.{InSecond, count, passes, check_rate_limit-passes}
use libchronos.Risk.Counts.{IsCounted, check_all, check_all-IsCounted}
use libchronos.Risk.Params.{update_all, last_params, Converts, update_all-published}

-- Parameters with whole numbers for doubles.
abbrev params : ℕ → RiskParameters ℕ
params rate = record {
  max_order_value = 1000;
  max_position_value = 5000;
  max_orders_per_second = rate;
  max_total_position_value = 9000;
  min_available_capital = 100;
  max_drawdown_percent = 20;
}

abbrev engine : RiskEngine ℕ ℤ
engine = new whole (params 2)

abbrev manager : PositionManager ℤ
manager = record { positions = []; total_value_raw = pos 0 }

abbrev buy : ℕ → OrderRequest ℤ
buy quantity = record {
  order_id = 1;
  timestamp_us = 5;
  price = whole 100;
  quantity = whole quantity;
  stop_price = whole 0;
  client_order_id = 1;
  symbol_id = 7;
  exchange_id = 1;
  strategy_id = 3;
  side = OrderSide.buy;
  type = OrderType.limit;
  tif = TimeInForce.gtc;
  strategy_flags = 0;
}

abbrev clock : Clock
clock = record { check_us = 3000000; rate_us = 3000001; latency_ns = 400 }

check_order-first_failure_example :
    ((check_order manager engine (buy 11) clock).0.rejection_reason
      ≡ first_failure (checks manager engine (buy 11) clock))
    × ((check_order manager engine (buy 11) clock).0.passed
        ≡ is_none (first_failure (checks manager engine (buy 11) clock)))
check_order-first_failure_example = check_order-first_failure manager engine (buy 11) clock

abbrev times : List ℕ
times = 3000000 ∷ 3000001 ∷ 3000002 ∷ []

times-InSecond : InSecond 3 times
unfolding InSecond
times-InSecond = (refl, (refl, (refl, tt)))

engine-second : ¬ (engine.current_second ≡ 3)
unfolding new
engine-second = omega arith

engine-IsCounted : IsCounted engine.stats
unfolding new
engine-IsCounted = (refl, refl)

check_rate_limit-passes_example :
    passes engine times ≡ min (count times) engine.hot_params.max_orders_per_second
check_rate_limit-passes_example =
    check_rate_limit-passes engine 3 times times-InSecond engine-second (omega arith)

check_all-IsCounted_example :
    IsCounted (check_all engine ((manager, buy 11, clock) ∷ (manager, buy 2, clock) ∷ [])).stats
check_all-IsCounted_example =
    check_all-IsCounted engine ((manager, buy 11, clock) ∷ (manager, buy 2, clock) ∷ [])
      engine-IsCounted

update_all-published_example :
    (get_parameters (update_all whole engine ((params 5, 8) ∷ []))
      ≡ last_params (params 2) ((params 5, 8) ∷ []))
    × Converts whole
        (update_all whole engine ((params 5, 8) ∷ [])).hot_params
        (last_params (params 2) ((params 5, 8) ∷ []))
update_all-published_example = update_all-published whole (params 2) ((params 5, 8) ∷ [])

buy_passes : (check_order manager engine (buy 2) clock).0.passed ≡ true
unfolding new set_available_capital check_order check_rate_limit read_hot_params projected_value
    get_position find get_total_value_cached ◌+ℤ◌ ◌-ℤ◌ ◌*ℤ◌ -ℤ◌
buy_passes = refl

buy_bounds :
    IsSmallRaw (raw_fixed.raw_value (buy 2).quantity)
    × IsSmallRaw (net manager 7)
    × IsSmallRaw (net manager 7 +ℤ signed_raw (fill_of (buy 2) 9))
unfolding net get_position find ◌+ℤ◌
buy_bounds = ((omega arith, omega arith), (omega arith, omega arith), (omega arith, omega arith))

check_order-limits_example :
    raw_fixed.gt
      (raw_fixed.mul
        (abs (existing_qty (get_position (update_position manager (fill_of (buy 2) 9)).1 7)))
        (whole 100))
      engine.hot_params.max_position_value
    ≡ false
check_order-limits_example =
    check_order-limits raw_IsFixed manager engine (buy 2) clock 9 buy_passes buy_bounds.0
      buy_bounds.1 buy_bounds.2
