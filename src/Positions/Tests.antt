-- ===== src/Positions/Tests.antt =====
-- The theorems of the position manager at concrete fills.
use libchronos.Base.{ℕ, ◌≡◌, ◌-◌, ◌^◌, refl, List, [], ◌∷◌, min, arith}
use libchronos.Base.Int.{ℤ, pos, ◌+ℤ◌, ◌-ℤ◌, ◌*ℤ◌, -ℤ◌}
use libchronos.Decimal.Sample.{raw_fixed, raw_IsFixed, whole}
use libchronos.Types.{Fill, OrderSide}
use libchronos.Positions.{
  PositionManager, saturating_add, get_total_value_cached, int64_high, sum_values, find,
  get_position, update_position, next_position, store, apply_fill, increase, reduce, flip, sign_of,
  calc_weighted_average, recalc_total_value,
}
use libchronos.Positions.Ledger.{net, post, post_all, update_all, IsBounded, net-update_all}
use libchronos.Positions.Cache.{
  clamp, saturating_add_lem, IsCached, IsPriced, exact_total, cached_total-exact,
}

abbrev manager : PositionManager ℤ
manager = record { positions = []; total_value_raw = pos 0 }

abbrev fill : OrderSide → ℕ → ℕ → Fill ℤ
fill side quantity price = record {
  execution_id = 1;
  fill_id = 1;
  order_id = 1;
  exchange_timestamp_us = 4;
  receive_timestamp_us = 5;
  fill_price = whole price;
  fill_quantity = whole quantity;
  symbol_id = 7;
  exchange_id = 1;
  strategy_id = 3;
  side = side;
  is_maker = 0;
}

-- A long position of 5 that a sale of 8 turns into a short one of 3.
abbrev fills : List (Fill ℤ)
fills = fill OrderSide.buy 5 100 ∷ fill OrderSide.sell 8 110 ∷ []

fills-IsBounded : IsBounded (net manager) fills
unfolding IsBounded net get_position find post ◌+ℤ◌ -ℤ◌
fills-IsBounded = (
  (omega arith, omega arith),
  (omega arith, omega arith),
  (omega arith, omega arith),
  ((omega arith, omega arith), (omega arith, omega arith), (omega arith, omega arith), tt),
)

net-update_all_example : net (update_all manager fills) 7 ≡ post_all (net manager) fills 7
net-update_all_example = net-update_all raw_IsFixed manager fills 7 fills-IsBounded

saturating_add_lem_example : saturating_add int64_high (pos 5) ≡ clamp (int64_high +ℤ pos 5)
saturating_add_lem_example =
    saturating_add_lem int64_high (pos 5) (omega arith, omega arith) (omega arith, omega arith)

manager-IsCached : IsCached manager
unfolding IsCached sum_values
manager-IsCached = refl

fills-IsPriced : IsPriced (update_all manager fills).positions
unfolding IsPriced update_all update_position next_position find store apply_fill increase reduce
    flip sign_of calc_weighted_average recalc_total_value ◌+ℤ◌ -ℤ◌ ◌-ℤ◌ ◌*ℤ◌
fills-IsPriced = ground arith

cached_total-exact_example :
    get_total_value_cached (update_all manager fills)
    ≡ raw_fixed.from_raw_value
        (pos (min (exact_total (update_all manager fills).positions) (2 ^ 63 - 1)))
cached_total-exact_example = cached_total-exact manager fills manager-IsCached fills-IsPriced
