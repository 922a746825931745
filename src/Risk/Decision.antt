-- ===== src/Risk/Decision.antt =====
-- `checkOrder`: which of the five checks decides.
use libchronos.Base.{
  ℕ, zero, suc, ◌≡◌, refl, Bool, true, false, not, Option, none, some, List, [], ◌∷◌, if◌then◌else◌,
  arith,
}
use libchronos.Decimal.{Fixed}
use libchronos.Types.{OrderRequest}
use libchronos.Positions.{PositionManager, get_total_value_cached}
use libchronos.Risk.{
  RejectionReason, order_value_exceeds_limit, rate_limit_exceeded, position_value_for_symbol,
  total_position_value_exceeds_limit, insufficient_available_capital, HotParams, RiskEngine,
  read_hot_params, check_rate_limit,
}
use libchronos.Risk.Check.{
  Clock, order_value_abs, projected_value, check_order, get_available_capital,
}

-- The reason of the first check that fails.
unfoldable pub first_failure : List (Bool × RejectionReason) → Option RejectionReason
first_failure [] = none
first_failure ((failed, reason) ∷ checks) = if failed then some reason else first_failure checks

abbrev pub is_none : {A : Type 0} → Option A → Bool
is_none none = true
is_none (some a) = false

pub read_hot_params_lem : {D : Type 0} (n : ℕ) (hp : HotParams D) → read_hot_params n hp ≡ hp
unfolding read_hot_params
read_hot_params_lem zero hp = refl
read_hot_params_lem (suc n) hp = ground (arith, read_hot_params_lem n hp)

module _ {F D : Type 0} ⦃fx : Fixed D⦄ where
  -- The five limits in the order of the code.
  abbrev pub checks :
      PositionManager D → RiskEngine F D → OrderRequest D → Clock → List (Bool × RejectionReason)
  checks m e order clock =
      (fx.gt (order_value_abs order) e.hot_params.max_order_value, order_value_exceeds_limit)
      ∷ (not (check_rate_limit e clock.rate_us).0, rate_limit_exceeded)
      ∷ (
        fx.gt (projected_value m order) e.hot_params.max_position_value,
        position_value_for_symbol order.symbol_id,
      )
      ∷ (
        fx.gt (get_total_value_cached m) e.hot_params.max_total_position_value,
        total_position_value_exceeds_limit,
      )
      ∷ (
        fx.lt (fx.sub (get_available_capital e) (order_value_abs order))
            e.hot_params.min_available_capital,
        insufficient_available_capital,
      )
      ∷ []

  -- An order is rejected for the first of the five limits that it breaks, and it passes when it
  -- breaks none.
  pub check_order-first_failure :
      (m : PositionManager D) (e : RiskEngine F D) (order : OrderRequest D) (clock : Clock)
      → ((check_order m e order clock).0.rejection_reason ≡ first_failure (checks m e order clock))
        × ((check_order m e order clock).0.passed
            ≡ is_none (first_failure (checks m e order clock)))
  unfolding check_order first_failure get_available_capital
  check_order-first_failure m e order clock = ground (arith, read_hot_params_lem 100 e.hot_params)
