-- ===== src/Risk/Rate.antt =====
-- `checkRateLimitInternal` over a second.
use libchronos.Base.{
  ℕ, suc, ◌≡◌, ◌<◌, ◌+◌, ◌-◌, ◌^◌, ◌/◌, ◌%◌, min, if◌then◌else◌, arith, List, [], ◌∷◌,
}
use libchronos.Risk.{RiskEngine, check_rate_limit}
use libchronos.Risk.Decision.{read_hot_params_lem}

abbrev pub second_of : ℕ → ℕ
second_of now_us = now_us / 1000000 % 2 ^ 32

-- The times all lie in the second.
unfoldable pub InSecond : ℕ → List ℕ → Type 0
InSecond sec [] = Unit
InSecond sec (now ∷ times) = (second_of now ≡ sec) × InSecond sec times

abbrev pub count : List ℕ → ℕ
count [] = 0
count (now ∷ times) = suc (count times)

module _ {F D : Type 0} where
  -- How many of the checks at these times are let through.
  unfoldable pub passes : RiskEngine F D → List ℕ → ℕ
  unfolding check_rate_limit
  passes e [] = 0
  passes e (now ∷ times) =
      let checked = check_rate_limit e now in
      let rest = passes checked.1 times in if checked.0 then suc rest else rest

  passes_within :
      (e : RiskEngine F D) (sec : ℕ) (times : List ℕ)
      → InSecond sec times
      → e.current_second ≡ sec
      → e.orders_this_second + count times < 2 ^ 32
      → passes e times
        ≡ min (count times) (e.hot_params.max_orders_per_second - e.orders_this_second)
  unfolding passes InSecond check_rate_limit
  passes_within e sec [] u now_sec small = ground arith
  passes_within e sec (now ∷ times) (here, rest) now_sec small =
      let next = passes_within (check_rate_limit e now).1 sec times rest in
      ground (arith, next, read_hot_params_lem 100 e.hot_params)

  -- Of fewer than 2 ^ 32 checks in one second, other than the one counted last, the number let
  -- through is that of the checks or max_orders_per_second, whichever is less.
  pub check_rate_limit-passes :
      (e : RiskEngine F D) (sec : ℕ) (times : List ℕ)
      → InSecond sec times
      → ¬ (e.current_second ≡ sec)
      → count times < 2 ^ 32
      → passes e times ≡ min (count times) e.hot_params.max_orders_per_second
  unfolding passes InSecond check_rate_limit
  check_rate_limit-passes e sec [] u other small = ground arith
  check_rate_limit-passes e sec (now ∷ times) (here, rest) other small = ground (
    arith,
    passes_within (check_rate_limit e now).1 sec times rest,
    read_hot_params_lem 100 e.hot_params,
  )
