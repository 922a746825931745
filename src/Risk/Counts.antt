-- ===== src/Risk/Counts.antt =====
-- `updateStats`: the counters agree.
use libchronos.Base.{
  ℕ, ◌≡◌, ◌+◌, ◌^◌, ◌%◌, false, none, arith, List, [], ◌∷◌, inl, inr, Option-cases, sym, subst,
}
use libchronos.Base.Words.{inc64}
use libchronos.Decimal.{Fixed}
use libchronos.Types.{OrderRequest}
use libchronos.Positions.{PositionManager}
use libchronos.Risk.{
  RejectionReason, order_value_exceeds_limit, rate_limit_exceeded, position_value_for_symbol,
  total_position_value_exceeds_limit, insufficient_available_capital, mentions, RiskCheckResult,
  Statistics, RiskEngine, check_rate_limit,
}
use libchronos.Risk.Check.{check_order, Clock, update_stats, count_reject}
use libchronos.Risk.Decision.{check_order-first_failure}

-- Each check is counted once, and each rejection once more under its reason, up to the wrap of the
-- counters.
abbrev pub IsCounted : Statistics → Type 0
IsCounted s =
    (s.total_checks % 2 ^ 64 ≡ (s.accepted + s.rejected) % 2 ^ 64)
    × (s.rejected % 2 ^ 64
        ≡ (s.rate_limit_rejects + s.order_value_rejects + s.position_limit_rejects
            + s.total_position_rejects + s.capital_rejects)
          % 2 ^ 64)

-- A result that is not passed has its reason.
abbrev pub HasReason : RiskCheckResult → Type 0
HasReason r = (r.passed ≡ false) → ¬ (r.rejection_reason ≡ none)

count_reject_lem :
    (reason : RejectionReason) (s : Statistics)
    → (s.rejected % 2 ^ 64
        ≡ (s.rate_limit_rejects + s.order_value_rejects + s.position_limit_rejects
            + s.total_position_rejects + s.capital_rejects + 1)
          % 2 ^ 64)
    → (s.total_checks % 2 ^ 64 ≡ (s.accepted + s.rejected) % 2 ^ 64)
    → IsCounted (count_reject reason s)
unfolding count_reject mentions
count_reject_lem order_value_exceeds_limit s h g = (omega arith, omega arith)
count_reject_lem rate_limit_exceeded s h g = (omega arith, omega arith)
count_reject_lem (position_value_for_symbol k) s h g = (omega arith, omega arith)
count_reject_lem total_position_value_exceeds_limit s h g = (omega arith, omega arith)
count_reject_lem insufficient_available_capital s h g = (omega arith, omega arith)

update_stats-IsCounted :
    (r : RiskCheckResult) (latency_ns : ℕ) (s : Statistics)
    → HasReason r
    → IsCounted s
    → IsCounted (update_stats r latency_ns s)
unfolding update_stats
update_stats-IsCounted r latency_ns s has h = elim (Option-cases r.rejection_reason) [
  | inl e ↦ ground (arith, has, e)
  | inr (reason, e) ↦ ground (
    arith,
    e,
    count_reject_lem reason
        (record s { total_checks = inc64 s.total_checks; rejected = inc64 s.rejected })
        (omega arith) (omega arith),
  )
]

module _ {F D : Type 0} ⦃fx : Fixed D⦄ where
  stats-check_order :
      (m : PositionManager D) (e : RiskEngine F D) (order : OrderRequest D) (clock : Clock)
      → (check_order m e order clock).1.stats
        ≡ update_stats (check_order m e order clock).0 clock.latency_ns e.stats
  unfolding check_order check_rate_limit
  stats-check_order m e order clock = ground arith

  check_order-HasReason :
      (m : PositionManager D) (e : RiskEngine F D) (order : OrderRequest D) (clock : Clock)
      → HasReason (check_order m e order clock).0
  check_order-HasReason m e order clock failed unknown =
      ground (arith, check_order-first_failure m e order clock)

  check_order-IsCounted :
      (m : PositionManager D) (e : RiskEngine F D) (order : OrderRequest D) (clock : Clock)
      → IsCounted e.stats
      → IsCounted (check_order m e order clock).1.stats
  unfolding check_order check_rate_limit
  check_order-IsCounted m e order clock h =
      subst IsCounted (sym (stats-check_order m e order clock)) (
        update_stats-IsCounted (check_order m e order clock).0 clock.latency_ns e.stats
          (check_order-HasReason m e order clock) h)

  -- `checkOrder` on one order after the other, with the positions that it finds.
  unfoldable pub check_all :
      RiskEngine F D → List (PositionManager D × OrderRequest D × Clock) → RiskEngine F D
  unfolding check_order
  check_all e [] = e
  check_all e ((m, order, clock) ∷ orders) = check_all (check_order m e order clock).1 orders

  -- Whatever orders are checked, total_checks is accepted + rejected and rejected is the sum of the
  -- five counters by reason, modulo 2 ^ 64, if it was so before.
  pub check_all-IsCounted :
      (e : RiskEngine F D) (orders : List (PositionManager D × OrderRequest D × Clock))
      → IsCounted e.stats
      → IsCounted (check_all e orders).stats
  unfolding check_all
  check_all-IsCounted e [] h = h
  check_all-IsCounted e ((m, order, clock) ∷ orders) h =
      check_all-IsCounted (check_order m e order clock).1 orders
        (check_order-IsCounted m e order clock h)
