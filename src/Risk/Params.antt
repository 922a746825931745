-- ===== src/Risk/Params.antt =====
-- `updateParameters`: the double buffer of the parameters and their copy on the hot path.
use libchronos.Base.{ℕ, ◌≡◌, ◌%◌, refl, List, [], ◌∷◌, subst, sym, ◌⊎◌, inl, arith}
use libchronos.Decimal.{Fixed}
use libchronos.Risk.{
  RiskParameters, HotParams, RiskEngine, get_buffer, swap_cold_buffers, publish_params,
  update_parameters, get_parameters,
}
use libchronos.Risk.Check.{new, set_available_capital}

unfoldable pub last_params :
    {F : Type 0} → RiskParameters F → List (RiskParameters F × ℕ) → RiskParameters F
last_params params [] = params
last_params params ((next, now_us) ∷ updates) = last_params next updates

module _ {F D : Type 0} where
  -- The limits that the hot path reads are the conversions of the parameters.
  abbrev pub Converts : (F → D) → HotParams D → RiskParameters F → Type 0
  Converts to_decimal hp params =
      (hp.max_order_value ≡ to_decimal params.max_order_value)
      × (hp.max_position_value ≡ to_decimal params.max_position_value)
      × (hp.max_total_position_value ≡ to_decimal params.max_total_position_value)
      × (hp.min_available_capital ≡ to_decimal params.min_available_capital)
      × (hp.max_orders_per_second ≡ params.max_orders_per_second)

  -- The buffer that is written is not the one that is read.
  abbrev pub IsSwapped : RiskEngine F D → Type 0
  IsSwapped e =
      ((e.active_cold ≡ 0) × (e.write_idx ≡ 1)) ⊎ ((e.active_cold ≡ 1) × (e.write_idx ≡ 0))

  update_parameters_lem :
      (to_decimal : F → D) (e : RiskEngine F D) (params : RiskParameters F) (now_us : ℕ)
      → IsSwapped e
      → (e.hot_params.version % 2 ≡ 0)
      → (get_parameters (update_parameters to_decimal e params now_us) ≡ params)
        × Converts to_decimal (update_parameters to_decimal e params now_us).hot_params params
        × IsSwapped (update_parameters to_decimal e params now_us)
        × ((update_parameters to_decimal e params now_us).hot_params.version % 2 ≡ 0)
        × (get_buffer (update_parameters to_decimal e params now_us) e.active_cold).params
          ≡ get_parameters e
  unfolding update_parameters publish_params swap_cold_buffers get_parameters
  update_parameters_lem to_decimal e params now_us h even = ground arith

  unfoldable pub update_all :
      (F → D) → RiskEngine F D → List (RiskParameters F × ℕ) → RiskEngine F D
  unfolding update_parameters
  update_all to_decimal e [] = e
  update_all to_decimal e ((params, now_us) ∷ updates) =
      update_all to_decimal (update_parameters to_decimal e params now_us) updates

  update_all_lem :
      (to_decimal : F → D) (e : RiskEngine F D) (updates : List (RiskParameters F × ℕ))
      → IsSwapped e
      → (e.hot_params.version % 2 ≡ 0)
      → Converts to_decimal e.hot_params (get_parameters e)
      → (get_parameters (update_all to_decimal e updates) ≡ last_params (get_parameters e) updates)
        × Converts to_decimal
            (update_all to_decimal e updates).hot_params
            (last_params (get_parameters e) updates)
  unfolding update_all last_params
  update_all_lem to_decimal e [] h even c = (refl, c)
  update_all_lem to_decimal e ((params, now_us) ∷ updates) h even c =
      let (got, conv, swapped, still, kept) =
        update_parameters_lem to_decimal e params now_us h even in
      subst
        (λ p.
          (get_parameters
              (update_all to_decimal (update_parameters to_decimal e params now_us) updates)
            ≡ last_params p updates)
          × Converts to_decimal
              (update_all to_decimal (update_parameters to_decimal e params now_us)
                updates).hot_params
              (last_params p updates))
        got
        (update_all_lem to_decimal (update_parameters to_decimal e params now_us) updates swapped
          still
          (subst
            (λ p. Converts to_decimal (update_parameters to_decimal e params now_us).hot_params p)
            (sym got) conv))

module _ {F D : Type 0} ⦃fx : Fixed D⦄ where
  -- After any updates of a new engine, getParameters returns the parameters of the last one, and
  -- the limits on the hot path are their conversions.
  pub update_all-published :
      (to_decimal : F → D) (defaults : RiskParameters F) (updates : List (RiskParameters F × ℕ))
      → (get_parameters (update_all to_decimal (new to_decimal defaults) updates)
          ≡ last_params defaults updates)
        × Converts to_decimal
            (update_all to_decimal (new to_decimal defaults) updates).hot_params
            (last_params defaults updates)
  unfolding new get_parameters set_available_capital
  update_all-published to_decimal defaults updates =
      update_all_lem to_decimal (new to_decimal defaults) updates (inl (refl, refl)) refl
        (refl, refl, refl, refl, refl)
