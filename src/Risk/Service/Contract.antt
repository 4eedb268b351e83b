-- ===== src/Risk/Service/Contract.antt =====
-- What `RiskService.decide` answers on every branch of the default service.
use suky_tradin_bot.Risk.Breaker.Latch.{evaluate_quiet, evaluate_halts, evaluate_cut}
use suky_tradin_bot.Risk.Decision.{reduced, rejected, approved}
use suky_tradin_bot.Risk.Breaker.{
  Lock, CircuitBreakerResult, CircuitBreakerAction, evaluate, halts_new_trades,
}
use suky_tradin_bot.Common.Errors.{ok, err, value_error}
use suky_tradin_bot.Risk.Service.Conclude.{
  lt_of_reduced, tolerance-IsUnit, conclude_accepted, conclude_rejected, conclude_cut,
}
use suky_tradin_bot.Risk.Validators.{
  buying_power_validator, projected_notional, buying_power_message,
}
use suky_tradin_bot.Risk.Sizing.Bounds.{apply_bounds}
use suky_tradin_bot.Risk.Service.Defs.{
  assess, tolerance, default_service, violations, size, label, reduced_message, decide, decision_of,
  drawdown_circuit_breaker, decide_assessed,
}
use suky_tradin_bot.Risk.Sizing.{apply, default_sizing}
use suky_tradin_bot.Base.{
  String, inl, ◌≡◌, arith, true, false, List, is_empty, not, if◌then◌else◌, ◌∷◌, ◌⊎◌, [], ap, refl,
  ◌++◌, Bool, ◌&&◌, map, ◌∙◌, Bool-cases, inr,
}
use suky_tradin_bot.Common.Dict.{Dict}
use suky_tradin_bot.Risk.Portfolio.{
  PortfolioState, AccountState, daily_drawdown_size_cut_multiplier,
}
use suky_tradin_bot.Strategy.Decision.{StrategyDecision, Checked}
use suky_tradin_bot.Float.{Float, IsFloat, min_f, IsUnit, zero_f, ◌≼◌}
use suky_tradin_bot.Float.Order

module _ {F : Type 0} ⦃fl : Float F⦄ (laws : IsFloat F) (d : StrategyDecision F)
    (p : PortfolioState F) (a : AccountState F) (sector_map : Dict String) where
  open fl use {lt, add, sub, mul, decimal}
  open laws use {le_trans, decimal_mono, sub_unit, le-add}

  -- The allocation that the sizing rule of the default service leaves.
  abbrev pub sized : F
  sized = min_f d.allocation (apply (default_sizing sector_map) d d.allocation p)

  module _ (c : Checked d) where
    sized-IsUnit : IsUnit sized
    sized-IsUnit =
        let (unit, below, _, _) =
          apply_bounds laws (default_sizing sector_map) d d.allocation p c.allocation_unit in
        let whole = c.allocation_unit in
        Order.IsUnit-of_le laws _ _ (Order.le-min_f laws _ _ _ whole.0 (inl unit.0))
          (Order.min_f-le_left laws _ _ (Order.IsUnit-self laws _ whole)) whole

    assess_overdrawn :
        lt a.buying_power (projected_notional d p) ≡ true
        → (found : List String) × (assess (default_service sector_map) d p a
            ≡ ok (true, (d.allocation, found)))
          × (is_empty found ≡ false)
    unfolding assess default_service violations buying_power_validator
    assess_overdrawn h = (
      label "buying_power" (buying_power_message (projected_notional d p) a.buying_power) ∷ [],
      ground arith,
      refl,
    )

    sizing_fits :
        lt (add d.allocation tolerance) (apply (default_sizing sector_map) d d.allocation p) ≡ false
    sizing_fits =
        let (_, below, _, _) =
          apply_bounds laws (default_sizing sector_map) d d.allocation p c.allocation_unit in
        Order.le→not-lt laws _ _
          (le_trans _ _ _ below (le-add _ _ c.allocation_unit.0 (tolerance-IsUnit laws).0).0)

    sized_cut :
        lt (apply (default_sizing sector_map) d d.allocation p) (sub d.allocation tolerance)
        ≡ lt sized (sub d.allocation tolerance)
    sized_cut =
        let s = apply (default_sizing sector_map) d d.allocation p in
        ground (
          arith,
          lt_of_reduced laws d c s,
          Order.le→not-lt laws _ _
              (sub_unit _ _ c.allocation_unit (tolerance-IsUnit laws).0 (tolerance-IsUnit laws).1),
        )

    assess_covered :
        lt a.buying_power (projected_notional d p) ≡ false
        → (adjustments : List String) × (assess (default_service sector_map) d p a
            ≡ ok (false, (sized, adjustments)))
          × (is_empty adjustments ≡ not (lt sized (sub d.allocation tolerance)))
    unfolding assess default_service violations buying_power_validator size
    assess_covered h =
        let s = apply (default_sizing sector_map) d d.allocation p in
        (
          if lt s (sub d.allocation tolerance)
              then reduced_message "exposure_capacity_sizing" d.allocation s ∷ []
              else [],
          ground (arith, sizing_fits),
          ground (arith, sized_cut),
        )

    -- The portfolio's breaker result and the lock file that the breaker leaves.
    module _ (lock : Lock) where
      abbrev breaker : CircuitBreakerResult F
      breaker = (evaluate p lock).0

      assess_rejecting :
          (lt a.buying_power (projected_notional d p) ≡ true) ⊎ (halts_new_trades breaker ≡ true)
          → (rej : Bool) × (x : F) × (adjustments : List String) × (assess
                (default_service sector_map)
                d
                p
                a
              ≡ ok (rej, (x, adjustments)))
            × ((not rej && not (halts_new_trades breaker)) ≡ false)
            × (rej ≡ true → is_empty adjustments ≡ false)
      assess_rejecting h = elim (Bool-cases (lt a.buying_power (projected_notional d p))) [
        | inl short ↦
            let (found, run, given) = assess_overdrawn short in
            (true, d.allocation, found, run, refl, λ _. given)
        | inr covered ↦
            let (adjustments, run, given) = assess_covered covered in
            (false, sized, adjustments, run, ground arith, λ e. cc)
      ]

      -- In the default service, a checked decision that the account cannot pay for, or that meets a
      -- halting breaker, is answered, not raised: rejected, with allocation zero, with a listed
      -- reason, and with the lock file that the breaker leaves.
      pub decide_rejects :
          (lt a.buying_power (projected_notional d p) ≡ true) ⊎ (halts_new_trades breaker ≡ true)
          → (adjustments : List String) × (decide (default_service sector_map) d p a lock
              ≡ (ok (decision_of d false (rejected, zero_f) adjustments), (evaluate p lock).1))
            × (is_empty adjustments ≡ false)
      unfolding default_service
      decide_rejects h =
          let (rej, x, adjustments, run, when, given) = assess_rejecting h in
          let r = breaker in
          let (extra, built, listed) =
            conclude_rejected laws d c drawdown_circuit_breaker rej x adjustments r when given
              (ground (arith, evaluate_halts p lock)) in
          (
            adjustments ++ extra,
            decide_assessed (default_service sector_map) d p a lock (rej, (x, adjustments)) run
                ∙ ap (λ x. (x, (evaluate p lock).1)) built,
            listed,
          )

      -- In the default service, a checked decision that the account can pay for and that meets a
      -- quiet breaker is approved at its sized allocation if that is more than the tolerance below
      -- the request, and at the request otherwise.
      pub decide_accepts :
          lt a.buying_power (projected_notional d p) ≡ false
          → breaker.action ≡ CircuitBreakerAction.no_action
          → (adjustments : List String) × (decide (default_service sector_map) d p a lock ≡ (
            ok (
                decision_of d true
                  (if lt sized (sub d.allocation tolerance)
                    then (reduced, sized)
                    else (approved, d.allocation))
                  adjustments),
            (evaluate p lock).1,
          ))
      unfolding default_service
      decide_accepts h k =
          let (adjustments, run, given) = assess_covered h in
          let r = breaker in
          (
            adjustments,
            decide_assessed (default_service sector_map) d p a lock (false, (sized, adjustments))
                  run
                ∙ ap (λ x. (x, (evaluate p lock).1))
                    (conclude_accepted laws d c drawdown_circuit_breaker sized adjustments r k
                      (evaluate_quiet p lock k) sized-IsUnit.0 given),
          )

      -- In the default service and under a size cut, a checked decision that the account can pay for
      -- is approved at half its sized allocation if that is more than the tolerance below the
      -- request; otherwise `decide` raises.
      pub decide_cuts :
          lt a.buying_power (projected_notional d p) ≡ false
          → breaker.action ≡ CircuitBreakerAction.cut_size_50
          → let y = min_f sized (mul sized daily_drawdown_size_cut_multiplier) in
            (adjustments : List String) × (decide (default_service sector_map) d p a lock ≡ (
              if lt y (sub d.allocation tolerance)
                  then ok (decision_of d true (reduced, y) adjustments)
                  else err (
                      value_error
                        "risk_adjustments must be empty for a clean DecisionType.APPROVED decision"),
              (evaluate p lock).1,
            ))
      unfolding default_service
      decide_cuts h k =
          let (adjustments, run, given) = assess_covered h in
          let r = breaker in
          (
            adjustments ++ map (label "drawdown_circuit_breaker") r.reasons,
            decide_assessed (default_service sector_map) d p a lock (false, (sized, adjustments))
                  run
                ∙ ap (λ x. (x, (evaluate p lock).1))
                    (conclude_cut laws d c drawdown_circuit_breaker sized adjustments r k
                      (evaluate_cut p lock k) (ground (arith, evaluate_halts p lock)) sized-IsUnit),
          )

      -- In the default service and under a size cut, a checked request of zero that the account can
      -- pay for is never answered: `decide` raises.
      pub decide_zero_raises :
          lt a.buying_power (projected_notional d p) ≡ false
          → breaker.action ≡ CircuitBreakerAction.cut_size_50
          → d.allocation ≼ zero_f
          → decide (default_service sector_map) d p a lock ≡ (
            err (
                value_error
                  "risk_adjustments must be empty for a clean DecisionType.APPROVED decision"),
            (evaluate p lock).1,
          )
      decide_zero_raises h k z =
          let y = min_f sized (mul sized daily_drawdown_size_cut_multiplier) in
          let unit = sized-IsUnit in
          let nonneg : zero_f ≼ y =
            Order.le-min_f laws zero_f _ _ unit.0
              (inl (Order.mul_unit laws _ _ unit (Order.half-IsUnit laws)).0) in
          let below =
            sub_unit _ _ c.allocation_unit (tolerance-IsUnit laws).0 (tolerance-IsUnit laws).1 in
          let uncut : lt y (sub d.allocation tolerance) ≡ false =
            Order.le→not-lt laws _ _ (le_trans _ _ _ below (le_trans _ _ _ z nonneg)) in
          rw uncut at ((decide_cuts h k).1)
