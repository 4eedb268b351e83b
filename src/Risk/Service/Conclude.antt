-- ===== src/Risk/Service/Conclude.antt =====
-- What the last part of `RiskService.decide` builds, for each action of the breaker.
use suky_tradin_bot.Risk.Portfolio.{daily_drawdown_size_cut_multiplier}
use mathlib.Core.List.{append-nil}
use suky_tradin_bot.Base.{
  ◌≡◌, Bool, true, false, not, ◌&&◌, String, List, [], ◌++◌, map, arith, is_empty, is_empty-append,
  is_empty-map, is_empty→nil, if◌then◌else◌, inl,
}
use suky_tradin_bot.Float.{Float, IsFloat, ◌≼◌, IsUnit, zero_f, one_f, min_f}
use suky_tradin_bot.Float.Order
use suky_tradin_bot.Common.Errors.{ok, err, value_error}
use suky_tradin_bot.Strategy.Decision.{StrategyDecision, Checked}
use suky_tradin_bot.Risk.Decision.{approved, reduced, rejected}
use suky_tradin_bot.Risk.Breaker.{
  CircuitBreakerAction, CircuitBreakerResult, halts_new_trades, is_acting,
}
use suky_tradin_bot.Risk.Service.Defs.{CircuitBreaker, decision_of, conclude, tolerance, label}
use suky_tradin_bot.Risk.Service.Checks.{
  rejected_passes, reduced_passes, approved_passes, approved_with_adjustments,
}

module _ {F : Type 0} ⦃fl : Float F⦄ (laws : IsFloat F) where
  open fl use {lt, add, sub, mul, decimal}
  open laws use {le_trans, decimal_mono, sub_unit, le-add}

  pub tolerance-IsUnit : IsUnit {F = F} tolerance
  tolerance-IsUnit = (decimal_mono 0 0 1 9 (omega arith), decimal_mono 1 9 1 0 (omega arith))

  module _ (d : StrategyDecision F) (c : Checked d) where
    pub lt_of_reduced :
        (x : F) → lt x (sub d.allocation tolerance) ≡ true → lt x d.allocation ≡ true
    lt_of_reduced x h =
        Order.lt_of_lt_le laws _ _ _ h
          (sub_unit _ _ c.allocation_unit tolerance-IsUnit.0 tolerance-IsUnit.1)

    pub conclude_rejected :
        (b : CircuitBreaker F) (rej : Bool) (x : F) (adjustments : List String)
        (r : CircuitBreakerResult F)
        → (not rej && not (halts_new_trades r)) ≡ false
        → (rej ≡ true → is_empty adjustments ≡ false)
        → (is_acting r.action ≡ true → is_empty r.reasons ≡ false)
        → (extra : List String) × (conclude d b rej (x, adjustments) r
            ≡ ok (decision_of d false (rejected, zero_f) (adjustments ++ extra)))
          × (is_empty (adjustments ++ extra) ≡ false)
    unfolding conclude
    conclude_rejected b rej x adjustments r h k l =
        let extra : List String = if is_acting r.action then map (label b.name) r.reasons else [] in
        let given : is_empty (adjustments ++ extra) ≡ false =
          ground
            (arith, is_empty-append adjustments extra, is_empty-map (label b.name) r.reasons) in
        (extra, ground (arith, rejected_passes laws d c (adjustments ++ extra) given), given)

    pub conclude_accepted :
        (b : CircuitBreaker F) (x : F) (adjustments : List String) (r : CircuitBreakerResult F)
        → r.action ≡ CircuitBreakerAction.no_action
        → r.size_multiplier ≡ one_f
        → zero_f ≼ x
        → is_empty adjustments ≡ not (lt x (sub d.allocation tolerance))
        → conclude d b false (x, adjustments) r
          ≡ ok (
              decision_of d true
                (if lt x (sub d.allocation tolerance)
                  then (reduced, x)
                  else (approved, d.allocation))
                adjustments)
    unfolding conclude
    conclude_accepted b x adjustments r h k z e = ground (
      arith,
      append-nil adjustments,
      reduced_passes laws d c x adjustments z,
      lt_of_reduced x,
      approved_passes laws d c,
      is_empty→nil adjustments,
      Order.lt_irrefl laws one_f,
    )

    pub conclude_cut :
        (b : CircuitBreaker F) (x : F) (adjustments : List String) (r : CircuitBreakerResult F)
        → r.action ≡ CircuitBreakerAction.cut_size_50
        → r.size_multiplier ≡ daily_drawdown_size_cut_multiplier
        → is_empty r.reasons ≡ false
        → IsUnit x
        → let y = min_f x (mul x daily_drawdown_size_cut_multiplier) in
          let all = adjustments ++ map (label b.name) r.reasons in
          conclude d b false (x, adjustments) r ≡ (
            if lt y (sub d.allocation tolerance)
            then ok (decision_of d true (reduced, y) all)
            else err (
                value_error
                  "risk_adjustments must be empty for a clean DecisionType.APPROVED decision"))
    unfolding conclude
    conclude_cut b x adjustments r h k l u =
        let y = min_f x (mul x daily_drawdown_size_cut_multiplier) in
        let all = adjustments ++ map (label b.name) r.reasons in
        let given : is_empty all ≡ false = ground (
          arith,
          is_empty-append adjustments (map (label b.name) r.reasons),
          is_empty-map (label b.name) r.reasons,
        ) in
        let nonneg : zero_f ≼ y =
          Order.le-min_f laws zero_f x _ u.0
            (inl (Order.mul_unit laws _ _ u (Order.half-IsUnit laws)).0) in
        ground (
          arith,
          Order.half-lt-one laws,
          reduced_passes laws d c y all,
          lt_of_reduced y,
          approved_with_adjustments laws d c all,
        )
