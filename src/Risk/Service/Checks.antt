-- ===== src/Risk/Service/Checks.antt =====
-- Which of the decisions that `conclude` builds pass the checks of `ExecutionDecision`.
use text.Mathlib.TextPositions.{eq_refl}
use suky_tradin_bot.Base.{◌≡◌, refl, true, false, String, List, [], arith, is_empty}
use suky_tradin_bot.Float.{Float, IsFloat, ◌≼◌, zero_f}
use suky_tradin_bot.Float.Order
use suky_tradin_bot.Common.Text.{is_blank, is_blank-<>}
use suky_tradin_bot.Common.Errors.{ok, err, value_error}
use suky_tradin_bot.Common.Time.{same_time_refl}
use suky_tradin_bot.Strategy.Decision.{StrategyDecision, Checked}
use suky_tradin_bot.Risk.Decision.{
  DecisionType, approved, reduced, rejected, check_execution_decision,
}
use suky_tradin_bot.Risk.Service.Defs.{decision_of, build_reasoning}

module _ {F : Type 0} ⦃fl : Float F⦄ where
  -- The reasoning of a decision is never blank, whatever texts it quotes.
  pub build_reasoning_given :
      (t : DecisionType) (d : StrategyDecision F) (x : F) (adjustments : List String)
      → is_blank (build_reasoning t d x adjustments) ≡ false
  unfolding build_reasoning is_blank
  build_reasoning_given rejected d x adjustments = simp is_blank-<>
  build_reasoning_given reduced d x adjustments = simp is_blank-<>
  build_reasoning_given approved d x adjustments = refl

module _ {F : Type 0} ⦃fl : Float F⦄ (laws : IsFloat F) (d : StrategyDecision F)
    (c : Checked d) where
  open fl use {lt}

  pub rejected_passes :
      (adjustments : List String)
      → is_empty adjustments ≡ false
      → check_execution_decision (decision_of d false (rejected, zero_f) adjustments) ≡ ok tt
  unfolding check_execution_decision
  rejected_passes adjustments h = ground (
    arith,
    c.utc "timestamp",
    eq_refl d.symbol,
    same_time_refl d.timestamp,
    Order.zero_self laws,
    Order.eq_self laws zero_f (Order.zero_self laws),
    build_reasoning_given rejected d zero_f adjustments,
  )

  pub reduced_passes :
      (x : F) (adjustments : List String)
      → zero_f ≼ x
      → lt x d.allocation ≡ true
      → is_empty adjustments ≡ false
      → check_execution_decision (decision_of d true (reduced, x) adjustments) ≡ ok tt
  unfolding check_execution_decision
  reduced_passes x adjustments z h e = ground (
    arith,
    c.utc "timestamp",
    eq_refl d.symbol,
    same_time_refl d.timestamp,
    Order.lt→le laws x d.allocation h,
    build_reasoning_given reduced d x adjustments,
  )

  pub approved_passes :
      check_execution_decision (decision_of d true (approved, d.allocation) []) ≡ ok tt
  unfolding check_execution_decision
  approved_passes = ground (
    arith,
    c.utc "timestamp",
    eq_refl d.symbol,
    same_time_refl d.timestamp,
    Order.IsUnit-self laws d.allocation c.allocation_unit,
    Order.lt_irrefl laws d.allocation,
    build_reasoning_given approved d d.allocation [],
  )

  -- A full approval that lists adjustments is refused.
  pub approved_with_adjustments :
      (adjustments : List String)
      → is_empty adjustments ≡ false
      → check_execution_decision (decision_of d true (approved, d.allocation) adjustments)
        ≡ err (
            value_error "risk_adjustments must be empty for a clean DecisionType.APPROVED decision")
  unfolding check_execution_decision
  approved_with_adjustments adjustments h = ground (
    arith,
    c.utc "timestamp",
    eq_refl d.symbol,
    same_time_refl d.timestamp,
    Order.IsUnit-self laws d.allocation c.allocation_unit,
    Order.lt_irrefl laws d.allocation,
    build_reasoning_given approved d d.allocation adjustments,
  )
