-- ===== src/Risk/Decision.antt =====
-- `ExecutionDecision` (src/risk/models.py), the risk manager's answer, and its checks.
use suky_tradin_bot.Base.{
  Bool, true, false, not, ◌&&◌, String, str_eq, List, is_empty, if◌then◌else◌,
}
use suky_tradin_bot.Float.{Float, zero_f}
use suky_tradin_bot.Common.Text.{is_blank, is_nil}
use suky_tradin_bot.Common.Errors.{Result, ◌>>◌, reject_if}
use suky_tradin_bot.Common.Time.{Datetime, require_utc, same_time}
use suky_tradin_bot.Strategy.Decision.{StrategyDecision, Metadata}

pub data DecisionType : Type 0 where
  approved reduced rejected : DecisionType

-- `a is b` on the enumeration.
abbrev pub same_type : DecisionType → DecisionType → Bool
same_type DecisionType.approved DecisionType.approved = true
same_type DecisionType.reduced DecisionType.reduced = true
same_type DecisionType.rejected DecisionType.rejected = true
same_type _ _ = false

pub record ExecutionDecision (F : Type 0) : Type 0 where
  pub timestamp : Datetime
  pub symbol : String
  pub approved : Bool
  pub approved_allocation : F
  pub decision_type : DecisionType
  pub risk_adjustments : List String
  pub reasoning : String
  pub strategy_reference : StrategyDecision F
  pub metadata : Metadata F

module _ {F : Type 0} ⦃fl : Float F⦄ where
  open fl use {le, lt, eq}

  -- The decision type that the approval and the two allocations call for.
  unfoldable pub expected_type : ExecutionDecision F → DecisionType
  expected_type e =
      if not e.approved
      then DecisionType.rejected
      else if lt e.approved_allocation e.strategy_reference.allocation
      then DecisionType.reduced
      else DecisionType.approved

  -- `_require_consistent_decision_type`
  unfoldable pub require_consistent_decision_type : ExecutionDecision F → Result (Unit {0})
  unfolding expected_type
  require_consistent_decision_type e = do
    reject_if (not (same_type e.decision_type (expected_type e))) "decision_type is inconsistent"
    reject_if
        (same_type (expected_type e) DecisionType.approved && not (is_empty e.risk_adjustments))
        "risk_adjustments must be empty for a clean DecisionType.APPROVED decision"

  -- `ExecutionDecision.__post_init__`
  unfoldable pub check_execution_decision : ExecutionDecision F → Result (Unit {0})
  unfolding require_consistent_decision_type
  check_execution_decision e = do
    let reference = e.strategy_reference
    require_utc e.timestamp "timestamp"
    reject_if (is_nil e.symbol) "symbol must not be empty"
    reject_if (not (str_eq e.symbol reference.symbol)) "symbol does not match"
    reject_if (not (same_time e.timestamp reference.timestamp)) "timestamp does not match"
    reject_if
        (not (le zero_f e.approved_allocation && le e.approved_allocation reference.allocation))
        "approved_allocation must be in [0.0, allocation]"
    reject_if (not e.approved && not (eq e.approved_allocation zero_f))
        "approved_allocation must be 0.0 when approved is False"
    reject_if (not e.approved && is_empty e.risk_adjustments)
        "risk_adjustments must not be empty when approved is False"
    reject_if (lt e.approved_allocation reference.allocation && is_empty e.risk_adjustments)
        "risk_adjustments must not be empty when approved_allocation is reduced"
    reject_if (is_blank e.reasoning) "reasoning must not be empty"
    require_consistent_decision_type e
