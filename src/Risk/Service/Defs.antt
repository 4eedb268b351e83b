-- ===== src/Risk/Service/Defs.antt =====
-- `RiskService` (src/risk/service.py) step by step. Every step that can raise returns a `Result`;
-- the lock file comes back beside the result, since what the breaker wrote stays written.
use suky_tradin_bot.Base.{
  Bool, not, ◌&&◌, String, ◌<>◌, List, [], ◌∷◌, ◌++◌, map, is_empty, if◌then◌else◌, ◌≡◌, refl,
}
use suky_tradin_bot.Float.{Float, zero_f, one_f, min_f}
use suky_tradin_bot.Common.Text.{join}
use suky_tradin_bot.Common.Dict.{Dict}
use suky_tradin_bot.Common.Errors.{Result, ok, err, invalid_sizing_result, ◌>>=◌, construct}
use suky_tradin_bot.Strategy.Decision.{StrategyDecision}
use suky_tradin_bot.Risk.Portfolio.{PortfolioState, AccountState}
use suky_tradin_bot.Risk.Decision.{DecisionType, ExecutionDecision, check_execution_decision}
use suky_tradin_bot.Risk.Breaker.{Lock, CircuitBreakerResult, halts_new_trades, is_acting, evaluate}
use suky_tradin_bot.Risk.Validators.{RiskValidator, buying_power_validator}
use suky_tradin_bot.Risk.Sizing.{SizingRule, exposure_capacity_sizing, default_sizing}

-- The protocol `CircuitBreaker`; its evaluation may write the lock file.
pub record CircuitBreaker (F : Type 0) : Type 0 where
  pub name : String
  pub run : PortfolioState F → Lock → CircuitBreakerResult F × Lock

pub record RiskService (F : Type 0) : Type 0 where
  pub validators : List (RiskValidator F)
  pub sizing_rules : List (SizingRule F)
  pub circuit_breaker : CircuitBreaker F

-- `f"{name}: {msg}"`
abbrev pub label : String → String → String
label name msg = name <> ": " <> msg

module _ {F : Type 0} ⦃fl : Float F⦄ where
  open fl use {decimal, add, sub, mul, le, lt, show}

  abbrev pub tolerance : F
  tolerance = decimal 1 9

  -- `DrawdownCircuitBreaker`
  abbrev pub drawdown_circuit_breaker : CircuitBreaker F
  drawdown_circuit_breaker = record { name = "drawdown_circuit_breaker"; run = evaluate }

  -- `RiskService.default`
  unfoldable pub default_service : Dict String → RiskService F
  default_service sector_map = record {
    validators = buying_power_validator ∷ [];
    sizing_rules = exposure_capacity_sizing (default_sizing sector_map) ∷ [];
    circuit_breaker = drawdown_circuit_breaker;
  }

  unfoldable pub reduced_message : String → F → F → String
  reduced_message name from to =
      name <> ": reduced allocation from " <> show ".4f" from <> " to " <> show ".4f" to <> "."

  module _ (d : StrategyDecision F) (p : PortfolioState F) (a : AccountState F) where
    -- The first loop: the labelled violations of all validators.
    unfoldable pub violations : List (RiskValidator F) → Result (List String)
    violations [] = ok []
    violations (v ∷ vs) = do
      found ← v.validate d p a
      rest ← violations vs
      ok (map (label v.name) found ++ rest)

    -- The second loop, over the allocation and the adjustments so far.
    unfoldable pub size : List (SizingRule F) → F → List String → Result (F × List String)
    size [] allocation adjustments = ok (allocation, adjustments)
    size (r ∷ rs) allocation adjustments =
        let sized = r.apply d allocation p a in
        let next = size rs (min_f allocation sized) (
          if lt sized (sub allocation tolerance)
          then adjustments ++ reduced_message r.name allocation sized ∷ []
          else adjustments) in
        if lt (add allocation tolerance) sized then err (invalid_sizing_result r.name) else next

  -- `_build_reasoning`
  unfoldable pub build_reasoning : DecisionType → StrategyDecision F → F → List String → String
  build_reasoning DecisionType.rejected d approved_allocation adjustments =
      "Rejected: " <> join "; " adjustments
  build_reasoning DecisionType.reduced d approved_allocation adjustments =
      "Approved at reduced size ("
      <> show ".4f" approved_allocation
      <> " of "
      <> show ".4f" d.allocation
      <> " requested) due to: "
      <> join "; " adjustments
  build_reasoning DecisionType.approved d approved_allocation adjustments =
      "Approved at full size; no limits binding."

  -- The adjustments that the breaker adds, where it acts.
  abbrev pub breaker_adjustments : CircuitBreaker F → CircuitBreakerResult F → List String
  breaker_adjustments b r = if is_acting r.action then map (label b.name) r.reasons else []

  -- The allocation after the breaker.
  unfoldable pub breaker_allocation : CircuitBreakerResult F → F → F
  breaker_allocation r allocation =
      if halts_new_trades r
      then zero_f
      else if lt r.size_multiplier one_f
      then min_f allocation (mul allocation r.size_multiplier)
      else allocation

  -- The two outcomes that the last `if` chooses between: the type and the approved allocation.
  unfoldable pub outcome : Bool → F → StrategyDecision F → DecisionType × F
  outcome approved allocation d =
      if not approved
      then (DecisionType.rejected, zero_f)
      else if lt allocation (sub d.allocation tolerance)
      then (DecisionType.reduced, allocation)
      else (DecisionType.approved, d.allocation)

  abbrev pub decision_of :
      StrategyDecision F → Bool → DecisionType × F → List String → ExecutionDecision F
  decision_of d approved (decision_type, approved_allocation) adjustments = record {
    timestamp = d.timestamp;
    symbol = d.symbol;
    approved = approved;
    approved_allocation = approved_allocation;
    decision_type = decision_type;
    risk_adjustments = adjustments;
    reasoning = build_reasoning decision_type d approved_allocation adjustments;
    strategy_reference = d;
    metadata = [];
  }

  -- What follows the two loops: the breaker's result, and the decision.
  unfoldable pub conclude :
      StrategyDecision F
      → CircuitBreaker F
      → Bool
      → F × List String
      → CircuitBreakerResult F
      → Result (ExecutionDecision F)
  unfolding breaker_allocation outcome
  conclude d b rejected (allocation, adjustments) r =
      let approved = not rejected && not (halts_new_trades r) in
      construct check_execution_decision (
        decision_of d approved (outcome approved (breaker_allocation r allocation) d)
          (adjustments ++ breaker_adjustments b r))

  -- `RiskService.decide`, up to the circuit breaker.
  unfoldable pub assess :
      RiskService F
      → StrategyDecision F
      → PortfolioState F
      → AccountState F
      → Result (Bool × (F × List String))
  assess s d p a = do
    found ← violations d p a s.validators
    sized ←
        (if is_empty found
          then size d p a s.sizing_rules d.allocation found
          else ok (d.allocation, found))
    ok (not (is_empty found), sized)

  -- `RiskService.decide`. An exception before the breaker leaves the lock file alone.
  unfoldable pub decide :
      RiskService F
      → StrategyDecision F
      → PortfolioState F
      → AccountState F
      → Lock
      → Result (ExecutionDecision F) × Lock
  decide s d p a lock = elim (assess s d p a) [
    | err e ↦ (err e, lock)
    | ok (rejected, sized) ↦
        let (r, lock') = s.circuit_breaker.run p lock in
        (conclude d s.circuit_breaker rejected sized r, lock')
  ]

  -- Where the two loops end well, the breaker and the conclusion follow.
  pub decide_assessed :
      (s : RiskService F) (d : StrategyDecision F) (p : PortfolioState F) (a : AccountState F)
      (lock : Lock) (x : Bool × (F × List String))
      → assess s d p a ≡ ok x
      → decide s d p a lock ≡ (
        conclude d s.circuit_breaker x.0 x.1 (s.circuit_breaker.run p lock).0,
        (s.circuit_breaker.run p lock).1,
      )
  unfolding decide
  decide_assessed s d p a lock x h = rw (h, decide) refl
