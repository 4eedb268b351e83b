-- ===== src/App/Emitters.antt =====
-- `OrchestrationEmitter` (orchestration_loop.py) and `RiskEmitter` (risk_loop.py). Their state is
-- the counters of their metrics and the lock file of the risk service's breaker; the gauge of the
-- latency and the logging are left out. The providers, which may raise, are parameters.
use suky_tradin_bot.Base.{ℕ, suc, Bool, true, false, Option, none, some, if◌then◌else◌}
use suky_tradin_bot.Common.Errors.{
  Error, Result, ok, err, ◌>>=◌, construct, mismatched_signal, invalid_sizing_result,
}
use suky_tradin_bot.Float.{Float}
use suky_tradin_bot.Strategy.Decision.{StrategyDecision, check_strategy_decision}
use suky_tradin_bot.Memory.Decision.{LearningDecision}
use suky_tradin_bot.Nlp.Signal.{NewsSignal}
use suky_tradin_bot.Orchestration.Decision.{FinalDecision, OrchestrationConfig}
use suky_tradin_bot.Orchestration.Policies.{Policy, arbitrate}
use suky_tradin_bot.Risk.Breaker.{Lock}
use suky_tradin_bot.Risk.Portfolio.{PortfolioState, AccountState}
use suky_tradin_bot.Risk.Decision.{ExecutionDecision}
use suky_tradin_bot.Risk.Service.{RiskService, decide}
use suky_tradin_bot.App.Frame.{
  RuntimeFrame, with_final_decision, with_execution_decision, require_strategy_decision,
  require_final_decision,
}

pub record Metrics : Type 0 where
  pub emitted_total : ℕ
  pub errors_total : ℕ

abbrev pub count_emitted : Metrics → Metrics
count_emitted m = record m { emitted_total = suc m.emitted_total }

abbrev pub count_error : Metrics → Metrics
count_error m = record m { errors_total = suc m.errors_total }

-- The state of the two emitters.
pub record World : Type 0 where
  pub orchestration : Metrics
  pub risk : Metrics
  pub lock : Lock

-- The subclasses of `OrchestrationError` and of `RiskError`.
abbrev pub is_orchestration_error : Error → Bool
is_orchestration_error (mismatched_signal text) = true
is_orchestration_error _ = false

abbrev pub is_risk_error : Error → Bool
is_risk_error (invalid_sizing_result text) = true
is_risk_error _ = false

-- `_learning_decision` and `_news_signal`: no provider, or one that raises, gives `None`.
abbrev pub consult : {A B : Type 0} → Option (A → Result (Option B)) → A → Option B
consult none a = none
consult (some provider) a = elim (provider a) [ ok answer ↦ answer | err _ ↦ none ]

pub record OrchestrationEmitter (F : Type 0) : Type 0 where
  pub policy : Option (Policy F)
  pub config : OrchestrationConfig F
  pub learning_decision_provider :
      Option (StrategyDecision F → Result (Option (LearningDecision F)))
  pub news_signal_provider : Option (StrategyDecision F → Result (Option (NewsSignal F)))

pub record RiskEmitter (F : Type 0) : Type 0 where
  pub risk_service : RiskService F
  pub portfolio_state_provider : Result (PortfolioState F)
  pub account_state_provider : Result (AccountState F)

module _ {B V R F : Type 0} ⦃fl : Float F⦄ where
  -- What `OrchestrationEmitter.handle_frame` does with the outcome of `arbitrate`.
  unfoldable pub emit_final :
      RuntimeFrame B V R F
      → World
      → Result (FinalDecision F)
      → World × Result (Option (RuntimeFrame B V R F))
  emit_final frame w (ok f) = (
    record w { orchestration = count_emitted w.orchestration },
    with_final_decision frame f >>= λ frame'. ok (some frame'),
  )
  emit_final frame w (err e) =
      if is_orchestration_error e
      then (record w { orchestration = count_error w.orchestration }, ok none)
      else (w, err e)

  unfoldable pub orchestrate_decision :
      OrchestrationEmitter F
      → World
      → RuntimeFrame B V R F
      → Result (StrategyDecision F)
      → World × Result (Option (RuntimeFrame B V R F))
  orchestrate_decision o w frame (err e) = (w, err e)
  orchestrate_decision o w frame (ok d) = emit_final frame w (
      arbitrate o.config o.policy d (consult o.learning_decision_provider d)
        (consult o.news_signal_provider d))

  -- `OrchestrationEmitter.handle_frame`
  unfoldable pub orchestrate_frame :
      OrchestrationEmitter F
      → World
      → RuntimeFrame B V R F
      → World × Result (Option (RuntimeFrame B V R F))
  orchestrate_frame o w frame = orchestrate_decision o w frame (require_strategy_decision frame)

  -- `_effective_strategy_decision`
  unfoldable pub effective_strategy_decision : RuntimeFrame B V R F → Result (StrategyDecision F)
  effective_strategy_decision frame = do
    d ← require_strategy_decision frame
    f ← require_final_decision frame
    construct check_strategy_decision (record d {
      allocation = f.final_allocation;
      confidence = f.confidence;
      reasoning = f.rationale;
    })

  -- What `RiskEmitter.handle_frame` does with the outcome of `RiskService.decide`.
  unfoldable pub emit_execution :
      RuntimeFrame B V R F
      → World
      → Result (ExecutionDecision F)
      → World × Result (Option (RuntimeFrame B V R F))
  emit_execution frame w (ok e) = (
    record w { risk = count_emitted w.risk },
    with_execution_decision frame e >>= λ frame'. ok (some frame'),
  )
  emit_execution frame w (err x) =
      if is_risk_error x then (record w { risk = count_error w.risk }, ok none) else (w, err x)

  -- The call of the service, once both providers answered.
  unfoldable pub decide_frame :
      RiskEmitter F
      → World
      → RuntimeFrame B V R F
      → StrategyDecision F
      → Result (PortfolioState F)
      → Result (AccountState F)
      → World × Result (Option (RuntimeFrame B V R F))
  decide_frame r w frame d (err _) account = (record w { risk = count_error w.risk }, ok none)
  decide_frame r w frame d (ok p) (err _) = (record w { risk = count_error w.risk }, ok none)
  decide_frame r w frame d (ok p) (ok a) =
      let (x, lock') = decide r.risk_service d p a w.lock in
      emit_execution frame (record w { lock = lock' }) x

  unfoldable pub risk_decision :
      RiskEmitter F
      → World
      → RuntimeFrame B V R F
      → Result (StrategyDecision F)
      → World × Result (Option (RuntimeFrame B V R F))
  risk_decision r w frame (err e) = (w, err e)
  risk_decision r w frame (ok d) =
      decide_frame r w frame d r.portfolio_state_provider r.account_state_provider

  -- `RiskEmitter.handle_frame`
  unfoldable pub risk_frame :
      RiskEmitter F → World → RuntimeFrame B V R F → World × Result (Option (RuntimeFrame B V R F))
  risk_frame r w frame = risk_decision r w frame (effective_strategy_decision frame)
