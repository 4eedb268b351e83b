-- ===== src/Tests/Pipeline.antt =====
-- A frame that passes the orchestration stage and the risk stage.
use suky_tradin_bot.Base.{◌≡◌, refl, ap, Bool, true, false, ℕ, Option, none, some, [], ◌∷◌}
use suky_tradin_bot.Float.{◌≼◌, zero_f}
use suky_tradin_bot.Float.Fixed.{Fixed, fixed_float, Fixed-IsFloat}
use suky_tradin_bot.Common.Errors.{Result, ok, err}
use suky_tradin_bot.Orchestration.Decision.{default_config, check_config, FinalDecision}
use suky_tradin_bot.Risk.Decision.{ExecutionDecision}
use suky_tradin_bot.Risk.Service.{default_service}
use suky_tradin_bot.App.Frame.{RuntimeFrame, run_stages}
use suky_tradin_bot.App.Emitters.{
  World, Metrics, OrchestrationEmitter, RiskEmitter, orchestrate_frame, risk_frame,
}
use suky_tradin_bot.App.Emitters.{
  orchestrate_decision, emit_final, risk_decision, effective_strategy_decision, decide_frame,
  emit_execution,
}
use suky_tradin_bot.Orchestration.Policies.{
  arbitrate, safety_first, finish, weight_for, learner_part, news_part, opening, safety_first_final,
}
use suky_tradin_bot.Orchestration.Signals.{
  validate_context, require_matching_learner_context, require_matching_news_context,
  learner_considered_and_agrees, news_considered_and_agrees, classify_outcome,
}
use suky_tradin_bot.Common.Text.{contains, is_blank, join}
use suky_tradin_bot.Orchestration.Decision.{
  check_signal_input, check_final_decision, expected_outcome,
}
use suky_tradin_bot.Common.Time.{require_utc}
use suky_tradin_bot.App.Frame.{check_frame, with_final_decision, with_execution_decision}
use suky_tradin_bot.Strategy.Decision.{check_strategy_decision}
use suky_tradin_bot.Risk.Service.{
  decide, assess, violations, size, breaker_allocation, build_reasoning, conclude, outcome,
  reduced_message,
}
use suky_tradin_bot.Risk.Validators.{
  buying_power_validator, projected_notional, buying_power_message,
}
use suky_tradin_bot.Risk.Sizing.{apply, min_list, headrooms, sector_headroom, headroom}
use suky_tradin_bot.Common.Dict.{lookup}
use suky_tradin_bot.Float.{sum_from}
use suky_tradin_bot.Risk.Breaker.{evaluate, trigger_emergency_hard_stop}
use suky_tradin_bot.Risk.Decision.{
  check_execution_decision, expected_type, require_consistent_decision_type,
}
use suky_tradin_bot.Risk.Portfolio.{
  daily_drawdown_pct, drawdown_pct, gross_exposure, peak_drawdown_pct, sector_value, ticker_value,
  weekly_drawdown_pct,
}
use suky_tradin_bot.App.Descent.{stages_descend}
use suky_tradin_bot.Tests.Data.{quarter, quarter-IsChecked, calm, account, sectors, news}

-- The news object to the request, and there is no learner.
abbrev arbiter : OrchestrationEmitter Fixed
arbiter = record {
  policy = none;
  config = default_config;
  learning_decision_provider = none;
  news_signal_provider = some (λ d. ok (some news));
}

abbrev guard : RiskEmitter Fixed
guard = record {
  risk_service = default_service sectors;
  portfolio_state_provider = ok calm;
  account_state_provider = ok (account 100_000);
}

abbrev zeros : Metrics
zeros = record { emitted_total = 0; errors_total = 0 }

abbrev world : World
world = record { orchestration = zeros; risk = zeros; lock = none }

-- The bar is its number here, and so are the feature vector and the regime.
abbrev frame : RuntimeFrame ℕ ℕ ℕ Fixed
frame = record {
  bar = 1;
  feature_vector = some 1;
  regime_state = some 1;
  strategy_decision = some quarter;
  final_decision = none;
  execution_decision = none;
}

default_config_checked : check_config {F = Fixed} default_config ≡ ok tt
unfolding check_config
default_config_checked = refl

abbrev through : World × Result (Option (RuntimeFrame ℕ ℕ ℕ Fixed))
through = run_stages (orchestrate_frame arbiter ∷ risk_frame guard ∷ []) world (some frame)

-- The frame that is left, or the one that went in.
abbrev left : Result (Option (RuntimeFrame ℕ ℕ ℕ Fixed)) → RuntimeFrame ℕ ℕ ℕ Fixed
left (ok (some frame')) = frame'
left _ = frame

abbrev is_frame : Result (Option (RuntimeFrame ℕ ℕ ℕ Fixed)) → Bool
is_frame (ok (some frame')) = true
is_frame _ = false

left-is_frame :
    (x : Result (Option (RuntimeFrame ℕ ℕ ℕ Fixed))) → is_frame x ≡ true → x ≡ ok (some (left x))
left-is_frame (ok (some frame')) h = refl
left-is_frame (ok none) h = cc
left-is_frame (err e) h = cc

emerges : is_frame through.1 ≡ true
unfolding run_stages orchestrate_frame orchestrate_decision emit_final arbitrate safety_first
    validate_context require_matching_learner_context require_matching_news_context contains finish
    check_signal_input learner_considered_and_agrees weight_for news_considered_and_agrees
    check_final_decision require_utc check_frame with_final_decision is_blank join expected_outcome
    learner_part news_part opening safety_first_final classify_outcome risk_frame risk_decision
    effective_strategy_decision check_strategy_decision decide_frame emit_execution decide assess
    violations default_service buying_power_validator projected_notional size apply min_list
    headrooms sector_headroom with_execution_decision lookup sum_from evaluate
    trigger_emergency_hard_stop check_execution_decision expected_type
    require_consistent_decision_type daily_drawdown_pct drawdown_pct gross_exposure
    peak_drawdown_pct sector_value ticker_value weekly_drawdown_pct breaker_allocation
    build_reasoning conclude outcome reduced_message headroom buying_power_message
emerges = refl

ran_through : through ≡ (through.0, ok (some (left through.1)))
ran_through = ap (λ x. (through.0, x)) (left-is_frame through.1 emerges)

stages_descend_example :
    (f : FinalDecision Fixed) × (e : ExecutionDecision Fixed) × ((left through.1).strategy_decision
      ≡ some quarter)
    × ((left through.1).final_decision ≡ some f)
    × ((left through.1).execution_decision ≡ some e)
    × (f.final_allocation ≼ quarter.allocation)
    × (e.approved_allocation ≼ f.final_allocation)
    × (zero_f ≼ e.approved_allocation)
stages_descend_example =
    stages_descend Fixed-IsFloat arbiter guard world frame quarter refl default_config_checked refl
      quarter-IsChecked ran_through
