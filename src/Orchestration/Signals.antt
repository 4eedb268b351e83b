-- ===== src/Orchestration/Signals.antt =====
-- What the policies share: the context checks, who is considered and agrees, and the outcome
-- (src/orchestration/signals.py).
use suky_tradin_bot.Common.Text.{contains}
use suky_tradin_bot.Base.Int.{ℤ, leb_ℤ}
use suky_tradin_bot.Orchestration.Decision.{ArbitrationOutcome, confirmed, suppressed, adjusted}
use suky_tradin_bot.Base.{Bool, true, false, not, Option, none, some, str_eq, if◌then◌else◌, ◌&&◌}
use suky_tradin_bot.Float.{Float, zero_f}
use suky_tradin_bot.Common.Errors.{Result, ok, mismatched_signal, ◌>>◌, raise_if}
use suky_tradin_bot.Strategy.Decision.{StrategyDecision}
use suky_tradin_bot.Memory.Decision.{LearningDecision}
use suky_tradin_bot.Nlp.Signal.{NewsSignal}

-- `a != b` of integers.
abbrev pub same_id : ℤ → ℤ → Bool
same_id a b = leb_ℤ a b && leb_ℤ b a

module _ {F : Type 0} ⦃fl : Float F⦄ where
  open fl use {le, eq, sub, abs}

  unfoldable pub require_matching_learner_context :
      StrategyDecision F → LearningDecision F → Result (Unit {0})
  require_matching_learner_context d l = do
    raise_if (not (str_eq l.symbol d.symbol)) (mismatched_signal "learning_decision.symbol")
    raise_if (not (str_eq l.strategy_id d.strategy_id))
        (mismatched_signal "learning_decision.strategy_id")
    raise_if (not (same_id l.regime_id d.regime_id))
        (mismatched_signal "learning_decision.regime_id")

  unfoldable pub require_matching_news_context :
      StrategyDecision F → NewsSignal F → Result (Unit {0})
  require_matching_news_context d n =
      raise_if (not (contains d.symbol n.symbols)) (mismatched_signal "strategy_decision.symbol")

  -- `validate_context`
  unfoldable pub validate_context :
      StrategyDecision F → Option (LearningDecision F) → Option (NewsSignal F) → Result (Unit {0})
  validate_context d learning news = do
    elim learning [ none ↦ ok tt | some l ↦ require_matching_learner_context d l ]
    elim news [ none ↦ ok tt | some n ↦ require_matching_news_context d n ]

  unfoldable pub learner_considered_and_agrees :
      StrategyDecision F → Option (LearningDecision F) → F → Bool × Bool
  learner_considered_and_agrees d none tolerance = (false, false)
  learner_considered_and_agrees d (some l) tolerance =
      if eq d.allocation zero_f
      then (true, true)
      else (true, le (abs (sub l.recommended_allocation d.allocation)) tolerance)

  unfoldable pub news_considered_and_agrees :
      StrategyDecision F → Option (NewsSignal F) → Bool × Bool
  news_considered_and_agrees d none = (false, false)
  news_considered_and_agrees d (some n) =
      if eq d.allocation zero_f
      then (true, true)
      else (true, not (str_eq n.sentiment_label "negative"))

  unfoldable pub classify_outcome : F → F → ArbitrationOutcome
  classify_outcome primary final =
      if eq final primary then confirmed else if eq final zero_f then suppressed else adjusted
