-- ===== src/App/Frame.antt =====
-- `RuntimeFrame` (src/app/frame.py) and `compose_pipeline` (src/app/pipeline.py). A frame's bar,
-- feature vector and regime state are types of other packages that no stage here looks into.
use suky_tradin_bot.Base.{not, ◌&&◌, Option, none, some, is_some, String, List, [], ◌∷◌}
use suky_tradin_bot.Common.Errors.{Result, ok, err, ◌>>◌, reject_if, construct, value_error}
use suky_tradin_bot.Strategy.Decision.{StrategyDecision}
use suky_tradin_bot.Orchestration.Decision.{FinalDecision}
use suky_tradin_bot.Risk.Decision.{ExecutionDecision}

pub record RuntimeFrame (Bar FeatureVector RegimeState F : Type 0) : Type 0 where
  pub bar : Bar
  pub feature_vector : Option FeatureVector
  pub regime_state : Option RegimeState
  pub strategy_decision : Option (StrategyDecision F)
  pub final_decision : Option (FinalDecision F)
  pub execution_decision : Option (ExecutionDecision F)

-- `if self.x is None: raise ValueError(...)`, else its value.
abbrev pub require : {A : Type 0} → Option A → String → Result A
require none text = err (value_error text)
require (some a) text = ok a

-- A stage of the pipeline changes the state `S` of its emitter.
abbrev pub FrameStage : Type 0 → Type 0 → Type 0
FrameStage S Frame = S → Frame → S × Result (Option Frame)

-- The loop of `_on_bar` over the stages: it stops at the first stage that yields no frame.
-- What it returns beside the state is the last value of the variable `frame`.
unfoldable pub run_stages :
    {S Frame : Type 0} → List (FrameStage S Frame) → S → Option Frame → S × Result (Option Frame)
run_stages [] s frame = (s, ok frame)
run_stages (stage ∷ stages) s none = (s, ok none)
run_stages (stage ∷ stages) s (some frame) =
    let (s', outcome) = stage s frame in
    elim outcome [ ok frame' ↦ run_stages stages s' frame' | err e ↦ (s', err e) ]

module _ {B V R F : Type 0} where
  -- `RuntimeFrame.__post_init__`
  unfoldable pub check_frame : RuntimeFrame B V R F → Result (Unit {0})
  check_frame f = do
    reject_if (is_some f.regime_state && not (is_some f.feature_vector))
        "RuntimeFrame has regime_state but no feature_vector"
    reject_if (is_some f.strategy_decision && not (is_some f.regime_state))
        "RuntimeFrame has strategy_decision but no regime_state"
    reject_if (is_some f.final_decision && not (is_some f.strategy_decision))
        "RuntimeFrame has final_decision but no strategy_decision"
    reject_if (is_some f.execution_decision && not (is_some f.final_decision))
        "RuntimeFrame has execution_decision but no final_decision"

  unfoldable pub with_final_decision :
      RuntimeFrame B V R F → FinalDecision F → Result (RuntimeFrame B V R F)
  with_final_decision f x = construct check_frame (record f { final_decision = some x })

  unfoldable pub with_execution_decision :
      RuntimeFrame B V R F → ExecutionDecision F → Result (RuntimeFrame B V R F)
  with_execution_decision f x = construct check_frame (record f { execution_decision = some x })

  abbrev pub require_strategy_decision : RuntimeFrame B V R F → Result (StrategyDecision F)
  require_strategy_decision f =
      require f.strategy_decision "RuntimeFrame is missing strategy_decision"

  abbrev pub require_final_decision : RuntimeFrame B V R F → Result (FinalDecision F)
  require_final_decision f = require f.final_decision "RuntimeFrame is missing final_decision"
