-- ===== src/Orchestration/Decision.antt =====
-- `SignalInput` and `FinalDecision` (src/orchestration/models.py), and the configuration
-- (src/orchestration/config.py).
use suky_tradin_bot.Strategy.Decision.{Metadata}
use suky_tradin_bot.Base.Int.{ltb_ℤ, ℤ, pos}
use suky_tradin_bot.Common.Text.{is_nil, is_blank}
use suky_tradin_bot.Common.Time.{require_utc, Datetime}
use suky_tradin_bot.Base.{not, ◌&&◌, Bool, true, false, String, if◌then◌else◌}
use suky_tradin_bot.Float.{Float, in_unit, zero_f, one_f}
use suky_tradin_bot.Common.Errors.{Result, ◌>>◌, reject_if}

pub data ArbitrationOutcome : Type 0 where
  confirmed adjusted suppressed : ArbitrationOutcome

-- `a is b` on the enumeration.
abbrev pub same_outcome : ArbitrationOutcome → ArbitrationOutcome → Bool
same_outcome confirmed confirmed = true
same_outcome adjusted adjusted = true
same_outcome suppressed suppressed = true
same_outcome _ _ = false

-- `outcome.value`
abbrev pub outcome_value : ArbitrationOutcome → String
outcome_value confirmed = "confirmed"
outcome_value adjusted = "adjusted"
outcome_value suppressed = "suppressed"

pub record SignalInput (F : Type 0) : Type 0 where
  pub source : String
  pub considered : Bool
  pub agrees : Bool
  pub weight : F

pub record FinalDecision (F : Type 0) : Type 0 where
  pub timestamp : Datetime
  pub symbol : String
  pub strategy_id : String
  pub regime_id : ℤ
  pub primary_allocation : F
  pub final_allocation : F
  pub confidence : F
  pub outcome : ArbitrationOutcome
  pub learner_input : SignalInput F
  pub news_input : SignalInput F
  pub rationale : String
  pub metadata : Metadata F

pub record OrchestrationConfig (F : Type 0) : Type 0 where
  pub agreement_tolerance : F
  pub disagreement_penalty : F

module _ {F : Type 0} ⦃fl : Float F⦄ where
  open fl use {le, lt, eq, decimal}

  -- `OrchestrationConfig()`
  abbrev pub default_config : OrchestrationConfig F
  default_config = record { agreement_tolerance = decimal 5 2; disagreement_penalty = decimal 5 1 }

  -- `OrchestrationConfig.__post_init__`
  unfoldable pub check_config : OrchestrationConfig F → Result (Unit {0})
  check_config c = do
    reject_if (lt c.agreement_tolerance zero_f) "agreement_tolerance must be >= 0"
    reject_if (not (lt zero_f c.disagreement_penalty && le c.disagreement_penalty one_f))
        "disagreement_penalty must be in (0.0, 1.0]"

  -- `SignalInput.__post_init__`
  unfoldable pub check_signal_input : SignalInput F → Result (Unit {0})
  check_signal_input s = do
    reject_if (is_nil s.source) "source must not be empty"
    reject_if (not s.considered && s.agrees) "agrees must be False when considered is False"
    reject_if (not s.considered && not (eq s.weight zero_f))
        "weight must be 0.0 when considered is False"
    reject_if (not (in_unit s.weight)) "weight must be in [0.0, 1.0]"

  -- The outcome that the two allocations call for, in `_require_consistent_outcome`.
  unfoldable pub expected_outcome : F → F → ArbitrationOutcome
  expected_outcome primary final =
      if eq final primary
      then confirmed
      else if eq final zero_f && lt zero_f primary
      then suppressed
      else adjusted

  -- `FinalDecision.__post_init__`
  unfoldable pub check_final_decision : FinalDecision F → Result (Unit {0})
  unfolding expected_outcome
  check_final_decision f = do
    require_utc f.timestamp "timestamp"
    reject_if (is_nil f.symbol) "symbol must not be empty"
    reject_if (is_nil f.strategy_id) "strategy_id must not be empty"
    reject_if (ltb_ℤ f.regime_id (pos 0)) "regime_id must be >= 0"
    reject_if (not (in_unit f.primary_allocation)) "primary_allocation must be in [0.0, 1.0]"
    reject_if (not (le zero_f f.final_allocation && le f.final_allocation f.primary_allocation))
        "final_allocation must be in [0.0, primary_allocation]"
    reject_if (not (in_unit f.confidence)) "confidence must be in [0.0, 1.0]"
    reject_if (is_blank f.rationale) "rationale must not be empty"
    reject_if
        (not (same_outcome f.outcome (expected_outcome f.primary_allocation f.final_allocation)))
        "outcome is inconsistent"
