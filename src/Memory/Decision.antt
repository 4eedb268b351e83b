-- ===== src/Memory/Decision.antt =====
-- `LearningDecision` (src/memory/models.py).
use suky_tradin_bot.Common.Text.{is_nil, is_blank}
use suky_tradin_bot.Strategy.Decision.{Metadata}
use suky_tradin_bot.Common.Time.{Datetime, require_utc}
use suky_tradin_bot.Base.{not, String}
use suky_tradin_bot.Base.Int.{ℤ, ltb_ℤ, pos}
use suky_tradin_bot.Float.{Float, in_unit}
use suky_tradin_bot.Common.Errors.{Result, ◌>>◌, reject_if}

pub record LearningDecision (F : Type 0) : Type 0 where
  pub timestamp : Datetime
  pub symbol : String
  pub strategy_id : String
  pub regime_id : ℤ
  pub production_allocation : F
  pub recommended_allocation : F
  pub confidence : F
  pub sample_size : ℤ
  pub rationale : String
  pub model_version : String
  pub metadata : Metadata F

module _ {F : Type 0} ⦃fl : Float F⦄ where
  -- `LearningDecision.__post_init__`
  unfoldable pub check_learning_decision : LearningDecision F → Result (Unit {0})
  check_learning_decision d = do
    require_utc d.timestamp "timestamp"
    reject_if (is_nil d.symbol) "symbol must not be empty"
    reject_if (is_nil d.strategy_id) "strategy_id must not be empty"
    reject_if (ltb_ℤ d.regime_id (pos 0)) "regime_id must be >= 0"
    reject_if (not (in_unit d.production_allocation)) "production_allocation must be in [0.0, 1.0]"
    reject_if (not (in_unit d.recommended_allocation))
        "recommended_allocation must be in [0.0, 1.0]"
    reject_if (not (in_unit d.confidence)) "confidence must be in [0.0, 1.0]"
    reject_if (ltb_ℤ d.sample_size (pos 0)) "sample_size must be >= 0"
    reject_if (is_blank d.rationale) "rationale must not be empty"
    reject_if (is_nil d.model_version) "model_version must not be empty"
