-- ===== src/Hmm/State.antt =====
-- `RegimeState` (src/hmm/models.py).
use suky_tradin_bot.Base.{not, String}
use suky_tradin_bot.Base.Int.{ℤ, pos, ltb_ℤ}
use suky_tradin_bot.Common.Text.{is_nil}
use suky_tradin_bot.Common.Time.{Datetime, require_utc}
use suky_tradin_bot.Common.Errors.{Result, ◌>>◌, reject_if}
use suky_tradin_bot.Float.{Float, in_unit}
use suky_tradin_bot.Strategy.Decision.{Metadata}

pub record RegimeState (F : Type 0) : Type 0 where
  pub timestamp : Datetime
  pub symbol : String
  pub regime_id : ℤ
  pub confidence : F
  pub transition_probability : F
  pub model_version : String
  pub feature_pipeline_version : String
  pub metadata : Metadata F

-- `RegimeState.__post_init__`
unfoldable pub check_regime_state : {F : Type 0} ⦃fl : Float F⦄ → RegimeState F → Result (Unit {0})
check_regime_state r = do
  require_utc r.timestamp "timestamp"
  reject_if (is_nil r.symbol) "symbol must not be empty"
  reject_if (ltb_ℤ r.regime_id (pos 0)) "regime_id must be >= 0"
  reject_if (not (in_unit r.confidence)) "confidence must be in [0, 1]"
  reject_if (not (in_unit r.transition_probability)) "transition_probability must be in [0, 1]"
