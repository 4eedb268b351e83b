-- ===== src/Memory/Experience.antt =====
-- `ExperienceRecord` (src/memory/models.py).
use suky_tradin_bot.Strategy.Decision.{Metadata}
use suky_tradin_bot.Common.Text.{is_nil}
use suky_tradin_bot.Common.Time.{Datetime, require_utc, earlier, elapsed}
use suky_tradin_bot.Base.{not, Bool, String, same_bool}
use suky_tradin_bot.Base.Int.{ℤ, ltb_ℤ, pos, eq_ℤ}
use suky_tradin_bot.Float.{Float, in_unit, zero_f}
use suky_tradin_bot.Common.Errors.{Result, ◌>>◌, reject_if}

pub record ExperienceRecord (F : Type 0) : Type 0 where
  pub symbol : String
  pub strategy_id : String
  pub regime_id : ℤ
  pub production_allocation : F
  pub realized_pnl : F
  pub realized_pnl_pct : F
  pub won : Bool
  pub entry_timestamp : Datetime
  pub exit_timestamp : Datetime
  pub holding_period : ℤ
  pub source_run_id : String
  pub metadata : Metadata F

module _ {F : Type 0} ⦃fl : Float F⦄ where
  -- `ExperienceRecord.__post_init__`
  unfoldable pub check_experience_record : ExperienceRecord F → Result (Unit {0})
  check_experience_record r = do
    require_utc r.entry_timestamp "entry_timestamp"
    require_utc r.exit_timestamp "exit_timestamp"
    reject_if (is_nil r.symbol) "symbol must not be empty"
    reject_if (is_nil r.strategy_id) "strategy_id must not be empty"
    reject_if (ltb_ℤ r.regime_id (pos 0)) "regime_id must be >= 0"
    reject_if (not (in_unit r.production_allocation)) "production_allocation must be in [0.0, 1.0]"
    reject_if (not (earlier r.entry_timestamp r.exit_timestamp))
        "exit_timestamp must be after entry_timestamp"
    reject_if (not (eq_ℤ r.holding_period (elapsed r.entry_timestamp r.exit_timestamp)))
        "holding_period must equal exit_timestamp - entry_timestamp"
    reject_if (not (same_bool r.won (fl.lt zero_f r.realized_pnl)))
        "won must equal realized_pnl > 0.0"
    reject_if (is_nil r.source_run_id) "source_run_id must not be empty"
