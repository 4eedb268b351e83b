-- ===== src/Strategy/Decision.antt =====
-- `StrategyDecision` (src/strategy/models.py) and the values that a metadata mapping holds.
use suky_tradin_bot.Base.{◌≡◌, false, arith, not, String, List}
use suky_tradin_bot.Base.Int.{ℤ, pos, leb_ℤ, ltb_ℤ}
use suky_tradin_bot.Float.{Float, in_unit, IsUnit}
use suky_tradin_bot.Common.Text.{is_blank, is_nil}
use suky_tradin_bot.Common.Errors.{Result, ◌>>◌, reject_if, ok}
use suky_tradin_bot.Common.Time.{Datetime, require_utc, require_utc_any}

-- The values that the program itself puts into a `Mapping[str, Any]`.
pub data Value (F : Type 0) : Type 0 where
  text : String → Value F
  number : F → Value F

abbrev pub Metadata : Type 0 → Type 0
Metadata F = List (String × Value F)

pub record StrategyDecision (F : Type 0) : Type 0 where
  pub timestamp : Datetime
  pub symbol : String
  pub strategy_id : String
  pub regime_id : ℤ
  pub allocation : F
  pub confidence : F
  pub expected_holding_period : ℤ
  pub reasoning : String
  pub metadata : Metadata F

module _ {F : Type 0} ⦃fl : Float F⦄ where
  -- `StrategyDecision.__post_init__`
  unfoldable pub check_strategy_decision : StrategyDecision F → Result (Unit {0})
  check_strategy_decision d = do
    require_utc d.timestamp "timestamp"
    reject_if (is_nil d.symbol) "symbol must not be empty"
    reject_if (is_nil d.strategy_id) "strategy_id must not be empty"
    reject_if (ltb_ℤ d.regime_id (pos 0)) "regime_id must be >= 0"
    reject_if (not (in_unit d.allocation)) "allocation must be in [0.0, 1.0]"
    reject_if (not (in_unit d.confidence)) "confidence must be in [0.0, 1.0]"
    reject_if (leb_ℤ d.expected_holding_period (pos 0)) "expected_holding_period must be positive"
    reject_if (is_blank d.reasoning) "reasoning must not be empty"

  -- A decision that exists has passed its checks.
  abbrev pub IsChecked : StrategyDecision F → Type 0
  IsChecked d = check_strategy_decision d ≡ ok tt

  -- What the checks give: a UTC time, a symbol, and an allocation and a confidence in [0, 1].
  pub record Checked (d : StrategyDecision F) : Type 0 where
    pub utc : (field_name : String) → require_utc d.timestamp field_name ≡ ok tt
    pub symbol_given : is_nil d.symbol ≡ false
    pub strategy_given : is_nil d.strategy_id ≡ false
    pub regime_given : ltb_ℤ d.regime_id (pos 0) ≡ false
    pub allocation_unit : IsUnit d.allocation
    pub confidence_unit : IsUnit d.confidence
    pub period_positive : leb_ℤ d.expected_holding_period (pos 0) ≡ false
    pub reasoning_given : is_blank d.reasoning ≡ false

  pub IsChecked→Checked : (d : StrategyDecision F) → IsChecked d → Checked d
  unfolding check_strategy_decision
  IsChecked→Checked d h = record {
    utc = λ f. require_utc_any d.timestamp "timestamp" f (ground arith);
    symbol_given = ground arith;
    strategy_given = ground arith;
    regime_given = ground arith;
    allocation_unit = ground arith;
    confidence_unit = ground arith;
    period_positive = ground arith;
    reasoning_given = ground arith;
  }
