-- ===== src/Risk/Validators.antt =====
-- The risk validators (src/risk/validators.py). Each answers with its violations; `validate` takes
-- the decision, the portfolio and the account.
use suky_tradin_bot.Base.{Option, none, some, String, ◌<>◌, List, [], ◌∷◌, if◌then◌else◌}
use suky_tradin_bot.Float.{Float, zero_f}
use suky_tradin_bot.Common.Dict.{Dict, lookup}
use suky_tradin_bot.Common.Errors.{Result, ok, err, not_implemented}
use suky_tradin_bot.Strategy.Decision.{StrategyDecision}
use suky_tradin_bot.Risk.Portfolio.{
  PortfolioState, AccountState, gross_exposure, ticker_value, sector_value,
}

-- The protocol `RiskValidator` (src/risk/interfaces.py).
pub record RiskValidator (F : Type 0) : Type 0 where
  pub name : String
  pub validate : StrategyDecision F → PortfolioState F → AccountState F → Result (List String)

module _ {F : Type 0} ⦃fl : Float F⦄ where
  open fl use {lt, add, mul, div, infinity, show}

  unfoldable pub safe_ratio : F → F → F
  safe_ratio numerator denominator =
      if lt zero_f denominator then div numerator denominator else infinity

  unfoldable pub projected_notional : StrategyDecision F → PortfolioState F → F
  projected_notional d p = mul d.allocation p.equity

  -- One violation if the value is over its limit.
  abbrev pub over_limit : F → F → String → List String
  over_limit value limit message = if lt limit value then message ∷ [] else []

  -- `GrossExposureValidator`
  unfoldable pub gross_exposure_validator : F → RiskValidator F
  unfolding safe_ratio projected_notional
  gross_exposure_validator cap = record {
    name = "gross_exposure";
    validate = λ d p _.
        let pct = safe_ratio (add (gross_exposure p) (projected_notional d p)) p.equity in
        ok (
          over_limit pct cap (
            "Projected gross exposure " <> show ".2%" pct <> " > " <> show ".0%" cap <> " limit."));
  }

  -- `LeverageValidator`
  unfoldable pub leverage_validator : F → RiskValidator F
  unfolding safe_ratio projected_notional
  leverage_validator cap = record {
    name = "leverage";
    validate = λ d p _.
        let ratio = safe_ratio (add (gross_exposure p) (projected_notional d p)) p.equity in
        ok (
          over_limit ratio cap (
            "Projected portfolio leverage "
            <> show ".2f" ratio
            <> "x > "
            <> show ".2f" cap
            <> "x limit."));
  }

  -- `SingleTickerExposureValidator`
  unfoldable pub single_ticker_exposure_validator : F → RiskValidator F
  unfolding safe_ratio projected_notional
  single_ticker_exposure_validator cap = record {
    name = "single_ticker_exposure";
    validate = λ d p _.
        let existing = ticker_value d.symbol p in
        let pct = safe_ratio (add existing (projected_notional d p)) p.equity in
        ok (
          over_limit pct cap (
            "Projected "
            <> d.symbol
            <> " exposure "
            <> show ".2%" pct
            <> " > "
            <> show ".0%" cap
            <> " single-ticker limit."));
  }

  sector_violations : F → StrategyDecision F → PortfolioState F → Option String → List String
  unfolding safe_ratio projected_notional
  sector_violations cap d p none = []
  sector_violations cap d p (some sector) =
      let pct = safe_ratio (add (sector_value sector p) (projected_notional d p)) p.equity in
      over_limit pct cap (
        "Projected "
        <> sector
        <> " sector exposure "
        <> show ".2%" pct
        <> " > "
        <> show ".0%" cap
        <> " sector limit.")

  -- `SectorExposureValidator`
  unfoldable pub sector_exposure_validator : Dict String → F → RiskValidator F
  unfolding sector_violations
  sector_exposure_validator sector_map cap = record {
    name = "sector_exposure";
    validate = λ d p _. ok (sector_violations cap d p (lookup d.symbol sector_map));
  }

  unfoldable pub buying_power_message : F → F → String
  buying_power_message notional buying_power =
      "Projected notional $"
      <> show ",.2f" notional
      <> " > available buying power $"
      <> show ",.2f" buying_power
      <> "."

  -- `BuyingPowerValidator`
  unfoldable pub buying_power_validator : RiskValidator F
  buying_power_validator = record {
    name = "buying_power";
    validate = λ d p a.
        let notional = projected_notional d p in
        ok (over_limit notional a.buying_power (buying_power_message notional a.buying_power));
  }

  -- `LiquidityValidator`
  unfoldable pub liquidity_validator : RiskValidator F
  liquidity_validator = record {
    name = "liquidity";
    validate = λ _ _ _. err (not_implemented "LiquidityValidator has no real implementation yet");
  }
