-- ===== src/Risk/Sizing.antt =====
-- The sizing rule of src/risk/sizing.py: the smallest headroom under the exposure limits.
pub mod Bounds
use suky_tradin_bot.Base.{Option, none, some, String, List, [], ◌∷◌, if◌then◌else◌}
use suky_tradin_bot.Float.{Float, zero_f, min_f, max_f}
use suky_tradin_bot.Common.Dict.{Dict, lookup}
use suky_tradin_bot.Strategy.Decision.{StrategyDecision}
use suky_tradin_bot.Risk.Portfolio.{
  PortfolioState, AccountState, gross_exposure, ticker_value, sector_value, max_gross_exposure_pct,
  max_single_ticker_pct, max_sector_exposure_pct,
}

-- The protocol `SizingRule` (src/risk/interfaces.py).
pub record SizingRule (F : Type 0) : Type 0 where
  pub name : String
  pub apply : StrategyDecision F → F → PortfolioState F → AccountState F → F

pub record ExposureCapacitySizing (F : Type 0) : Type 0 where
  pub sector_map : Dict String
  pub gross_cap : F
  pub ticker_cap : F
  pub sector_cap : F

module _ {F : Type 0} ⦃fl : Float F⦄ where
  open fl use {le, sub, div}

  -- `_headroom`
  unfoldable pub headroom : F → F → F → F
  headroom cap_pct existing_value equity =
      if le equity zero_f then zero_f else max_f zero_f (sub cap_pct (div existing_value equity))

  -- `min` of a list that begins with `x`.
  unfoldable pub min_list : F → List F → F
  min_list x [] = x
  min_list x (y ∷ ys) = min_list (min_f x y) ys

  unfoldable pub sector_headroom :
      ExposureCapacitySizing F → PortfolioState F → Option String → List F
  sector_headroom r p none = []
  sector_headroom r p (some sector) = headroom r.sector_cap (sector_value sector p) p.equity ∷ []

  unfoldable pub headrooms :
      ExposureCapacitySizing F → StrategyDecision F → PortfolioState F → List F
  headrooms r d p =
      headroom r.gross_cap (gross_exposure p) p.equity
      ∷ headroom r.ticker_cap (ticker_value d.symbol p) p.equity
      ∷ sector_headroom r p (lookup d.symbol r.sector_map)

  -- `ExposureCapacitySizing.apply`
  unfoldable pub apply : ExposureCapacitySizing F → StrategyDecision F → F → PortfolioState F → F
  apply r d requested_allocation p = min_list requested_allocation (headrooms r d p)

  abbrev pub exposure_capacity_sizing : ExposureCapacitySizing F → SizingRule F
  exposure_capacity_sizing r = record {
    name = "exposure_capacity_sizing";
    apply = λ d requested p _. apply r d requested p;
  }

  abbrev pub default_sizing : Dict String → ExposureCapacitySizing F
  default_sizing sector_map = record {
    sector_map = sector_map;
    gross_cap = max_gross_exposure_pct;
    ticker_cap = max_single_ticker_pct;
    sector_cap = max_sector_exposure_pct;
  }
