-- ===== src/Risk/Portfolio.antt =====
-- `Position`, `PortfolioState`, `AccountState` (src/risk/models.py) and the limits
-- (src/risk/limits.py).
use suky_tradin_bot.Base.{Bool, String, str_eq, List, [], ◌∷◌, map, if◌then◌else◌}
use suky_tradin_bot.Float.{Float, zero_f, max_f, sum_f}
use suky_tradin_bot.Common.Text.{is_nil}
use suky_tradin_bot.Common.Errors.{Result, ◌>>◌, reject_if}

pub record Position (F : Type 0) : Type 0 where
  pub ticker : String
  pub sector : String
  pub market_value : F

pub record PortfolioState (F : Type 0) : Type 0 where
  pub equity : F
  pub positions : List (Position F)
  pub equity_start_of_day : F
  pub equity_start_of_week : F
  pub equity_peak : F

pub record AccountState (F : Type 0) : Type 0 where
  pub buying_power : F

-- The positions that a test accepts, as in `p for p in positions if test(p)`.
abbrev pub keep {ℓ} : {A : Type ℓ} → (A → Bool) → List A → List A
keep test [] = []
keep test (p ∷ ps) = if test p then p ∷ keep test ps else keep test ps

module _ {F : Type 0} ⦃fl : Float F⦄ where
  open fl use {decimal, sub, div, le, lt, infinity}

  unfoldable pub check_position : Position F → Result (Unit {0})
  check_position p = do
    reject_if (is_nil p.ticker) "ticker must not be empty"
    reject_if (lt p.market_value zero_f) "market_value must be >= 0"

  unfoldable pub check_account_state : AccountState F → Result (Unit {0})
  check_account_state a = reject_if (lt a.buying_power zero_f) "buying_power must be >= 0"

  unfoldable pub drawdown_pct : F → F → F
  drawdown_pct reference_equity current_equity =
      if le reference_equity zero_f
      then zero_f
      else max_f zero_f (div (sub reference_equity current_equity) reference_equity)

  abbrev pub market_values : List (Position F) → List F
  market_values = map λ p. p.market_value

  unfoldable pub gross_exposure : PortfolioState F → F
  gross_exposure s = sum_f (market_values s.positions)

  unfoldable pub gross_exposure_pct : PortfolioState F → F
  gross_exposure_pct s = if lt zero_f s.equity then div (gross_exposure s) s.equity else infinity

  unfoldable pub daily_drawdown_pct : PortfolioState F → F
  daily_drawdown_pct s = drawdown_pct s.equity_start_of_day s.equity

  unfoldable pub weekly_drawdown_pct : PortfolioState F → F
  weekly_drawdown_pct s = drawdown_pct s.equity_start_of_week s.equity

  unfoldable pub peak_drawdown_pct : PortfolioState F → F
  peak_drawdown_pct s = drawdown_pct s.equity_peak s.equity

  -- `sum(p.market_value for p in portfolio.positions if p.ticker == symbol)`
  unfoldable pub ticker_value : String → PortfolioState F → F
  ticker_value symbol s = sum_f (market_values (keep (λ p. str_eq p.ticker symbol) s.positions))

  -- `sum(p.market_value for p in portfolio.positions if p.sector == sector)`
  unfoldable pub sector_value : String → PortfolioState F → F
  sector_value sector s = sum_f (market_values (keep (λ p. str_eq p.sector sector) s.positions))

  -- src/risk/limits.py
  abbrev pub max_gross_exposure_pct : F
  max_gross_exposure_pct = decimal 80 2

  abbrev pub max_single_ticker_pct : F
  max_single_ticker_pct = decimal 15 2

  abbrev pub max_sector_exposure_pct : F
  max_sector_exposure_pct = decimal 30 2

  abbrev pub max_portfolio_leverage : F
  max_portfolio_leverage = decimal 125 2

  abbrev pub daily_drawdown_size_cut_pct : F
  daily_drawdown_size_cut_pct = decimal 2 2

  abbrev pub daily_drawdown_halt_pct : F
  daily_drawdown_halt_pct = decimal 3 2

  abbrev pub weekly_drawdown_halt_pct : F
  weekly_drawdown_halt_pct = decimal 7 2

  abbrev pub peak_drawdown_emergency_pct : F
  peak_drawdown_emergency_pct = decimal 10 2

  abbrev pub daily_drawdown_size_cut_multiplier : F
  daily_drawdown_size_cut_multiplier = decimal 50 2
