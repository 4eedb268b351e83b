-- ===== src/Tests/Data.antt =====
-- The values that the tests run on.
use suky_tradin_bot.Common.Text.{is_blank}
use suky_tradin_bot.Base.{ℕ, String, [], ◌∷◌, refl}
use suky_tradin_bot.Base.Int.{pos}
use suky_tradin_bot.Float.Fixed.{Fixed, fixed_float}
use suky_tradin_bot.Common.Time.{Datetime, aware, require_utc}
use suky_tradin_bot.Common.Text.{is_blank}
use suky_tradin_bot.Common.Dict.{Dict}
use suky_tradin_bot.Strategy.Decision.{StrategyDecision, check_strategy_decision, IsChecked}
use suky_tradin_bot.Memory.Decision.{LearningDecision}
use suky_tradin_bot.Nlp.Signal.{NewsSignal}
use suky_tradin_bot.Risk.Portfolio.{PortfolioState, AccountState}

-- `number 25 2` is 0.25.
abbrev pub number : ℕ → ℕ → Fixed
number n k = fixed_float.decimal n k

abbrev pub noon : Datetime
noon = aware (pos 0) 1_700_000_000_000_000

abbrev pub requesting : Fixed → StrategyDecision Fixed
requesting allocation = record {
  timestamp = noon;
  symbol = "SPY";
  strategy_id = "bull";
  regime_id = pos 1;
  allocation = allocation;
  confidence = number 8 1;
  expected_holding_period = pos 5;
  reasoning = "trend";
  metadata = [];
}

abbrev pub quarter : StrategyDecision Fixed
quarter = requesting (number 25 2)

-- A portfolio of 100000 with one position, which began its day at `day` and had its peak at `peak`.
abbrev pub portfolio : ℕ → ℕ → PortfolioState Fixed
portfolio day peak = record {
  equity = number 100_000 0;
  positions = record { ticker = "SPY"; sector = "index"; market_value = number 10_000 0 } ∷ [];
  equity_start_of_day = number day 0;
  equity_start_of_week = number 100_000 0;
  equity_peak = number peak 0;
}

abbrev pub calm : PortfolioState Fixed
calm = portfolio 100_000 100_000

-- Down 2.4 percent in a day: trading goes on with half the size.
abbrev pub shaken : PortfolioState Fixed
shaken = portfolio 102_500 102_500

-- Down by half from its peak.
abbrev pub crashed : PortfolioState Fixed
crashed = portfolio 100_000 200_000

abbrev pub account : ℕ → AccountState Fixed
account n = record { buying_power = number n 0 }

abbrev pub sectors : Dict String
sectors = ("SPY", "index") ∷ []

abbrev pub advice : LearningDecision Fixed
advice = record {
  timestamp = noon;
  symbol = "SPY";
  strategy_id = "bull";
  regime_id = pos 1;
  production_allocation = number 25 2;
  recommended_allocation = number 5 2;
  confidence = number 4 1;
  sample_size = pos 30;
  rationale = "history";
  model_version = "v1";
  metadata = [];
}

abbrev pub news : NewsSignal Fixed
news = record {
  signal_id = "n1";
  source_id = "s1";
  source = "wire";
  symbols = "SPY" ∷ [];
  entities = [];
  headline = "Index falls";
  published_at = noon;
  processed_at = noon;
  sentiment_positive = number 1 1;
  sentiment_negative = number 7 1;
  sentiment_neutral = number 2 1;
  sentiment_label = "negative";
  model_version = "v1";
  metadata = [];
}

pub quarter-IsChecked : IsChecked quarter
unfolding check_strategy_decision require_utc is_blank
quarter-IsChecked = refl
