-- ===== src/Backtest/Trade.antt =====
-- `EquityPoint`, `TradeRecord`, `ReplayRun` and `OpenPosition` (src/backtest/models.py).
use suky_tradin_bot.Common.Text.{is_nil, is_blank}
use suky_tradin_bot.Common.Time.{Datetime, require_utc, earlier, elapsed}
use suky_tradin_bot.Common.Dict.{Dict}
use suky_tradin_bot.Common.Errors.{Result, ◌>>◌, reject_if}
use suky_tradin_bot.Base.{not, String}
use suky_tradin_bot.Base.Int.{ℤ, pos, ltb_ℤ, leb_ℤ, eq_ℤ}
use suky_tradin_bot.Float.{Float, zero_f, of_int}
use suky_tradin_bot.Execution.Order.{OrderSide}

pub record EquityPoint (F : Type 0) : Type 0 where
  pub timestamp : Datetime
  pub equity : F

pub record TradeRecord (F : Type 0) : Type 0 where
  pub symbol : String
  pub strategy_id : String
  pub regime_id : ℤ
  pub side : OrderSide
  pub entry_timestamp : Datetime
  pub exit_timestamp : Datetime
  pub entry_price : F
  pub exit_price : F
  pub quantity : ℤ
  pub pnl : F
  pub pnl_pct : F
  pub holding_period : ℤ

pub record ReplayRun : Type 0 where
  pub run_id : String
  pub dataset : String
  pub pipeline_versions : Dict String
  pub git_commit : String
  pub timestamp : Datetime

pub record OpenPosition (F : Type 0) : Type 0 where
  pub symbol : String
  pub sector : String
  pub strategy_id : String
  pub regime_id : ℤ
  pub entry_timestamp : Datetime
  pub entry_price : F
  pub quantity : ℤ

-- `ReplayRun.__post_init__`
unfoldable pub check_replay_run : ReplayRun → Result (Unit {0})
check_replay_run r = do
  require_utc r.timestamp "timestamp"
  reject_if (is_blank r.run_id) "run_id must not be empty"
  reject_if (is_blank r.dataset) "dataset must not be empty"
  reject_if (is_blank r.git_commit) "git_commit must not be empty"

module _ {F : Type 0} ⦃fl : Float F⦄ where
  open fl use {le, lt, mul}

  -- `EquityPoint.__post_init__`
  unfoldable pub check_equity_point : EquityPoint F → Result (Unit {0})
  check_equity_point p = do
    require_utc p.timestamp "timestamp"
    reject_if (lt p.equity zero_f) "equity must be >= 0.0"

  -- `TradeRecord.__post_init__`
  unfoldable pub check_trade_record : TradeRecord F → Result (Unit {0})
  check_trade_record t = do
    require_utc t.entry_timestamp "entry_timestamp"
    require_utc t.exit_timestamp "exit_timestamp"
    reject_if (is_nil t.symbol) "symbol must not be empty"
    reject_if (is_nil t.strategy_id) "strategy_id must not be empty"
    reject_if (ltb_ℤ t.regime_id (pos 0)) "regime_id must be >= 0"
    reject_if (not (earlier t.entry_timestamp t.exit_timestamp))
        "exit_timestamp must be after entry_timestamp"
    reject_if (le t.entry_price zero_f) "entry_price must be > 0"
    reject_if (le t.exit_price zero_f) "exit_price must be > 0"
    reject_if (ltb_ℤ t.quantity (pos 1)) "quantity must be >= 1"
    reject_if (not (eq_ℤ t.holding_period (elapsed t.entry_timestamp t.exit_timestamp)))
        "holding_period must equal exit_timestamp - entry_timestamp"
    reject_if (leb_ℤ t.holding_period (pos 0)) "holding_period must be positive"

  -- `OpenPosition.__post_init__`
  unfoldable pub check_open_position : OpenPosition F → Result (Unit {0})
  check_open_position p = do
    require_utc p.entry_timestamp "entry_timestamp"
    reject_if (is_nil p.symbol) "symbol must not be empty"
    reject_if (le p.entry_price zero_f) "entry_price must be > 0"
    reject_if (ltb_ℤ p.quantity (pos 1)) "quantity must be >= 1"

  -- `OpenPosition.market_value`
  unfoldable pub market_value : OpenPosition F → F → F
  market_value p current_price = mul current_price (of_int p.quantity)
