-- ===== src/MarketData/Models.antt =====
-- The records of src/market_data/models.py with their checks.
use suky_tradin_bot.Base.{
  Bool, true, false, not, ◌&&◌, Option, none, some, String, List, [], ◌∷◌, is_some,
}
use suky_tradin_bot.Base.Int.{ℤ}
use suky_tradin_bot.Common.Time.{Datetime, require_utc}
use suky_tradin_bot.Common.Errors.{Result, ◌>>◌, reject_if}
use suky_tradin_bot.Float.{Float, zero_f, max_f, min_f}

pub data Timeframe : Type 0 where
  min_1 min_5 min_15 hour_1 day_1 : Timeframe

pub data CorporateActionType : Type 0 where
  split dividend merger spinoff : CorporateActionType

pub record Bar (F : Type 0) : Type 0 where
  pub symbol : String
  pub timestamp : Datetime
  pub timeframe : Timeframe
  pub opening : F
  pub high : F
  pub low : F
  pub close : F
  pub volume : F
  pub trade_count : Option ℤ
  pub vwap : Option F

pub record Trade (F : Type 0) : Type 0 where
  pub symbol : String
  pub timestamp : Datetime
  pub price : F
  pub size : F
  pub exchange : String
  pub trade_id : String
  pub conditions : List String

pub record Quote (F : Type 0) : Type 0 where
  pub symbol : String
  pub timestamp : Datetime
  pub bid_price : F
  pub bid_size : F
  pub ask_price : F
  pub ask_size : F
  pub bid_exchange : String
  pub ask_exchange : String

pub record PriceLevel (F : Type 0) : Type 0 where
  pub price : F
  pub size : F

pub record OrderBook (F : Type 0) : Type 0 where
  pub symbol : String
  pub timestamp : Datetime
  pub bids : List (PriceLevel F)
  pub asks : List (PriceLevel F)

pub record Snapshot (F : Type 0) : Type 0 where
  pub symbol : String
  pub timestamp : Datetime
  pub latest_trade : Option (Trade F)
  pub latest_quote : Option (Quote F)
  pub daily_bar : Option (Bar F)
  pub previous_daily_bar : Option (Bar F)

pub record CorporateAction (F : Type 0) : Type 0 where
  pub symbol : String
  pub ex_date : Datetime
  pub action_type : CorporateActionType
  pub ratio : Option F
  pub cash_amount : Option F
  pub description : String

unfoldable pub is_split : CorporateActionType → Bool
is_split split = true
is_split _ = false

unfoldable pub is_dividend : CorporateActionType → Bool
is_dividend dividend = true
is_dividend _ = false

module _ {F : Type 0} ⦃fl : Float F⦄ where
  open fl use {le, lt, eq}

  -- `Bar.__post_init__`
  unfoldable pub check_bar : Bar F → Result (Unit {0})
  check_bar b = do
    require_utc b.timestamp "timestamp"
    reject_if (lt b.volume zero_f) "volume must be >= 0"
    reject_if (lt b.high (max_f (max_f b.opening b.close) b.low))
        "high must be >= max(open, close, low)"
    reject_if (lt (min_f (min_f b.opening b.close) b.high) b.low)
        "low must be <= min(open, close, high)"

  -- `Trade.__post_init__`
  unfoldable pub check_trade : Trade F → Result (Unit {0})
  check_trade t = do
    require_utc t.timestamp "timestamp"
    reject_if (le t.price zero_f) "price must be > 0"
    reject_if (le t.size zero_f) "size must be > 0"

  -- `Quote.__post_init__`
  unfoldable pub check_quote : Quote F → Result (Unit {0})
  check_quote q = do
    require_utc q.timestamp "timestamp"
    reject_if (lt q.bid_price zero_f) "bid_price must be >= 0"
    reject_if (lt q.bid_size zero_f) "bid_size must be >= 0"
    reject_if (lt q.ask_price zero_f) "ask_price must be >= 0"
    reject_if (lt q.ask_size zero_f) "ask_size must be >= 0"

  -- `PriceLevel.__post_init__`
  unfoldable pub check_price_level : PriceLevel F → Result (Unit {0})
  check_price_level l = do
    reject_if (le l.price zero_f) "price must be > 0"
    reject_if (le l.size zero_f) "size must be > 0"

  -- `not ratio`: None, or a float that is zero.
  unfoldable pub no_ratio : Option F → Bool
  no_ratio none = true
  no_ratio (some r) = eq r zero_f

  -- `ratio is not None and ratio <= 0`
  unfoldable pub bad_ratio : Option F → Bool
  bad_ratio none = false
  bad_ratio (some r) = le r zero_f

  -- `CorporateAction.__post_init__`
  unfoldable pub check_corporate_action : CorporateAction F → Result (Unit {0})
  check_corporate_action a = do
    require_utc a.ex_date "ex_date"
    reject_if (is_split a.action_type && no_ratio a.ratio) "SPLIT action requires a ratio"
    reject_if (is_dividend a.action_type && not (is_some a.cash_amount))
        "DIVIDEND action requires a cash_amount"
    reject_if (bad_ratio a.ratio) "ratio must be > 0"

module _ {F : Type 0} where
  -- `bids[0] if bids else None`
  abbrev first_level : List (PriceLevel F) → Option (PriceLevel F)
  first_level [] = none
  first_level (l ∷ _) = some l

  unfoldable pub best_bid : OrderBook F → Option (PriceLevel F)
  best_bid b = first_level b.bids

  unfoldable pub best_ask : OrderBook F → Option (PriceLevel F)
  best_ask b = first_level b.asks
