-- ===== src/Execution/Order.antt =====
-- `OrderIntent`, `ExecutionContext` and `FeatureSnapshot` (src/execution/models.py).
use suky_tradin_bot.Risk.Decision.{ExecutionDecision}
use suky_tradin_bot.Common.Text.{is_nil, is_blank}
use suky_tradin_bot.Common.Time.{require_utc, Datetime, same_time}
use suky_tradin_bot.Base.{Bool, true, false, not, Option, none, some, is_some, String, str_eq}
use suky_tradin_bot.Base.Int.{ℤ, pos, ltb_ℤ}
use suky_tradin_bot.Float.{Float, zero_f}
use suky_tradin_bot.Common.Errors.{Result, ◌>>◌, reject_if}
use suky_tradin_bot.Strategy.Decision.{Metadata}

pub data OrderSide : Type 0 where
  buy sell : OrderSide

pub data OrderType : Type 0 where
  market limit : OrderType

pub data TimeInForce : Type 0 where
  day gtc : TimeInForce

abbrev pub side_value : OrderSide → String
side_value buy = "buy"
side_value sell = "sell"

pub record OrderIntent (F : Type 0) : Type 0 where
  pub timestamp : Datetime
  pub symbol : String
  pub side : OrderSide
  pub quantity : ℤ
  pub order_type : OrderType
  pub limit_price : Option F
  pub time_in_force : TimeInForce
  pub reference_price : F
  pub stop_loss : Option F
  pub take_profit : Option F
  pub idempotency_key : String
  pub reasoning : String
  pub execution_reference : ExecutionDecision F
  pub metadata : Metadata F

pub record ExecutionContext (F : Type 0) : Type 0 where
  pub symbol : String
  pub timestamp : Datetime
  pub reference_price : F
  pub bid : Option F
  pub ask : Option F
  pub spread : Option F
  pub tick_size : F
  pub price_source : String

pub record FeatureSnapshot (F : Type 0) : Type 0 where
  pub symbol : String
  pub timestamp : Datetime
  pub atr_14 : F
  pub realized_volatility_20 : F

module _ {F : Type 0} ⦃fl : Float F⦄ where
  open fl use {le, lt}

  -- The limit price of a limit order is positive; a market order has none.
  unfoldable pub check_limit_price : OrderType → Option F → Result (Unit {0})
  check_limit_price limit none = reject_if true "limit_price must be a positive float"
  check_limit_price limit (some price) =
      reject_if (le price zero_f) "limit_price must be a positive float"
  check_limit_price market price = reject_if (is_some price) "limit_price must be None"

  -- `x is None or x >= bound`
  abbrev none_or_at_least : Option F → F → Bool
  none_or_at_least none bound = true
  none_or_at_least (some x) bound = le bound x

  -- `x is not None and x <= bound`
  abbrev given_at_most : Option F → F → Bool
  given_at_most none bound = false
  given_at_most (some x) bound = le x bound

  -- The stop and the target of a buy; a sell has neither.
  unfoldable pub check_exits : OrderSide → F → Option F → Option F → Result (Unit {0})
  check_exits buy reference_price stop_loss take_profit = do
    reject_if (none_or_at_least stop_loss reference_price)
        "stop_loss must be a float strictly less than reference_price for a BUY"
    reject_if (given_at_most take_profit reference_price)
        "take_profit must be strictly greater than reference_price when set"
  check_exits sell reference_price stop_loss take_profit = do
    reject_if (is_some stop_loss) "stop_loss must be None for a SELL"
    reject_if (is_some take_profit) "take_profit must be None for a SELL"

  -- `OrderIntent.__post_init__`
  unfoldable pub check_order_intent : OrderIntent F → Result (Unit {0})
  unfolding check_limit_price check_exits
  check_order_intent o = do
    let reference = o.execution_reference
    require_utc o.timestamp "timestamp"
    reject_if (is_nil o.symbol) "symbol must not be empty"
    reject_if (not (str_eq o.symbol reference.symbol)) "symbol does not match"
    reject_if (not (same_time o.timestamp reference.timestamp)) "timestamp does not match"
    reject_if (not reference.approved) "execution_reference.approved must be True"
    reject_if (ltb_ℤ o.quantity (pos 1)) "quantity must be >= 1"
    reject_if (le o.reference_price zero_f) "reference_price must be > 0"
    check_limit_price o.order_type o.limit_price
    check_exits o.side o.reference_price o.stop_loss o.take_profit
    reject_if (is_blank o.idempotency_key) "idempotency_key must not be empty"
    reject_if (is_blank o.reasoning) "reasoning must not be empty"

  -- `ExecutionContext.__post_init__`
  unfoldable pub check_execution_context : ExecutionContext F → Result (Unit {0})
  check_execution_context c = do
    require_utc c.timestamp "timestamp"
    reject_if (is_nil c.symbol) "symbol must not be empty"
    reject_if (le c.reference_price zero_f) "reference_price must be > 0"
    reject_if (le c.tick_size zero_f) "tick_size must be > 0"
    reject_if (is_nil c.price_source) "price_source must not be empty"

  -- `FeatureSnapshot.__post_init__`
  unfoldable pub check_feature_snapshot : FeatureSnapshot F → Result (Unit {0})
  check_feature_snapshot s = do
    require_utc s.timestamp "timestamp"
    reject_if (is_nil s.symbol) "symbol must not be empty"
    reject_if (lt s.atr_14 zero_f) "atr_14 must be >= 0"
    reject_if (lt s.realized_volatility_20 zero_f) "realized_volatility_20 must be >= 0"
