-- ===== src/Execution/Wire.antt =====
-- `to_dict` and `from_dict` of `OrderIntent` (src/execution/models.py), with their round trips.
use suky_tradin_bot.Base.{◌≡◌, refl, Option, none, some, String, [], ◌∷◌}
use suky_tradin_bot.Common.Errors.{Result, ok, construct, ◌>>=◌}
use suky_tradin_bot.Common.Json.{
  Codec, IsCodec, IsShort, Json, Document, Mapping, string, float, integer, mapping, object, dict,
  choice, get, at, to_string, to_float, to_float?, of_float?, to_integer, to_mapping, to_object,
  to_datetime,
}
use suky_tradin_bot.Float.{Float}
use suky_tradin_bot.Strategy.Decision.{check_strategy_decision}
use suky_tradin_bot.Risk.Decision.{check_execution_decision}
use suky_tradin_bot.Risk.Wire.{
  to_dict as execution_to_dict, from_dict as execution_from_dict,
  from_dict-to_dict as execution_back,
}
use suky_tradin_bot.Execution.Order.{
  OrderIntent, OrderSide, buy, sell, OrderType, market, limit, TimeInForce, day, gtc, side_value,
  check_order_intent,
}

-- `order_type.value` and `time_in_force.value`
abbrev pub type_value : OrderType → String
type_value market = "market"
type_value limit = "limit"

abbrev pub force_value : TimeInForce → String
force_value day = "day"
force_value gtc = "gtc"

-- The enumerations, called on a value.
abbrev pub to_side : {F : Type 0} → Json F → Result OrderSide
to_side = choice (("buy", buy) ∷ ("sell", sell) ∷ [])

abbrev pub to_type : {F : Type 0} → Json F → Result OrderType
to_type = choice (("market", market) ∷ ("limit", limit) ∷ [])

abbrev pub to_force : {F : Type 0} → Json F → Result TimeInForce
to_force = choice (("day", day) ∷ ("gtc", gtc) ∷ [])

side_back : (F : Type 0) (s : OrderSide) → to_side {F = F} (string (side_value s)) ≡ ok s
side_back F buy = refl
side_back F sell = refl

type_back : (F : Type 0) (t : OrderType) → to_type {F = F} (string (type_value t)) ≡ ok t
type_back F market = refl
type_back F limit = refl

force_back : (F : Type 0) (t : TimeInForce) → to_force {F = F} (string (force_value t)) ≡ ok t
force_back F day = refl
force_back F gtc = refl

price_back : {F : Type 0} (x : Option F) → to_float? (of_float? x) ≡ ok x
price_back none = refl
price_back (some x) = refl

module _ {F : Type 0} ⦃fl : Float F⦄ (c : Codec F) where
  unfoldable pub to_dict : OrderIntent F → Document F
  to_dict x = dict (
      ("timestamp", string (c.isoformat x.timestamp))
      ∷ ("symbol", string x.symbol)
      ∷ ("side", string (side_value x.side))
      ∷ ("quantity", integer x.quantity)
      ∷ ("order_type", string (type_value x.order_type))
      ∷ ("limit_price", of_float? x.limit_price)
      ∷ ("time_in_force", string (force_value x.time_in_force))
      ∷ ("reference_price", float x.reference_price)
      ∷ ("stop_loss", of_float? x.stop_loss)
      ∷ ("take_profit", of_float? x.take_profit)
      ∷ ("idempotency_key", string x.idempotency_key)
      ∷ ("reasoning", string x.reasoning)
      ∷ ("execution_reference", object (execution_to_dict c x.execution_reference))
      ∷ ("metadata", mapping x.metadata)
      ∷ [])

  unfoldable pub from_dict : Mapping F → Result (OrderIntent F)
  from_dict d = do
    timestamp ← at (to_datetime c) d "timestamp"
    symbol ← at to_string d "symbol"
    side ← at to_side d "side"
    quantity ← at to_integer d "quantity"
    order_type ← at to_type d "order_type"
    limit_price ← at to_float? d "limit_price"
    time_in_force ← at to_force d "time_in_force"
    reference_price ← at to_float d "reference_price"
    stop_loss ← at to_float? d "stop_loss"
    take_profit ← at to_float? d "take_profit"
    idempotency_key ← at to_string d "idempotency_key"
    reasoning ← at to_string d "reasoning"
    execution_reference ← at to_object d "execution_reference" >>= execution_from_dict c
    metadata ← at to_mapping d "metadata"
    construct check_order_intent (record {
      timestamp = timestamp;
      symbol = symbol;
      side = side;
      quantity = quantity;
      order_type = order_type;
      limit_price = limit_price;
      time_in_force = time_in_force;
      reference_price = reference_price;
      stop_loss = stop_loss;
      take_profit = take_profit;
      idempotency_key = idempotency_key;
      reasoning = reasoning;
      execution_reference = execution_reference;
      metadata = metadata;
    })

  -- A checked order for a checked decision and request, with a holding period of at most 2^52
  -- microseconds, is read back from its dict.
  pub from_dict-to_dict :
      (x : OrderIntent F)
      → IsCodec c
      → check_order_intent x ≡ ok tt
      → check_execution_decision x.execution_reference ≡ ok tt
      → check_strategy_decision x.execution_reference.strategy_reference ≡ ok tt
      → IsShort x.execution_reference.strategy_reference.expected_holding_period
      → from_dict (get (to_dict x)) ≡ ok x
  unfolding to_dict from_dict
  from_dict-to_dict x laws checked reference request short =
      rw
        (
          laws.read_back x.timestamp,
          side_back F x.side,
          type_back F x.order_type,
          force_back F x.time_in_force,
          price_back x.limit_price,
          price_back x.stop_loss,
          price_back x.take_profit,
          execution_back c x.execution_reference laws reference request short,
          checked,
        )
        refl
