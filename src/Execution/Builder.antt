-- ===== src/Execution/Builder.antt =====
-- `OrderBuilder.build` (order_builder.py), the stop-loss policies (stop_loss.py) and
-- `ExecutionService.decide` (execution_service.py). A datetime's `isoformat` is a parameter.
use suky_tradin_bot.Execution.Order.{
  TimeInForce, ExecutionContext, OrderIntent, FeatureSnapshot, side_value, market, OrderSide,
  check_order_intent,
}
use suky_tradin_bot.Execution.Router.{RoutingDecision, route}
use suky_tradin_bot.Base.{not, Option, none, some, String, str_eq, ◌<>◌, if◌then◌else◌, ◌&&◌, []}
use suky_tradin_bot.Base.Int.{ℤ}
use suky_tradin_bot.Execution.Order.{buy, sell}
use suky_tradin_bot.Float.{Float, zero_f, one_f}
use suky_tradin_bot.Common.Errors.{Result, ok, ◌>>◌, ◌>>=◌, reject_if, construct}
use suky_tradin_bot.Common.Time.{Datetime}
use suky_tradin_bot.Risk.Portfolio.{PortfolioState}
use suky_tradin_bot.Risk.Decision.{ExecutionDecision}

-- The texts that Python's own types print: an integer, a datetime in ISO format, and `repr`.
pub record Printer : Type 0 where
  pub int_text : ℤ → String
  pub isoformat : Datetime → String
  pub repr : String → String

-- The protocol `StopLossPolicy`.
pub record StopLossPolicy (F : Type 0) : Type 0 where
  pub name : String
  pub compute_stop_loss : ExecutionContext F → FeatureSnapshot F → F

pub record OrderBuilder (F : Type 0) : Type 0 where
  pub stop_loss_policy : StopLossPolicy F
  pub time_in_force : TimeInForce

module _ {F : Type 0} ⦃fl : Float F⦄ where
  open fl use {decimal, sub, mul, le, lt, show}

  -- `ATRStopPolicy`, whose `__post_init__` wants a positive multiplier.
  unfoldable pub atr_stop_policy : F → Result (StopLossPolicy F)
  atr_stop_policy atr_multiplier = do
    reject_if (le atr_multiplier zero_f) "atr_multiplier must be > 0"
    ok (record {
      name = "atr_stop";
      compute_stop_loss = λ c s. sub c.reference_price (mul atr_multiplier s.atr_14);
    })

  -- `FixedPercentPolicy`
  unfoldable pub fixed_percent_policy : F → Result (StopLossPolicy F)
  fixed_percent_policy percent = do
    reject_if (not (lt zero_f percent && lt percent one_f)) "percent must be in (0.0, 1.0)"
    ok (record {
      name = "fixed_percent_stop";
      compute_stop_loss = λ c _. mul c.reference_price (sub one_f percent);
    })

  module _ (print : Printer) where
    open print use {int_text, isoformat, repr}

    unfoldable pub routed_text : String → RoutingDecision → ExecutionDecision F → String
    routed_text verb r e =
        verb
        <> int_text r.quantity
        <> " shares of "
        <> e.symbol
        <> " toward target allocation "
        <> show ".4f" e.approved_allocation
        <> " (strategy "
        <> repr e.strategy_reference.strategy_id
        <> ")"

    unfoldable pub idempotency_key : ExecutionDecision F → RoutingDecision → String
    idempotency_key e r =
        e.symbol
        <> "-"
        <> isoformat e.timestamp
        <> "-"
        <> side_value r.side
        <> "-"
        <> int_text r.quantity
        <> "-"
        <> e.strategy_reference.strategy_id

    abbrev pub intent_of :
        OrderBuilder F
        → ExecutionDecision F
        → ExecutionContext F
        → RoutingDecision
        → Option F
        → String
        → OrderIntent F
    intent_of b e context r stop_loss reasoning = record {
      timestamp = e.timestamp;
      symbol = e.symbol;
      side = r.side;
      quantity = r.quantity;
      order_type = market;
      limit_price = none;
      time_in_force = b.time_in_force;
      reference_price = context.reference_price;
      stop_loss = stop_loss;
      take_profit = none;
      idempotency_key = idempotency_key e r;
      reasoning = reasoning;
      execution_reference = e;
      metadata = [];
    }

    -- The stop and the reasoning of a routed order; a stop at or above the price raises.
    unfoldable pub protect :
        OrderBuilder F
        → ExecutionDecision F
        → ExecutionContext F
        → FeatureSnapshot F
        → OrderSide
        → RoutingDecision
        → Result (Option F × String)
    unfolding routed_text
    protect b e context s buy r = do
      let stop_loss = b.stop_loss_policy.compute_stop_loss context s
      reject_if (le context.reference_price stop_loss) "produced a non-protective stop_loss"
      ok (
        some stop_loss,
        routed_text "Routed BUY " r e
            <> "; stop_loss="
            <> show ".4f" stop_loss
            <> " via "
            <> b.stop_loss_policy.name
            <> ".",
      )
    protect b e context s sell r = ok (none, routed_text "Routed SELL " r e <> ".")

    unfoldable pub build_routed :
        OrderBuilder F
        → ExecutionDecision F
        → ExecutionContext F
        → FeatureSnapshot F
        → Option RoutingDecision
        → Result (Option (OrderIntent F))
    build_routed b e context s none = ok none
    build_routed b e context s (some r) = do
      exits ← protect b e context s r.side r
      intent ← construct check_order_intent (intent_of b e context r exits.0 exits.1)
      ok (some intent)

    -- `OrderBuilder.build`
    unfoldable pub build :
        OrderBuilder F
        → ExecutionDecision F
        → PortfolioState F
        → ExecutionContext F
        → FeatureSnapshot F
        → Result (Option (OrderIntent F))
    build b e p context s = do
      reject_if (not (str_eq context.symbol e.symbol)) "context.symbol does not match"
      reject_if (not (str_eq s.symbol e.symbol)) "feature_snapshot.symbol does not match"
      routing ← route e p context.reference_price
      build_routed b e context s routing

    -- `ExecutionService.decide`; the two snapshot providers are parameters.
    unfoldable pub decide :
        (String → Result (ExecutionContext F))
        → (String → Result (FeatureSnapshot F))
        → OrderBuilder F
        → ExecutionDecision F
        → PortfolioState F
        → Result (Option (OrderIntent F))
    decide get_snapshot get_latest b e p =
        if not e.approved
        then ok none
        else do context ← get_snapshot e.symbol; s ← get_latest e.symbol; build b e p context s
