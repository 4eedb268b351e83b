-- ===== src/Strategy/Wire.antt =====
-- `to_dict` and `from_dict` of `StrategyDecision` (src/strategy/models.py), with their round trips.
use suky_tradin_bot.Base.{◌≡◌, refl, [], ◌∷◌}
use suky_tradin_bot.Common.Errors.{Result, ok, construct, ◌>>=◌}
use suky_tradin_bot.Common.Json.{
  Codec, IsCodec, IsShort, Document, Mapping, string, float, integer, mapping, dict, get, at,
  to_string, to_float, to_integer, to_mapping, to_datetime, to_duration,
}
use suky_tradin_bot.Float.{Float}
use suky_tradin_bot.Strategy.Decision.{StrategyDecision, check_strategy_decision}

module _ {F : Type 0} ⦃fl : Float F⦄ (c : Codec F) where
  unfoldable pub to_dict : StrategyDecision F → Document F
  to_dict x = dict (
      ("timestamp", string (c.isoformat x.timestamp))
      ∷ ("symbol", string x.symbol)
      ∷ ("strategy_id", string x.strategy_id)
      ∷ ("regime_id", integer x.regime_id)
      ∷ ("allocation", float x.allocation)
      ∷ ("confidence", float x.confidence)
      ∷ ("expected_holding_period_seconds", float (c.total_seconds x.expected_holding_period))
      ∷ ("reasoning", string x.reasoning)
      ∷ ("metadata", mapping x.metadata)
      ∷ [])

  unfoldable pub from_dict : Mapping F → Result (StrategyDecision F)
  from_dict d = do
    timestamp ← at (to_datetime c) d "timestamp"
    symbol ← at to_string d "symbol"
    strategy_id ← at to_string d "strategy_id"
    regime_id ← at to_integer d "regime_id"
    allocation ← at to_float d "allocation"
    confidence ← at to_float d "confidence"
    expected_holding_period ← at (to_duration c) d "expected_holding_period_seconds"
    reasoning ← at to_string d "reasoning"
    metadata ← at to_mapping d "metadata"
    construct check_strategy_decision (record {
      timestamp = timestamp;
      symbol = symbol;
      strategy_id = strategy_id;
      regime_id = regime_id;
      allocation = allocation;
      confidence = confidence;
      expected_holding_period = expected_holding_period;
      reasoning = reasoning;
      metadata = metadata;
    })

  -- A checked decision whose holding period is of at most 2^52 microseconds is read back from its dict.
  pub from_dict-to_dict :
      (x : StrategyDecision F)
      → IsCodec c
      → check_strategy_decision x ≡ ok tt
      → IsShort x.expected_holding_period
      → from_dict (get (to_dict x)) ≡ ok x
  unfolding to_dict from_dict
  from_dict-to_dict x laws checked short =
      rw (laws.read_back x.timestamp, laws.seconds_back x.expected_holding_period short, checked)
        refl
