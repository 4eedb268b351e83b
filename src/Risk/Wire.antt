-- ===== src/Risk/Wire.antt =====
-- `to_dict` and `from_dict` of `ExecutionDecision` (src/risk/models.py), with their round trips.
use suky_tradin_bot.Base.{◌≡◌, refl, String, [], ◌∷◌}
use suky_tradin_bot.Common.Errors.{Result, ok, construct, ◌>>=◌}
use suky_tradin_bot.Common.Json.{
  Codec, IsCodec, IsShort, Json, Document, Mapping, string, float, boolean, strings, mapping,
  object, dict, choice, get, at, to_string, to_float, to_boolean, to_strings, to_mapping, to_object,
  to_datetime,
}
use suky_tradin_bot.Float.{Float}
use suky_tradin_bot.Strategy.Decision.{check_strategy_decision}
use suky_tradin_bot.Strategy.Wire.{
  to_dict as strategy_to_dict, from_dict as strategy_from_dict, from_dict-to_dict as strategy_back,
}
use suky_tradin_bot.Risk.Decision.{ExecutionDecision, DecisionType, check_execution_decision}

-- `decision_type.value`
abbrev pub type_value : DecisionType → String
type_value DecisionType.approved = "approved"
type_value DecisionType.reduced = "reduced"
type_value DecisionType.rejected = "rejected"

-- `DecisionType(value)`
abbrev pub to_type : {F : Type 0} → Json F → Result DecisionType
to_type = choice (
    ("approved", DecisionType.approved)
    ∷ ("reduced", DecisionType.reduced)
    ∷ ("rejected", DecisionType.rejected)
    ∷ [])

type_back : (F : Type 0) (t : DecisionType) → to_type {F = F} (string (type_value t)) ≡ ok t
type_back F DecisionType.approved = refl
type_back F DecisionType.reduced = refl
type_back F DecisionType.rejected = refl

module _ {F : Type 0} ⦃fl : Float F⦄ (c : Codec F) where
  unfoldable pub to_dict : ExecutionDecision F → Document F
  to_dict x = dict (
      ("timestamp", string (c.isoformat x.timestamp))
      ∷ ("symbol", string x.symbol)
      ∷ ("approved", boolean x.approved)
      ∷ ("approved_allocation", float x.approved_allocation)
      ∷ ("decision_type", string (type_value x.decision_type))
      ∷ ("risk_adjustments", strings x.risk_adjustments)
      ∷ ("reasoning", string x.reasoning)
      ∷ ("strategy_reference", object (strategy_to_dict c x.strategy_reference))
      ∷ ("metadata", mapping x.metadata)
      ∷ [])

  unfoldable pub from_dict : Mapping F → Result (ExecutionDecision F)
  from_dict d = do
    timestamp ← at (to_datetime c) d "timestamp"
    symbol ← at to_string d "symbol"
    approved ← at to_boolean d "approved"
    approved_allocation ← at to_float d "approved_allocation"
    decision_type ← at to_type d "decision_type"
    risk_adjustments ← at to_strings d "risk_adjustments"
    reasoning ← at to_string d "reasoning"
    strategy_reference ← at to_object d "strategy_reference" >>= strategy_from_dict c
    metadata ← at to_mapping d "metadata"
    construct check_execution_decision (record {
      timestamp = timestamp;
      symbol = symbol;
      approved = approved;
      approved_allocation = approved_allocation;
      decision_type = decision_type;
      risk_adjustments = risk_adjustments;
      reasoning = reasoning;
      strategy_reference = strategy_reference;
      metadata = metadata;
    })

  -- A checked decision about a checked request, whose holding period is of at most 2^52 microseconds, is
  -- read back from its dict.
  pub from_dict-to_dict :
      (x : ExecutionDecision F)
      → IsCodec c
      → check_execution_decision x ≡ ok tt
      → check_strategy_decision x.strategy_reference ≡ ok tt
      → IsShort x.strategy_reference.expected_holding_period
      → from_dict (get (to_dict x)) ≡ ok x
  unfolding to_dict from_dict
  from_dict-to_dict x laws checked reference short =
      rw
        (
          laws.read_back x.timestamp,
          type_back F x.decision_type,
          strategy_back c x.strategy_reference laws reference short,
          checked,
        )
        refl
