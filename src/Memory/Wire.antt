-- ===== src/Memory/Wire.antt =====
-- `to_dict` and `from_dict` of `LearningDecision` (src/memory/models.py), with their round trips.
use suky_tradin_bot.Base.{◌≡◌, refl, [], ◌∷◌}
use suky_tradin_bot.Common.Errors.{Result, ok, construct, ◌>>=◌}
use suky_tradin_bot.Common.Json.{
  Codec, IsCodec, Document, Mapping, string, float, integer, mapping, dict, get, at, to_string,
  to_float, to_integer, to_mapping, to_datetime,
}
use suky_tradin_bot.Float.{Float}
use suky_tradin_bot.Memory.Decision.{LearningDecision, check_learning_decision}

module _ {F : Type 0} ⦃fl : Float F⦄ (c : Codec F) where
  unfoldable pub to_dict : LearningDecision F → Document F
  to_dict x = dict (
      ("timestamp", string (c.isoformat x.timestamp))
      ∷ ("symbol", string x.symbol)
      ∷ ("strategy_id", string x.strategy_id)
      ∷ ("regime_id", integer x.regime_id)
      ∷ ("production_allocation", float x.production_allocation)
      ∷ ("recommended_allocation", float x.recommended_allocation)
      ∷ ("confidence", float x.confidence)
      ∷ ("sample_size", integer x.sample_size)
      ∷ ("rationale", string x.rationale)
      ∷ ("model_version", string x.model_version)
      ∷ ("metadata", mapping x.metadata)
      ∷ [])

  unfoldable pub from_dict : Mapping F → Result (LearningDecision F)
  from_dict d = do
    timestamp ← at (to_datetime c) d "timestamp"
    symbol ← at to_string d "symbol"
    strategy_id ← at to_string d "strategy_id"
    regime_id ← at to_integer d "regime_id"
    production_allocation ← at to_float d "production_allocation"
    recommended_allocation ← at to_float d "recommended_allocation"
    confidence ← at to_float d "confidence"
    sample_size ← at to_integer d "sample_size"
    rationale ← at to_string d "rationale"
    model_version ← at to_string d "model_version"
    metadata ← at to_mapping d "metadata"
    construct check_learning_decision (record {
      timestamp = timestamp;
      symbol = symbol;
      strategy_id = strategy_id;
      regime_id = regime_id;
      production_allocation = production_allocation;
      recommended_allocation = recommended_allocation;
      confidence = confidence;
      sample_size = sample_size;
      rationale = rationale;
      model_version = model_version;
      metadata = metadata;
    })

  -- A checked decision is read back from its dict.
  pub from_dict-to_dict :
      (x : LearningDecision F)
      → IsCodec c
      → check_learning_decision x ≡ ok tt
      → from_dict (get (to_dict x)) ≡ ok x
  unfolding to_dict from_dict
  from_dict-to_dict x laws checked = rw (laws.read_back x.timestamp, checked) refl
