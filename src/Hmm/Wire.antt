-- ===== src/Hmm/Wire.antt =====
-- `to_dict` and `from_dict` of `RegimeState` (src/hmm/models.py), with their round trips.
use suky_tradin_bot.Base.{◌≡◌, refl, [], ◌∷◌}
use suky_tradin_bot.Common.Errors.{Result, ok, construct, ◌>>=◌}
use suky_tradin_bot.Common.Json.{
  Codec, IsCodec, Document, Mapping, string, float, integer, mapping, dict, get, at, to_string,
  to_float, to_integer, to_mapping, to_datetime,
}
use suky_tradin_bot.Float.{Float}
use suky_tradin_bot.Hmm.State.{RegimeState, check_regime_state}

module _ {F : Type 0} ⦃fl : Float F⦄ (c : Codec F) where
  unfoldable pub to_dict : RegimeState F → Document F
  to_dict x = dict (
      ("timestamp", string (c.isoformat x.timestamp))
      ∷ ("symbol", string x.symbol)
      ∷ ("regime_id", integer x.regime_id)
      ∷ ("confidence", float x.confidence)
      ∷ ("transition_probability", float x.transition_probability)
      ∷ ("model_version", string x.model_version)
      ∷ ("feature_pipeline_version", string x.feature_pipeline_version)
      ∷ ("metadata", mapping x.metadata)
      ∷ [])

  unfoldable pub from_dict : Mapping F → Result (RegimeState F)
  from_dict d = do
    timestamp ← at (to_datetime c) d "timestamp"
    symbol ← at to_string d "symbol"
    regime_id ← at to_integer d "regime_id"
    confidence ← at to_float d "confidence"
    transition_probability ← at to_float d "transition_probability"
    model_version ← at to_string d "model_version"
    feature_pipeline_version ← at to_string d "feature_pipeline_version"
    metadata ← at to_mapping d "metadata"
    construct check_regime_state (record {
      timestamp = timestamp;
      symbol = symbol;
      regime_id = regime_id;
      confidence = confidence;
      transition_probability = transition_probability;
      model_version = model_version;
      feature_pipeline_version = feature_pipeline_version;
      metadata = metadata;
    })

  -- A checked state is read back from its dict.
  pub from_dict-to_dict :
      (x : RegimeState F)
      → IsCodec c
      → check_regime_state x ≡ ok tt
      → from_dict (get (to_dict x)) ≡ ok x
  unfolding to_dict from_dict
  from_dict-to_dict x laws checked = rw (laws.read_back x.timestamp, checked) refl
