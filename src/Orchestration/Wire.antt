-- ===== src/Orchestration/Wire.antt =====
-- `to_dict` and `from_dict` of `SignalInput` and `FinalDecision` (src/orchestration/models.py), with their round trips.
use suky_tradin_bot.Base.{◌≡◌, refl, [], ◌∷◌}
use suky_tradin_bot.Common.Errors.{Result, ok, construct, ◌>>=◌}
use suky_tradin_bot.Common.Json.{
  Codec, IsCodec, Json, Document, Mapping, string, float, integer, boolean, mapping, object, dict,
  choice, get, at, to_string, to_float, to_integer, to_boolean, to_mapping, to_object, to_datetime,
}
use suky_tradin_bot.Float.{Float}
use suky_tradin_bot.Orchestration.Decision.{
  SignalInput, FinalDecision, ArbitrationOutcome, confirmed, adjusted, suppressed, outcome_value,
  check_signal_input, check_final_decision,
}

-- `ArbitrationOutcome(value)`
abbrev pub to_outcome : {F : Type 0} → Json F → Result ArbitrationOutcome
to_outcome =
    choice (("confirmed", confirmed) ∷ ("adjusted", adjusted) ∷ ("suppressed", suppressed) ∷ [])

outcome_back :
    (F : Type 0) (o : ArbitrationOutcome) → to_outcome {F = F} (string (outcome_value o)) ≡ ok o
outcome_back F confirmed = refl
outcome_back F adjusted = refl
outcome_back F suppressed = refl

module _ {F : Type 0} ⦃fl : Float F⦄ (c : Codec F) where
  unfoldable pub input_to_dict : SignalInput F → Document F
  input_to_dict x = dict (
      ("source", string x.source)
      ∷ ("considered", boolean x.considered)
      ∷ ("agrees", boolean x.agrees)
      ∷ ("weight", float x.weight)
      ∷ [])

  unfoldable pub input_from_dict : Mapping F → Result (SignalInput F)
  input_from_dict d = do
    source ← at to_string d "source"
    considered ← at to_boolean d "considered"
    agrees ← at to_boolean d "agrees"
    weight ← at to_float d "weight"
    construct check_signal_input
        (record { source = source; considered = considered; agrees = agrees; weight = weight })

  -- A checked input is read back from its dict.
  pub input_from_dict-input_to_dict :
      (x : SignalInput F)
      → IsCodec c
      → check_signal_input x ≡ ok tt
      → input_from_dict (get (input_to_dict x)) ≡ ok x
  unfolding input_to_dict input_from_dict
  input_from_dict-input_to_dict x laws checked = rw (checked) refl

  unfoldable pub to_dict : FinalDecision F → Document F
  to_dict x = dict (
      ("timestamp", string (c.isoformat x.timestamp))
      ∷ ("symbol", string x.symbol)
      ∷ ("strategy_id", string x.strategy_id)
      ∷ ("regime_id", integer x.regime_id)
      ∷ ("primary_allocation", float x.primary_allocation)
      ∷ ("final_allocation", float x.final_allocation)
      ∷ ("confidence", float x.confidence)
      ∷ ("outcome", string (outcome_value x.outcome))
      ∷ ("learner_input", object (input_to_dict x.learner_input))
      ∷ ("news_input", object (input_to_dict x.news_input))
      ∷ ("rationale", string x.rationale)
      ∷ ("metadata", mapping x.metadata)
      ∷ [])

  unfoldable pub from_dict : Mapping F → Result (FinalDecision F)
  from_dict d = do
    timestamp ← at (to_datetime c) d "timestamp"
    symbol ← at to_string d "symbol"
    strategy_id ← at to_string d "strategy_id"
    regime_id ← at to_integer d "regime_id"
    primary_allocation ← at to_float d "primary_allocation"
    final_allocation ← at to_float d "final_allocation"
    confidence ← at to_float d "confidence"
    outcome ← at to_outcome d "outcome"
    learner_input ← at to_object d "learner_input" >>= input_from_dict
    news_input ← at to_object d "news_input" >>= input_from_dict
    rationale ← at to_string d "rationale"
    metadata ← at to_mapping d "metadata"
    construct check_final_decision (record {
      timestamp = timestamp;
      symbol = symbol;
      strategy_id = strategy_id;
      regime_id = regime_id;
      primary_allocation = primary_allocation;
      final_allocation = final_allocation;
      confidence = confidence;
      outcome = outcome;
      learner_input = learner_input;
      news_input = news_input;
      rationale = rationale;
      metadata = metadata;
    })

  -- A checked decision with checked inputs is read back from its dict.
  pub from_dict-to_dict :
      (x : FinalDecision F)
      → IsCodec c
      → check_final_decision x ≡ ok tt
      → check_signal_input x.learner_input ≡ ok tt
      → check_signal_input x.news_input ≡ ok tt
      → from_dict (get (to_dict x)) ≡ ok x
  unfolding to_dict from_dict
  from_dict-to_dict x laws checked learner news =
      rw
        (
          laws.read_back x.timestamp,
          outcome_back F x.outcome,
          input_from_dict-input_to_dict x.learner_input laws learner,
          input_from_dict-input_to_dict x.news_input laws news,
          checked,
        )
        refl
