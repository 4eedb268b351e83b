-- ===== src/Nlp/Wire.antt =====
-- `to_dict` and `from_dict` of `NewsSignal` (src/nlp/models.py), with their round trips.
use suky_tradin_bot.Base.{◌≡◌, refl, [], ◌∷◌}
use suky_tradin_bot.Common.Errors.{Result, ok, construct, ◌>>=◌}
use suky_tradin_bot.Common.Json.{
  Codec, IsCodec, Document, Mapping, string, float, strings, mapping, dict, get, at, to_string,
  to_float, to_strings, to_mapping, to_datetime,
}
use suky_tradin_bot.Float.{Float}
use suky_tradin_bot.Nlp.Signal.{NewsSignal, check_news_signal}

module _ {F : Type 0} ⦃fl : Float F⦄ (c : Codec F) where
  unfoldable pub to_dict : NewsSignal F → Document F
  to_dict x = dict (
      ("signal_id", string x.signal_id)
      ∷ ("source_id", string x.source_id)
      ∷ ("source", string x.source)
      ∷ ("symbols", strings x.symbols)
      ∷ ("entities", strings x.entities)
      ∷ ("headline", string x.headline)
      ∷ ("published_at", string (c.isoformat x.published_at))
      ∷ ("processed_at", string (c.isoformat x.processed_at))
      ∷ ("sentiment_positive", float x.sentiment_positive)
      ∷ ("sentiment_negative", float x.sentiment_negative)
      ∷ ("sentiment_neutral", float x.sentiment_neutral)
      ∷ ("sentiment_label", string x.sentiment_label)
      ∷ ("model_version", string x.model_version)
      ∷ ("metadata", mapping x.metadata)
      ∷ [])

  unfoldable pub from_dict : Mapping F → Result (NewsSignal F)
  from_dict d = do
    signal_id ← at to_string d "signal_id"
    source_id ← at to_string d "source_id"
    source ← at to_string d "source"
    symbols ← at to_strings d "symbols"
    entities ← at to_strings d "entities"
    headline ← at to_string d "headline"
    published_at ← at (to_datetime c) d "published_at"
    processed_at ← at (to_datetime c) d "processed_at"
    sentiment_positive ← at to_float d "sentiment_positive"
    sentiment_negative ← at to_float d "sentiment_negative"
    sentiment_neutral ← at to_float d "sentiment_neutral"
    sentiment_label ← at to_string d "sentiment_label"
    model_version ← at to_string d "model_version"
    metadata ← at to_mapping d "metadata"
    construct check_news_signal (record {
      signal_id = signal_id;
      source_id = source_id;
      source = source;
      symbols = symbols;
      entities = entities;
      headline = headline;
      published_at = published_at;
      processed_at = processed_at;
      sentiment_positive = sentiment_positive;
      sentiment_negative = sentiment_negative;
      sentiment_neutral = sentiment_neutral;
      sentiment_label = sentiment_label;
      model_version = model_version;
      metadata = metadata;
    })

  -- A checked signal is read back from its dict.
  pub from_dict-to_dict :
      (x : NewsSignal F)
      → IsCodec c
      → check_news_signal x ≡ ok tt
      → from_dict (get (to_dict x)) ≡ ok x
  unfolding to_dict from_dict
  from_dict-to_dict x laws checked =
      rw (laws.read_back x.published_at, laws.read_back x.processed_at, checked) refl
