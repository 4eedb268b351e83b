-- ===== src/Nlp/ItemWire.antt =====
-- `to_dict` and `from_dict` of `NewsItem` (src/nlp/models.py), with their round trips.
use suky_tradin_bot.Base.{◌≡◌, refl, [], ◌∷◌}
use suky_tradin_bot.Common.Errors.{Result, ok, construct, ◌>>=◌}
use suky_tradin_bot.Common.Json.{
  Codec, IsCodec, Document, Mapping, string, strings, dict, get, at, to_string, to_strings,
  to_datetime,
}
use suky_tradin_bot.Float.{Float}
use suky_tradin_bot.Nlp.Item.{NewsItem, check_news_item}

module _ {F : Type 0} ⦃fl : Float F⦄ (c : Codec F) where
  unfoldable pub to_dict : NewsItem → Document F
  to_dict x = dict (
      ("source_id", string x.source_id)
      ∷ ("source", string x.source)
      ∷ ("headline", string x.headline)
      ∷ ("summary", string x.summary)
      ∷ ("symbols", strings x.symbols)
      ∷ ("published_at", string (c.isoformat x.published_at))
      ∷ [])

  unfoldable pub from_dict : Mapping F → Result (NewsItem)
  from_dict d = do
    source_id ← at to_string d "source_id"
    source ← at to_string d "source"
    headline ← at to_string d "headline"
    summary ← at to_string d "summary"
    symbols ← at to_strings d "symbols"
    published_at ← at (to_datetime c) d "published_at"
    construct check_news_item (record {
      source_id = source_id;
      source = source;
      headline = headline;
      summary = summary;
      symbols = symbols;
      published_at = published_at;
    })

  -- A checked item is read back from its dict.
  pub from_dict-to_dict :
      (x : NewsItem) → IsCodec c → check_news_item x ≡ ok tt → from_dict (get (to_dict x)) ≡ ok x
  unfolding to_dict from_dict
  from_dict-to_dict x laws checked = rw (laws.read_back x.published_at, checked) refl
