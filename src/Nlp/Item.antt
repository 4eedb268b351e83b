-- ===== src/Nlp/Item.antt =====
-- `NewsItem` and `SentimentResult` (src/nlp/models.py).
use suky_tradin_bot.Common.Text.{is_nil}
use suky_tradin_bot.Common.Time.{Datetime, require_utc}
use suky_tradin_bot.Base.{String, List}
use suky_tradin_bot.Float.{Float}
use suky_tradin_bot.Common.Errors.{Result, ◌>>◌, reject_if}
use suky_tradin_bot.Nlp.Signal.{require_no_blank_entries, validate_sentiment}

pub record NewsItem : Type 0 where
  pub source_id : String
  pub source : String
  pub headline : String
  pub summary : String
  pub symbols : List String
  pub published_at : Datetime

-- `NewsItem.__post_init__`
unfoldable pub check_news_item : NewsItem → Result (Unit {0})
check_news_item n = do
  require_utc n.published_at "published_at"
  reject_if (is_nil n.source_id) "source_id must not be empty"
  reject_if (is_nil n.source) "source must not be empty"
  reject_if (is_nil n.headline) "headline must not be empty"
  require_no_blank_entries n.symbols "symbols must not contain empty strings"

pub record SentimentResult (F : Type 0) : Type 0 where
  pub positive : F
  pub negative : F
  pub neutral : F
  pub label : String

-- `SentimentResult.__post_init__`
unfoldable pub check_sentiment_result :
    {F : Type 0} ⦃fl : Float F⦄ → SentimentResult F → Result (Unit {0})
check_sentiment_result s = validate_sentiment s.positive s.negative s.neutral s.label
