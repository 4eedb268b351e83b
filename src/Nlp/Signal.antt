-- ===== src/Nlp/Signal.antt =====
-- `NewsSignal` and the checks of its sentiment scores (src/nlp/models.py).
use suky_tradin_bot.Common.Text.{is_nil}
use suky_tradin_bot.Strategy.Decision.{Metadata}
use suky_tradin_bot.Common.Time.{require_utc, Datetime, earlier}
use suky_tradin_bot.Base.{not, String, List, ◌&&◌, ◌||◌, Bool, [], ◌∷◌, str_eq, if◌then◌else◌}
use suky_tradin_bot.Float.{Float, in_unit, max_f}
use suky_tradin_bot.Common.Errors.{Result, ◌>>◌, reject_if, ok}

pub record NewsSignal (F : Type 0) : Type 0 where
  pub signal_id : String
  pub source_id : String
  pub source : String
  pub symbols : List String
  pub entities : List String
  pub headline : String
  pub published_at : Datetime
  pub processed_at : Datetime
  pub sentiment_positive : F
  pub sentiment_negative : F
  pub sentiment_neutral : F
  pub sentiment_label : String
  pub model_version : String
  pub metadata : Metadata F

-- `_require_no_blank_entries`
unfoldable pub require_no_blank_entries : List String → String → Result (Unit {0})
require_no_blank_entries [] field_name = ok tt
require_no_blank_entries (v ∷ vs) field_name = do
  reject_if (is_nil v) field_name
  require_no_blank_entries vs field_name

unfoldable pub is_sentiment_label : String → Bool
is_sentiment_label label =
    str_eq label "positive" || str_eq label "negative" || str_eq label "neutral"

module _ {F : Type 0} ⦃fl : Float F⦄ where
  open fl use {decimal, add, le, eq}

  -- `scores[label]` for one of the three labels.
  unfoldable pub score_of : F → F → F → String → F
  score_of positive negative neutral label =
      if str_eq label "positive"
      then positive
      else if str_eq label "negative"
      then negative
      else neutral

  -- `_validate_sentiment`
  unfoldable pub validate_sentiment : F → F → F → String → Result (Unit {0})
  unfolding score_of is_sentiment_label
  validate_sentiment positive negative neutral label = do
    reject_if (not (in_unit positive)) "sentiment_positive must be in [0.0, 1.0]"
    reject_if (not (in_unit negative)) "sentiment_negative must be in [0.0, 1.0]"
    reject_if (not (in_unit neutral)) "sentiment_neutral must be in [0.0, 1.0]"
    let total = add (add positive negative) neutral
    reject_if (not (le (decimal 99 2) total && le total (decimal 101 2)))
        "the sentiment scores must sum to [0.99, 1.01]"
    reject_if (not (is_sentiment_label label)) "sentiment_label must be one of the labels"
    reject_if
        (not
          (eq (score_of positive negative neutral label) (max_f (max_f positive negative) neutral)))
        "sentiment_label does not match the argmax of the sentiment scores"

  -- `NewsSignal.__post_init__`
  unfoldable pub check_news_signal : NewsSignal F → Result (Unit {0})
  unfolding validate_sentiment
  check_news_signal n = do
    require_utc n.published_at "published_at"
    require_utc n.processed_at "processed_at"
    reject_if (is_nil n.signal_id) "signal_id must not be empty"
    reject_if (is_nil n.source_id) "source_id must not be empty"
    reject_if (is_nil n.source) "source must not be empty"
    reject_if (is_nil n.headline) "headline must not be empty"
    require_no_blank_entries n.symbols "symbols must not contain empty strings"
    require_no_blank_entries n.entities "entities must not contain empty strings"
    reject_if (earlier n.processed_at n.published_at) "processed_at must be >= published_at"
    validate_sentiment n.sentiment_positive n.sentiment_negative n.sentiment_neutral
        n.sentiment_label
    reject_if (is_nil n.model_version) "model_version must not be empty"
