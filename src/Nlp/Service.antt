-- ===== src/Nlp/Service.antt =====
-- `NlpService.build_signals` (src/nlp/service.py). The scorer, a third-party model behind a protocol,
-- is a parameter.
use Prim.Native.String.append
use suky_tradin_bot.Base.{
  ◌≡◌, refl, ap, true, false, not, ◌==◌, String, ◌<>◌, List, [], ◌∷◌, map, All, length, is_empty,
  if◌then◌else◌, arith,
}
use suky_tradin_bot.Common.Text.{is_nil}
use suky_tradin_bot.Common.Time.{Datetime, require_utc, earlier}
use suky_tradin_bot.Common.Errors.{Result, ok, construct, ◌>>=◌, ◌>>◌, raise_if, nlp_error}
use suky_tradin_bot.Float.{Float}
use suky_tradin_bot.Nlp.Item.{NewsItem, SentimentResult, check_news_item, check_sentiment_result}
use suky_tradin_bot.Nlp.Signal.{NewsSignal, check_news_signal, require_no_blank_entries}
use suky_tradin_bot.Nlp.Store.{dedup_key}

-- The protocol `SentimentScorer` (src/nlp/interfaces.py).
pub record SentimentScorer (F : Type 0) : Type 0 where
  pub model_version : String
  pub score_batch : List String → Result (List (SentimentResult F))

-- A checked item, published no later than `processed_at`.
abbrev pub IsReady : Datetime → NewsItem → Type 0
IsReady processed_at item =
    (check_news_item item ≡ ok tt) × (earlier processed_at item.published_at ≡ false)

is_nil-<> : (s t : String) → is_nil s ≡ false → is_nil (s <> t) ≡ false
is_nil-<> String.[] t h = ground arith
is_nil-<> (String.◌∷◌ c s) t h = λ i. is_nil (append.cons c s t i)

-- What the checks of an item give.
item_given :
    (item : NewsItem)
    → check_news_item item ≡ ok tt
    → (require_utc item.published_at "published_at" ≡ ok tt)
      × (is_nil item.source_id ≡ false)
      × (is_nil item.source ≡ false)
      × (is_nil item.headline ≡ false)
      × (require_no_blank_entries item.symbols "symbols must not contain empty strings" ≡ ok tt)
unfolding check_news_item
item_given item h = (ground arith, ground arith, ground arith, ground arith, ground arith)

module _ {F : Type 0} ⦃fl : Float F⦄ where
  unfoldable pub signal_of : String → Datetime → NewsItem → SentimentResult F → NewsSignal F
  signal_of model_version processed_at item result = record {
    signal_id = item.source <> ":" <> item.source_id;
    source_id = item.source_id;
    source = item.source;
    symbols = item.symbols;
    entities = [];
    headline = item.headline;
    published_at = item.published_at;
    processed_at = processed_at;
    sentiment_positive = result.positive;
    sentiment_negative = result.negative;
    sentiment_neutral = result.neutral;
    sentiment_label = result.label;
    model_version = model_version;
    metadata = [];
  }

  -- The comprehension over `zip(items, results)`.
  unfoldable pub signals_of :
      String → Datetime → List NewsItem → List (SentimentResult F) → Result (List (NewsSignal F))
  signals_of model_version processed_at (item ∷ items) (result ∷ results) = do
    signal ← construct check_news_signal (signal_of model_version processed_at item result)
    rest ← signals_of model_version processed_at items results
    ok (signal ∷ rest)
  signals_of model_version processed_at [] results = ok []
  signals_of model_version processed_at (item ∷ items) [] = ok []

  -- `NlpService.build_signals`
  unfoldable pub build_signals :
      SentimentScorer F → List NewsItem → Datetime → Result (List (NewsSignal F))
  build_signals scorer items processed_at = if is_empty items then ok [] else do
    results ← scorer.score_batch (map (λ i. i.headline) items)
    raise_if (not (length results == length items)) (nlp_error "scorer returned results")
    signals_of scorer.model_version processed_at items results

  signal_of-checked :
      (version : String) (processed_at : Datetime) (item : NewsItem) (result : SentimentResult F)
      → is_nil version ≡ false
      → require_utc processed_at "processed_at" ≡ ok tt
      → IsReady processed_at item
      → check_sentiment_result result ≡ ok tt
      → check_news_signal (signal_of version processed_at item result) ≡ ok tt
  unfolding check_news_signal signal_of check_sentiment_result require_no_blank_entries
  signal_of-checked version processed_at item result given utc (checked, late) scored =
      let (published, source_id, source, headline, symbols) = item_given item checked in
      rw
        (
          published,
          utc,
          is_nil-<> item.source (":" <> item.source_id) source,
          source_id,
          source,
          headline,
          symbols,
          late,
          scored,
          given,
        )
        refl

  signals_of_answers :
      (version : String) (processed_at : Datetime) (items : List NewsItem)
      (results : List (SentimentResult F))
      → is_nil version ≡ false
      → require_utc processed_at "processed_at" ≡ ok tt
      → All (IsReady processed_at) items
      → All (λ r. check_sentiment_result r ≡ ok tt) results
      → (length results == length items) ≡ true
      → (signals : List (NewsSignal F)) × (signals_of version processed_at items results
          ≡ ok signals)
        × (map (λ n. (n.source, n.source_id)) signals ≡ map dedup_key items)
  unfolding signals_of signal_of
  signals_of_answers version processed_at [] results given utc ready scored same = ([], refl, refl)
  signals_of_answers version processed_at (item ∷ items) [] given utc ready scored same =
      ground arith
  signals_of_answers version processed_at (item ∷ items) (result ∷ results) given utc (r, ready)
        (s, scored) same =
      let (rest, e, keys) =
        signals_of_answers version processed_at items results given utc ready scored
          (ground arith) in
      (
        signal_of version processed_at item result ∷ rest,
        rw (signal_of-checked version processed_at item result given utc r s, e) refl,
        ap (λ ks. dedup_key item ∷ ks) keys,
      )

  -- Where the scorer, with a model version that is not empty, gives as many checked results as there
  -- are headlines, the checked items that were published no later than a UTC `processed_at` are
  -- answered with one signal for each, in order and with its source and identifier.
  pub build_signals_answers :
      (scorer : SentimentScorer F) (items : List NewsItem) (processed_at : Datetime)
      (results : List (SentimentResult F))
      → is_nil scorer.model_version ≡ false
      → require_utc processed_at "processed_at" ≡ ok tt
      → All (IsReady processed_at) items
      → scorer.score_batch (map (λ i. i.headline) items) ≡ ok results
      → All (λ r. check_sentiment_result r ≡ ok tt) results
      → (length results == length items) ≡ true
      → (signals : List (NewsSignal F)) × (build_signals scorer items processed_at ≡ ok signals)
        × (map (λ n. (n.source, n.source_id)) signals ≡ map dedup_key items)
  unfolding build_signals
  build_signals_answers scorer [] processed_at results given utc ready answered scored same =
      ([], refl, refl)
  build_signals_answers scorer (item ∷ items) processed_at results given utc ready answered scored
        same =
      let (signals, e, keys) =
        signals_of_answers scorer.model_version processed_at (item ∷ items) results given utc ready
          scored same in
      (signals, rw (build_signals, answered, same, e) refl, keys)
