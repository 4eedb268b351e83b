-- ===== src/Tests/Stores.antt =====
-- The stores of news and experience, the bandit and the buffers at concrete inputs.
use suky_tradin_bot.Nlp.Service.{SentimentScorer, build_signals, build_signals_answers}
use suky_tradin_bot.Common.Errors.{ok, err, value_error}
use suky_tradin_bot.Nlp.Signal.{
  require_no_blank_entries, validate_sentiment, NewsSignal, is_sentiment_label, score_of,
}
use suky_tradin_bot.Base.Int.{pos}
use suky_tradin_bot.Float.Fixed.{Fixed, fixed_float}
use suky_tradin_bot.Common.Time.{require_utc, aware}
use suky_tradin_bot.Memory.Log.{append_all, load-append_logged, within, append_all-for_context}
use suky_tradin_bot.Nlp.Log.{add_items, firsts, load-add, add_items_dedups}
use suky_tradin_bot.Memory.Experience.{check_experience_record, ExperienceRecord}
use suky_tradin_bot.Memory.Bandit.{Sampling, check_memory_config, BanditPolicy}
use suky_tradin_bot.Memory.Store.{for_context, load_experience, append_logged, empty_experience}
use suky_tradin_bot.Nlp.Item.{NewsItem, check_news_item, check_sentiment_result, SentimentResult}
use suky_tradin_bot.Common.Jsonl.{load_file, is_key_sorted, JsonText, IsJsonText}
use suky_tradin_bot.Base.{
  none, ◌≡◌, ◌∷◌, ◌∷◌, ◌≡◌, Option, [], refl, ℕ, String, suc, arith, true, some, false, List, map,
}
use suky_tradin_bot.Common.Json.{Document, get}
use suky_tradin_bot.Nlp.Store.{load, add, empty_news}
use suky_tradin_bot.Memory.Learning.{learn, belief, after, wins, losses, learn-belief}
use suky_tradin_bot.App.Buffer.{
  Buffer, buffer, add_all, history, IsRecent, add_all-IsRecent, get as queue,
}
use suky_tradin_bot.Tests.Data.{number, noon}
use suky_tradin_bot.Tests.Wire.{codec, codec-IsCodec}

abbrev item : NewsItem
item = record {
  source_id = "1";
  source = "wire";
  headline = "Index falls";
  summary = "";
  symbols = "SPY" ∷ [];
  published_at = noon;
}

item_checked : check_news_item item ≡ ok tt
unfolding check_news_item require_utc require_no_blank_entries
item_checked = refl

-- Texts that are documents, or an empty line.
abbrev texts : JsonText Fixed
texts = record {
  Text = Option (Document Fixed);
  dumps = λ d. some d;
  loads = λ t. elim t [ none ↦ err (value_error "no document") | some d ↦ ok (get d) ];
  strip = λ t. t;
  is_blank_text = λ t. elim t [ none ↦ true | some _ ↦ false ];
  line = λ t. t;
  key_lt = λ a b. false;
}

texts-IsJsonText : IsJsonText texts
texts-IsJsonText = record {
  strip-line = λ d. refl;
  dumps_full = λ d. refl;
  loads-dumps = λ d _. refl;
}

loaded : load codec texts none ≡ ok empty_news
unfolding load load_file
loaded = refl

load-add_example :
    load codec texts (add codec texts empty_news none item).1
    ≡ ok (add codec texts empty_news none item).0
load-add_example =
    load-add codec texts empty_news none item codec-IsCodec texts-IsJsonText loaded item_checked

add_items_dedups_example :
    (add_items (item ∷ item ∷ []) empty_news).items ≡ firsts [] (item ∷ item ∷ [])
add_items_dedups_example = add_items_dedups (item ∷ item ∷ [])

abbrev win : ExperienceRecord Fixed
win = record {
  symbol = "SPY";
  strategy_id = "bull";
  regime_id = pos 1;
  production_allocation = number 25 2;
  realized_pnl = number 10 0;
  realized_pnl_pct = number 1 2;
  won = true;
  entry_timestamp = aware (pos 0) 1000;
  exit_timestamp = aware (pos 0) 3000;
  holding_period = pos 2000;
  source_run_id = "run";
  metadata = [];
}

win_checked : check_experience_record win ≡ ok tt
unfolding check_experience_record require_utc
win_checked = refl

logged : load_experience codec texts none ≡ ok empty_experience
unfolding load_experience load_file
logged = refl

in_order : is_key_sorted texts.key_lt win.metadata ≡ true
unfolding is_key_sorted
in_order = refl

load-append_logged_example :
    load_experience codec texts (append_logged codec texts empty_experience none win).1
    ≡ ok (append_logged codec texts empty_experience none win).0
load-append_logged_example =
    load-append_logged codec texts empty_experience none win codec-IsCodec texts-IsJsonText logged
      win_checked (omega arith) in_order

append_all-for_context_example :
    for_context (append_all (win ∷ []) empty_experience) "bull" (pos 1)
    ≡ within "bull" (pos 1) (win ∷ [])
append_all-for_context_example = append_all-for_context (win ∷ []) "bull" (pos 1)

abbrev sampling : Sampling Fixed
sampling = record {
  Random = ℕ;
  betavariate = λ n a b. (number 5 1, suc n);
  int_text = λ _. "1";
  round = λ x. elim (fixed_float.floor x) [ none ↦ err (value_error "nan") | some n ↦ ok n ];
}

abbrev bandit : BanditPolicy Fixed
bandit = record {
  config = record {
    prior_alpha = number 1 0;
    prior_beta = number 1 0;
    confidence_smoothing = number 10 0;
    model_version = "v1";
  };
  arms = [];
}

bandit_checked : check_memory_config bandit.config ≡ ok tt
unfolding check_memory_config
bandit_checked = refl

learn-belief_example :
    (q : BanditPolicy Fixed) × (learn sampling (win ∷ []) bandit ≡ ok q)
    × ((key : String)
        → belief sampling q key
          ≡ after sampling
              (wins sampling key (win ∷ []))
              (losses sampling key (win ∷ []))
              (belief sampling bandit key))
learn-belief_example = learn-belief sampling (win ∷ []) bandit bandit_checked

add_all-IsRecent_example :
    (b : Buffer NewsItem) × (buffer 1 ≡ ok b)
    × IsRecent 1
        (history (λ i. i.source) "wire" (item ∷ item ∷ []))
        (queue (λ i. i.source) (add_all (λ i. i.source) b (item ∷ item ∷ [])) "wire")
add_all-IsRecent_example =
    add_all-IsRecent (λ i. i.source) (item ∷ item ∷ []) 1 "wire" (omega arith)

abbrev scored : SentimentResult Fixed
scored = record {
  positive = number 1 1;
  negative = number 7 1;
  neutral = number 2 1;
  label = "negative";
}

abbrev scorer : SentimentScorer Fixed
scorer = record { model_version = "v1"; score_batch = λ _. ok (scored ∷ []) }

scored_checked : check_sentiment_result scored ≡ ok tt
unfolding check_sentiment_result validate_sentiment is_sentiment_label score_of
scored_checked = refl

noon_utc : require_utc noon "processed_at" ≡ ok tt
unfolding require_utc
noon_utc = refl

build_signals_answers_example :
    (signals : List (NewsSignal Fixed)) × (build_signals scorer (item ∷ []) noon ≡ ok signals)
    × (map {B = String × String} (λ n. (n.source, n.source_id)) signals ≡ ("wire", "1") ∷ [])
build_signals_answers_example =
    build_signals_answers scorer (item ∷ []) noon (scored ∷ []) refl noon_utc
      ((item_checked, refl), tt) refl (scored_checked, tt) refl
