-- ===== src/Tests/Orchestration.antt =====
-- The arbitration policies' theorems at concrete inputs.
use suky_tradin_bot.Float.{sum_from}
use suky_tradin_bot.Nlp.Signal.{check_news_signal, require_no_blank_entries}
use suky_tradin_bot.Memory.Decision.{check_learning_decision}
use suky_tradin_bot.Base.{◌≡◌, refl, some, true}
use suky_tradin_bot.Float.Fixed.{Fixed, fixed_float, Fixed-IsFloat}
use suky_tradin_bot.Common.Errors.{ok}
use suky_tradin_bot.Common.Time.{require_utc}
use suky_tradin_bot.Common.Text.{is_blank, contains}
use suky_tradin_bot.Orchestration.Policies.Consensus.{Unanimous, is_opposed, consensus-Unanimous}
use suky_tradin_bot.Orchestration.Decision.{default_config, check_config}
use suky_tradin_bot.Orchestration.Policies.{
  safety_first, consensus, confidence_policy, weighted_vote, WeightedVotePolicy, check_weights,
  total_weight, votes_of,
}
use suky_tradin_bot.Orchestration.Policies.Bounds.{Tempered, safety_first-Tempered}
use suky_tradin_bot.Orchestration.Policies.Votes.{
  LearnerSound, NewsSound, confidence_policy-Tempered,
}
use suky_tradin_bot.Orchestration.Policies.Weights.{weighted_vote-Tempered}
use suky_tradin_bot.Orchestration.Signals.{
  validate_context, learner_considered_and_agrees, require_matching_learner_context,
  news_considered_and_agrees, require_matching_news_context,
}
use suky_tradin_bot.Tests.Data.{quarter, quarter-IsChecked, number, advice, news}

default_config_checked : check_config {F = Fixed} default_config ≡ ok tt
unfolding check_config
default_config_checked = refl

-- Both advisors object.
advised : validate_context quarter (some advice) (some news) ≡ ok tt
unfolding validate_context require_matching_learner_context require_matching_news_context contains
advised = refl

safety_first-Tempered_example :
    Tempered quarter (safety_first default_config quarter (some advice) (some news))
safety_first-Tempered_example =
    safety_first-Tempered Fixed-IsFloat default_config quarter (some advice) (some news)
      default_config_checked quarter-IsChecked advised

consensus-Unanimous_example :
    Unanimous quarter
      (is_opposed quarter (some advice) (some news) default_config.agreement_tolerance)
      (consensus default_config quarter (some advice) (some news))
consensus-Unanimous_example =
    consensus-Unanimous Fixed-IsFloat default_config quarter (some advice) (some news)
      quarter-IsChecked advised

advice_sound : LearnerSound (some advice)
unfolding check_learning_decision require_utc is_blank
advice_sound = refl

news_sound : NewsSound (some news)
unfolding check_news_signal require_utc require_no_blank_entries
news_sound = refl

confidence_policy-Tempered_example :
    Tempered quarter (confidence_policy default_config quarter (some advice) (some news))
confidence_policy-Tempered_example =
    confidence_policy-Tempered Fixed-IsFloat default_config quarter (some advice) (some news)
      quarter-IsChecked advice_sound news_sound advised

abbrev voters : WeightedVotePolicy Fixed
voters = record {
  config = default_config;
  strategy_weight = number 5 1;
  learner_weight = number 3 1;
  news_weight = number 2 1;
}

voters_checked : check_weights voters ≡ ok tt
unfolding check_weights
voters_checked = refl

voters_finite :
    fixed_float.lt
      (total_weight (
        votes_of voters.strategy_weight voters.learner_weight voters.news_weight
          (learner_considered_and_agrees quarter (some advice) default_config.agreement_tolerance)
          (news_considered_and_agrees quarter (some news))))
      fixed_float.infinity
    ≡ true
unfolding learner_considered_and_agrees news_considered_and_agrees total_weight sum_from votes_of
voters_finite = refl

weighted_vote-Tempered_example :
    Tempered quarter (weighted_vote voters quarter (some advice) (some news))
weighted_vote-Tempered_example =
    weighted_vote-Tempered Fixed-IsFloat voters quarter (some advice) (some news) voters_checked
      (refl, refl, refl) quarter-IsChecked advised voters_finite
