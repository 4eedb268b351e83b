-- ===== src/Orchestration/Policies/Defs.antt =====
-- The four policies. Each checks the context, settles the final allocation and confidence, builds
-- the two `SignalInput`s, and then the `FinalDecision`; every one of these steps can raise.
use suky_tradin_bot.Common.Text.{join}
use suky_tradin_bot.Orchestration.Signals.{
  classify_outcome, validate_context, learner_considered_and_agrees, news_considered_and_agrees,
}
use suky_tradin_bot.Base.{
  Bool, not, ◌&&◌, ◌||◌, Option, none, some, String, ◌<>◌, List, [], ◌∷◌, ◌++◌, if◌then◌else◌, ℕ,
  ◌+◌, leb, ◌==◌, length, map,
}
use suky_tradin_bot.Float.{Float, zero_f, one_f, min_f, max_f, sum_f}
use suky_tradin_bot.Common.Errors.{Result, ◌>>=◌, ◌>>◌, construct, reject_if}
use suky_tradin_bot.Strategy.Decision.{StrategyDecision}
use suky_tradin_bot.Memory.Decision.{LearningDecision}
use suky_tradin_bot.Nlp.Signal.{NewsSignal}
use suky_tradin_bot.Orchestration.Decision.{
  SignalInput, FinalDecision, OrchestrationConfig, check_signal_input, check_final_decision,
  outcome_value,
}

-- "agrees" or "disagrees".
abbrev verb : Bool → String
verb agrees = if agrees then "agrees" else "disagrees"

abbrev pub yes_no : Bool → ℕ
yes_no b = if b then 1 else 0

-- `WeightedVotePolicy`
pub record WeightedVotePolicy (F : Type 0) : Type 0 where
  pub config : OrchestrationConfig F
  pub strategy_weight : F
  pub learner_weight : F
  pub news_weight : F

-- `considered and not agrees`
abbrev pub disagrees : Bool × Bool → Bool
disagrees (considered, agrees) = considered && not agrees

-- The protocol `ArbitrationPolicy`.
abbrev pub Policy : Type 0 → Type 0
Policy F =
    StrategyDecision F
    → Option (LearningDecision F)
    → Option (NewsSignal F)
    → Result (FinalDecision F)

module _ {F : Type 0} ⦃fl : Float F⦄ where
  open fl use {decimal, add, sub, mul, div, le, lt, eq, show}

  abbrev pub memory_input : Bool × Bool → F → SignalInput F
  memory_input (considered, agrees) weight = record {
    source = "memory";
    considered = considered;
    agrees = agrees;
    weight = weight;
  }

  abbrev pub nlp_input : Bool × Bool → F → SignalInput F
  nlp_input (considered, agrees) weight = record {
    source = "nlp";
    considered = considered;
    agrees = agrees;
    weight = weight;
  }

  abbrev pub final_of :
      StrategyDecision F → F → F → SignalInput F → SignalInput F → String → FinalDecision F
  final_of d final confidence learner news rationale = record {
    timestamp = d.timestamp;
    symbol = d.symbol;
    strategy_id = d.strategy_id;
    regime_id = d.regime_id;
    primary_allocation = d.allocation;
    final_allocation = final;
    confidence = confidence;
    outcome = classify_outcome d.allocation final;
    learner_input = learner;
    news_input = news;
    rationale = rationale;
    metadata = [];
  }

  -- The end of every policy: two checked inputs, then the checked decision.
  unfoldable pub finish :
      StrategyDecision F → F → F → SignalInput F → SignalInput F → String → Result (FinalDecision F)
  finish d final confidence learner news rationale = do
    learner_input ← construct check_signal_input learner
    news_input ← construct check_signal_input news
    construct check_final_decision (final_of d final confidence learner_input news_input rationale)

  -- What a rationale says of the learner and of the news; an advisor is considered if present.
  unfoldable pub learner_part : Option (LearningDecision F) → Bool → String → String
  learner_part none agrees suffix = "no learner signal considered"
  learner_part (some l) agrees suffix =
      "learner recommended "
      <> show ".3f" l.recommended_allocation
      <> " ("
      <> verb agrees
      <> suffix
      <> ")"

  unfoldable pub news_part : Option (NewsSignal F) → Bool → String → String
  news_part none agrees suffix = "no news signal considered"
  news_part (some n) agrees suffix =
      "news sentiment " <> n.sentiment_label <> " (" <> verb agrees <> suffix <> ")"

  -- The first part of a rationale.
  unfoldable pub opening : String → StrategyDecision F → String
  opening policy d = policy <> " strategy proposed allocation " <> show ".3f" d.allocation

  -- safety_first.py
  unfoldable pub weight_for : Bool × Bool → ℕ → F → F
  weight_for (considered, agrees) disagreement_count penalty =
      if not considered || agrees
      then zero_f
      else if leb 2 disagreement_count
      then decimal 5 1
      else penalty

  unfoldable pub safety_first_final : F → ℕ → F → F
  safety_first_final primary disagreement_count penalty =
      if eq primary zero_f || leb 2 disagreement_count
      then zero_f
      else if disagreement_count == 1
      then mul primary (sub one_f penalty)
      else primary

  unfoldable pub safety_first : OrchestrationConfig F → Policy F
  safety_first config d learning news = do
    validate_context d learning news
    let learner = learner_considered_and_agrees d learning config.agreement_tolerance
    let press = news_considered_and_agrees d news
    let count = yes_no (disagrees learner) + yes_no (disagrees press)
    let final = safety_first_final d.allocation count config.disagreement_penalty
    finish d final
        (if lt zero_f d.allocation then mul d.confidence (div final d.allocation) else d.confidence)
        (memory_input learner (weight_for learner count config.disagreement_penalty))
        (nlp_input press (weight_for press count config.disagreement_penalty))
        (join "; " (
          opening "[safety_first]" d
          ∷ learner_part learning learner.1 ""
          ∷ news_part news press.1 ""
          ∷ ("outcome: " <> outcome_value (classify_outcome d.allocation final))
          ∷ []))

  -- consensus.py
  unfoldable pub consensus : OrchestrationConfig F → Policy F
  consensus config d learning news = do
    validate_context d learning news
    let learner = learner_considered_and_agrees d learning config.agreement_tolerance
    let press = news_considered_and_agrees d news
    let any_disagreement = disagrees learner || disagrees press
    let final = if eq d.allocation zero_f || any_disagreement then zero_f else d.allocation
    finish d final (if eq final d.allocation then d.confidence else zero_f)
        (memory_input learner (if disagrees learner then one_f else zero_f))
        (nlp_input press (if disagrees press then one_f else zero_f))
        (join "; " (
          opening "[consensus]" d
          ∷ learner_part learning learner.1 ""
          ∷ news_part news press.1 ""
          ∷ ("outcome: "
              <> outcome_value (classify_outcome d.allocation final)
              <> " (consensus requires unanimous agreement)")
          ∷ []))

  -- confidence.py
  unfoldable pub news_model_confidence : NewsSignal F → F
  news_model_confidence n =
      max_f (max_f n.sentiment_positive n.sentiment_negative) n.sentiment_neutral

  unfoldable pub advisory_confidences : Option (LearningDecision F) → Option (NewsSignal F) → List F
  advisory_confidences none none = []
  advisory_confidences none (some n) = news_model_confidence n ∷ []
  advisory_confidences (some l) none = l.confidence ∷ []
  advisory_confidences (some l) (some n) = l.confidence ∷ news_model_confidence n ∷ []

  unfoldable pub confidence_multiplier : F → List F → F
  confidence_multiplier confidence [] = one_f
  confidence_multiplier confidence (c ∷ cs) =
      if lt zero_f confidence
      then min_f one_f (div (div (sum_f (c ∷ cs)) (decimal (length (c ∷ cs)) 0)) confidence)
      else zero_f

  -- `0.0 if primary_allocation == 0.0 else primary_allocation * multiplier`
  unfoldable pub scaled_final : F → F → F
  scaled_final primary multiplier = if eq primary zero_f then zero_f else mul primary multiplier

  unfoldable pub confidence_learner_part : Option (LearningDecision F) → String
  confidence_learner_part none = "no learner signal considered"
  confidence_learner_part (some l) = "learner confidence " <> show ".3f" l.confidence

  unfoldable pub confidence_news_part : Option (NewsSignal F) → String
  confidence_news_part none = "no news signal considered"
  confidence_news_part (some n) = "news model confidence " <> show ".3f" (news_model_confidence n)

  unfoldable pub confidence_policy : OrchestrationConfig F → Policy F
  confidence_policy config d learning news = do
    validate_context d learning news
    let learner = learner_considered_and_agrees d learning config.agreement_tolerance
    let press = news_considered_and_agrees d news
    let multiplier = confidence_multiplier d.confidence (advisory_confidences learning news)
    let final = scaled_final d.allocation multiplier
    finish d final (mul d.confidence multiplier)
        (memory_input learner (if learner.0 then sub one_f multiplier else zero_f))
        (nlp_input press (if press.0 then sub one_f multiplier else zero_f))
        (join "; " (
          (opening "[confidence]" d <> " at confidence " <> show ".3f" d.confidence)
          ∷ confidence_learner_part learning
          ∷ confidence_news_part news
          ∷ ("confidence multiplier "
              <> show ".3f" multiplier
              <> "; outcome: "
              <> outcome_value (classify_outcome d.allocation final))
          ∷ []))

  -- weighted_vote.py: the votes, each a weight with 1.0 or 0.0.
  unfoldable pub votes_of : F → F → F → Bool × Bool → Bool × Bool → List (F × F)
  votes_of strategy_weight learner_weight news_weight (lc, la) (nc, na) =
      (strategy_weight, one_f)
      ∷ ((if lc then (learner_weight, if la then one_f else zero_f) ∷ [] else [])
          ++ (if nc then (news_weight, if na then one_f else zero_f) ∷ [] else []))

  unfoldable pub total_weight : List (F × F) → F
  total_weight votes = sum_f (map (λ v. v.0) votes)

  unfoldable pub vote_multiplier : List (F × F) → F
  vote_multiplier votes = div (sum_f (map (λ v. mul v.0 v.1) votes)) (total_weight votes)

  -- `WeightedVotePolicy.__post_init__`
  unfoldable pub check_weights : WeightedVotePolicy F → Result (Unit {0})
  check_weights w = do
    reject_if (le w.strategy_weight zero_f) "strategy_weight must be > 0"
    reject_if (lt w.learner_weight zero_f) "learner_weight must be >= 0"
    reject_if (lt w.news_weight zero_f) "news_weight must be >= 0"

  unfoldable pub weighted_vote : WeightedVotePolicy F → Policy F
  weighted_vote policy d learning news = do
    validate_context d learning news
    let learner = learner_considered_and_agrees d learning policy.config.agreement_tolerance
    let press = news_considered_and_agrees d news
    let votes =
        votes_of policy.strategy_weight policy.learner_weight policy.news_weight learner press
    let total = total_weight votes
    let multiplier = vote_multiplier votes
    let final = scaled_final d.allocation multiplier
    let learner_share = if learner.0 then div policy.learner_weight total else zero_f
    let news_share = if press.0 then div policy.news_weight total else zero_f
    finish d final (mul d.confidence multiplier) (memory_input learner learner_share)
        (nlp_input press news_share)
        (join "; " (
          opening "[weighted_vote]" d
          ∷ learner_part learning learner.1 (", weight=" <> show ".2f" learner_share)
          ∷ news_part news press.1 (", weight=" <> show ".2f" news_share)
          ∷ ("weighted vote multiplier "
              <> show ".3f" multiplier
              <> "; outcome: "
              <> outcome_value (classify_outcome d.allocation final))
          ∷ []))

  -- `arbitrate` (src/orchestration/arbitration.py)
  unfoldable pub arbitrate : OrchestrationConfig F → Option (Policy F) → Policy F
  arbitrate config none = safety_first config
  arbitrate config (some policy) = policy
