-- ===== src/Orchestration/Policies/Consensus.antt =====
-- What `ConsensusPolicy` (src/orchestration/policies/consensus.py) decides.
use suky_tradin_bot.Base.{
  ◌≡◌, refl, Bool, true, false, not, ◌&&◌, ◌||◌, Option, none, some, String, str_eq, if◌then◌else◌,
  arith,
}
use suky_tradin_bot.Float.{Float, IsFloat, ◌≼◌, IsUnit, zero_f}
use suky_tradin_bot.Float.Order
use suky_tradin_bot.Common.Text.{is_blank-join, is_blank}
use suky_tradin_bot.Common.Errors.{Result, ok}
use suky_tradin_bot.Strategy.Decision.{StrategyDecision, Checked, IsChecked, IsChecked→Checked}
use suky_tradin_bot.Nlp.Signal.{NewsSignal}
use suky_tradin_bot.Memory.Decision.{LearningDecision}
use suky_tradin_bot.Orchestration.Signals.{
  validate_context, learner_considered_and_agrees, news_considered_and_agrees,
}
use suky_tradin_bot.Orchestration.Decision.{
  FinalDecision, OrchestrationConfig, SignalInput, check_signal_input,
}
use suky_tradin_bot.Orchestration.Policies.Defs.{disagrees, consensus, finish, final_of}
use suky_tradin_bot.Orchestration.Policies.Finish.{
  finish_passes, input_passes, learner_silent, news_silent, opening_given,
}
use suky_tradin_bot.Orchestration.Policies.Bounds.{vote_weight}

module _ {F : Type 0} ⦃fl : Float F⦄ where
  open fl use {le, eq, sub, abs}

  -- The learner's allocation is further from the strategy's than the tolerance.
  abbrev pub learner_opposes : StrategyDecision F → Option (LearningDecision F) → F → Bool
  learner_opposes d none tolerance = false
  learner_opposes d (some l) tolerance =
      not (le (abs (sub l.recommended_allocation d.allocation)) tolerance)

  -- The sentiment of the news is negative.
  abbrev pub news_oppose : Option (NewsSignal F) → Bool
  news_oppose none = false
  news_oppose (some n) = str_eq n.sentiment_label "negative"

  -- Someone speaks against an allocation that is not zero.
  unfoldable pub is_opposed :
      StrategyDecision F → Option (LearningDecision F) → Option (NewsSignal F) → F → Bool
  is_opposed d learning news tolerance =
      not (eq d.allocation zero_f) && (learner_opposes d learning tolerance || news_oppose news)

  -- The result is a decision about `d` with all of its allocation and confidence, or with none of
  -- both if it is opposed.
  unfoldable pub Unanimous : StrategyDecision F → Bool → Result (FinalDecision F) → Type 0
  Unanimous d opposed r =
      (f : FinalDecision F) × (r ≡ ok f)
      × (f.symbol ≡ d.symbol)
      × (f.timestamp ≡ d.timestamp)
      × (f.primary_allocation ≡ d.allocation)
      × (f.final_allocation ≡ (if eq d.allocation zero_f || opposed then zero_f else d.allocation))
      × (f.confidence ≡ (if opposed then zero_f else d.confidence))

module _ {F : Type 0} ⦃fl : Float F⦄ (laws : IsFloat F) where
  open fl use {le, eq, sub, abs}

  learner_disagrees :
      (d : StrategyDecision F) (l : Option (LearningDecision F)) (tolerance : F)
      → disagrees (learner_considered_and_agrees d l tolerance)
        ≡ (not (eq d.allocation zero_f) && learner_opposes d l tolerance)
  unfolding learner_considered_and_agrees
  learner_disagrees d none tolerance = ground arith
  learner_disagrees d (some l) tolerance = ground arith

  news_disagree :
      (d : StrategyDecision F) (n : Option (NewsSignal F))
      → disagrees (news_considered_and_agrees d n) ≡ (not (eq d.allocation zero_f) && news_oppose n)
  unfolding news_considered_and_agrees
  news_disagree d none = ground arith
  news_disagree d (some n) = ground arith

  any_disagreement :
      (d : StrategyDecision F) (l : Option (LearningDecision F)) (n : Option (NewsSignal F))
      (tolerance : F)
      → (disagrees (learner_considered_and_agrees d l tolerance)
          || disagrees (news_considered_and_agrees d n))
        ≡ is_opposed d l n tolerance
  unfolding is_opposed
  any_disagreement d l n tolerance =
      ground (arith, learner_disagrees d l tolerance, news_disagree d n)

  opposed_nonzero :
      (d : StrategyDecision F) (l : Option (LearningDecision F)) (n : Option (NewsSignal F))
      (tolerance : F)
      → is_opposed d l n tolerance ≡ true
      → eq d.allocation zero_f ≡ false
  unfolding is_opposed
  opposed_nonzero d l n tolerance h = ground arith

  settled_bounds :
      (b : Bool) (x : F)
      → IsUnit x
      → (zero_f ≼ (if b then zero_f else x)) × ((if b then zero_f else x) ≼ x)
  settled_bounds b x u = ground (arith, u, Order.zero_self laws, Order.IsUnit-self laws x u)

  settled-IsUnit : (b : Bool) (x : F) → IsUnit x → IsUnit (if b then zero_f else x)
  settled-IsUnit true x u = Order.zero-IsUnit laws
  settled-IsUnit false x u = u

  kept_confidence :
      (opposed : Bool) (a c : F)
      → a ≼ a
      → (opposed ≡ true → eq a zero_f ≡ false)
      → (if eq (if eq a zero_f || opposed then zero_f else a) a then c else zero_f)
        ≡ (if opposed then zero_f else c)
  kept_confidence opposed a c number nonzero =
      ground
        (arith, nonzero, laws.eq_lem a zero_f, laws.eq_lem zero_f a, Order.eq_self laws a number)

  finish-Unanimous :
      (d : StrategyDecision F) (opposed : Bool) (learner news : SignalInput F) (rationale : String)
      → Checked d
      → (opposed ≡ true → eq d.allocation zero_f ≡ false)
      → check_signal_input learner ≡ ok tt
      → check_signal_input news ≡ ok tt
      → is_blank rationale ≡ false
      → let final = if eq d.allocation zero_f || opposed then zero_f else d.allocation in
        Unanimous d opposed (
          finish d final
            (if eq final d.allocation then d.confidence else zero_f)
            learner
            news
            rationale)
  unfolding Unanimous
  finish-Unanimous d opposed learner news rationale c nonzero pl pn given =
      let number = Order.IsUnit-self laws d.allocation c.allocation_unit in
      let (low, high) =
        settled_bounds (eq d.allocation zero_f || opposed) d.allocation c.allocation_unit in
      let sure = kept_confidence opposed d.allocation d.confidence number nonzero in
      (
        final_of d _ _ learner news rationale,
        finish_passes laws d _ _ learner news rationale c low high
            (rw sure (settled-IsUnit opposed d.confidence c.confidence_unit)) pl pn given,
        refl,
        refl,
        refl,
        refl,
        sure,
      )

  -- `consensus` answers every checked decision whose advice matches its context, with a decision
  -- about the same symbol and time. It keeps all of the allocation and the confidence if nobody is
  -- against, and none of either if the learner's allocation is out of tolerance or the news are
  -- negative; of an allocation of zero it keeps the confidence.
  pub consensus-Unanimous :
      (config : OrchestrationConfig F) (d : StrategyDecision F)
      (learning : Option (LearningDecision F)) (news : Option (NewsSignal F))
      → IsChecked d
      → validate_context d learning news ≡ ok tt
      → Unanimous d
          (is_opposed d learning news config.agreement_tolerance)
          (consensus config d learning news)
  unfolding consensus is_blank
  consensus-Unanimous config d learning news checked h =
      let c = IsChecked→Checked d checked in
      let learner = learner_considered_and_agrees d learning config.agreement_tolerance in
      let press = news_considered_and_agrees d news in
      rw (h, any_disagreement d learning news config.agreement_tolerance)
        (finish-Unanimous d (is_opposed d learning news config.agreement_tolerance) _ _ _ c
          (opposed_nonzero d learning news config.agreement_tolerance)
          (input_passes laws _ refl (learner_silent d learning _) (vote_weight laws learner).0
            (vote_weight laws learner).1)
          (input_passes laws _ refl (news_silent d news) (vote_weight laws press).0
            (vote_weight laws press).1)
          (is_blank-join "; " _ _ (opening_given d "[consensus]" refl)))
