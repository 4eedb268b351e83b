-- ===== src/Orchestration/Policies/Bounds.antt =====
-- No policy raises on a matching context, and none enlarges the allocation or the confidence.
use suky_tradin_bot.Common.Text.{is_blank-join, is_blank}
use suky_tradin_bot.Orchestration.Policies.Finish.{
  finish_passes, input_passes, learner_silent, news_silent, opening_given,
}
use suky_tradin_bot.Orchestration.Signals.{
  validate_context, learner_considered_and_agrees, news_considered_and_agrees,
}
use suky_tradin_bot.Nlp.Signal.{NewsSignal}
use suky_tradin_bot.Memory.Decision.{LearningDecision}
use suky_tradin_bot.Orchestration.Decision.{
  check_config, FinalDecision, OrchestrationConfig, SignalInput, check_signal_input,
}
use suky_tradin_bot.Orchestration.Policies.Defs.{
  safety_first_final, weight_for, safety_first, yes_no, disagrees, finish, final_of,
}
use suky_tradin_bot.Base.{
  ◌≡◌, refl, Bool, true, false, Option, String, arith, if◌then◌else◌, ℕ, ◌+◌,
}
use suky_tradin_bot.Float.{Float, IsFloat, ◌≼◌, IsUnit, zero_f, one_f}
use suky_tradin_bot.Float.Order
use suky_tradin_bot.Common.Errors.{Result, ok}
use suky_tradin_bot.Strategy.Decision.{StrategyDecision, Checked, IsChecked, IsChecked→Checked}

module _ {F : Type 0} ⦃fl : Float F⦄ where
  -- The result is a decision about `d`, with an allocation and a confidence between 0 and `d`'s.
  abbrev pub Tempered : StrategyDecision F → Result (FinalDecision F) → Type 0
  Tempered d r =
      (f : FinalDecision F) × (r ≡ ok f)
      × (f.symbol ≡ d.symbol)
      × (f.timestamp ≡ d.timestamp)
      × (f.primary_allocation ≡ d.allocation)
      × (zero_f ≼ f.final_allocation)
      × (f.final_allocation ≼ d.allocation)
      × (zero_f ≼ f.confidence)
      × (f.confidence ≼ d.confidence)

module _ {F : Type 0} ⦃fl : Float F⦄ (laws : IsFloat F) where
  open fl use {lt, eq, mul, div, sub, decimal, infinity}
  open laws use {le_trans, one-sub-IsUnit, div-IsUnit, decimal_mono}

  pub finish-Tempered :
      (d : StrategyDecision F) (final confidence : F) (learner news : SignalInput F)
      (rationale : String)
      → Checked d
      → (zero_f ≼ final) × (final ≼ d.allocation)
      → (zero_f ≼ confidence) × (confidence ≼ d.confidence)
      → check_signal_input learner ≡ ok tt
      → check_signal_input news ≡ ok tt
      → is_blank rationale ≡ false
      → Tempered d (finish d final confidence learner news rationale)
  finish-Tempered d final confidence learner news rationale c (low, high) (nonneg, below) pl pn
        given =
      (
        final_of d final confidence learner news rationale,
        finish_passes laws d final confidence learner news rationale c low high
            (Order.IsUnit-of_le laws _ _ nonneg below c.confidence_unit) pl pn given,
        refl,
        refl,
        refl,
        low,
        high,
        nonneg,
        below,
      )

  penalty-IsUnit :
      (c : OrchestrationConfig F) → check_config c ≡ ok tt → IsUnit c.disagreement_penalty
  unfolding check_config
  penalty-IsUnit c h = ground (arith, Order.lt→le laws zero_f c.disagreement_penalty)

  safety_first_final_bounds :
      (primary : F) (count : ℕ) (penalty : F)
      → IsUnit primary
      → IsUnit penalty
      → (zero_f ≼ safety_first_final primary count penalty)
        × (safety_first_final primary count penalty ≼ primary)
  unfolding safety_first_final
  safety_first_final_bounds primary count penalty u v = ground (
    arith,
    Order.zero_self laws,
    Order.IsUnit-self laws primary u,
    Order.mul_unit laws primary (sub one_f penalty) u (one-sub-IsUnit penalty v),
  )

  weight_for_passes :
      (c : Bool × Bool) (count : ℕ) (penalty : F)
      → IsUnit penalty
      → (c.0 ≡ false → eq (weight_for c count penalty) zero_f ≡ true)
        × IsUnit (weight_for c count penalty)
  unfolding weight_for
  weight_for_passes c count penalty u = ground (
    arith,
    Order.zero_self laws,
    Order.zero-le-one laws,
    Order.eq_self laws zero_f (Order.zero_self laws),
    decimal_mono 0 0 5 1 (omega arith),
    decimal_mono 5 1 1 0 (omega arith),
  )

  pub vote_weight :
      (c : Bool × Bool)
      → let w : F = if disagrees c then one_f else zero_f in
        (c.0 ≡ false → eq w zero_f ≡ true) × IsUnit w
  vote_weight c = ground (
    arith,
    Order.zero_self laws,
    Order.one-IsUnit laws,
    Order.zero-le-one laws,
    Order.eq_self laws zero_f (Order.zero_self laws),
  )

  -- A part of a positive allocation, as a share of it.
  share-IsUnit :
      (final primary : F)
      → zero_f ≼ final
      → final ≼ primary
      → IsUnit primary
      → lt zero_f primary ≡ true
      → IsUnit (div final primary)
  share-IsUnit final primary low high u p =
      div-IsUnit final primary low high p
        (Order.lt_of_le_lt laws _ _ _ u.1 (Order.one-lt-infinity laws))

  confidence_share :
      (d : StrategyDecision F) (final : F)
      → Checked d
      → zero_f ≼ final
      → final ≼ d.allocation
      → let confidence =
          if lt zero_f d.allocation
          then mul d.confidence (div final d.allocation)
          else d.confidence in
        (zero_f ≼ confidence) × (confidence ≼ d.confidence)
  confidence_share d final c low high = ground (
    arith,
    c.confidence_unit,
    Order.IsUnit-self laws d.confidence c.confidence_unit,
    Order.mul_unit laws d.confidence (div final d.allocation) c.confidence_unit,
    share-IsUnit final d.allocation low high c.allocation_unit,
  )

  -- With a checked configuration, `safety_first` answers every checked decision whose advice matches
  -- its context, with a decision about the same symbol and time whose
  -- allocation and confidence lie between zero and the strategy's.
  pub safety_first-Tempered :
      (config : OrchestrationConfig F) (d : StrategyDecision F)
      (learning : Option (LearningDecision F)) (news : Option (NewsSignal F))
      → check_config config ≡ ok tt
      → IsChecked d
      → validate_context d learning news ≡ ok tt
      → Tempered d (safety_first config d learning news)
  unfolding safety_first is_blank
  safety_first-Tempered config d learning news good checked h =
      let c = IsChecked→Checked d checked in
      let learner = learner_considered_and_agrees d learning config.agreement_tolerance in
      let press = news_considered_and_agrees d news in
      let count = yes_no (disagrees learner) + yes_no (disagrees press) in
      let penalty = config.disagreement_penalty in
      let final = safety_first_final d.allocation count penalty in
      let confidence =
        if lt zero_f d.allocation
        then mul d.confidence (div final d.allocation)
        else d.confidence in
      let unit = penalty-IsUnit config good in
      let (low, high) =
        safety_first_final_bounds d.allocation count penalty c.allocation_unit unit in
      let (quiet, share) = weight_for_passes learner count penalty unit in
      let (quiet', share') = weight_for_passes press count penalty unit in
      rw h (
        finish-Tempered d final confidence _ _ _ c (low, high) (confidence_share d final c low high)
          (input_passes laws _ refl (learner_silent d learning _) quiet share)
          (input_passes laws _ refl (news_silent d news) quiet' share')
          (is_blank-join "; " _ _ (opening_given d "[safety_first]" refl)))
