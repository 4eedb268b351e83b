-- ===== src/Orchestration/Policies/Votes.antt =====
-- The policies that scale the allocation by a multiplier: its multiplier lies in [0, 1].
use suky_tradin_bot.Orchestration.Policies.Finish.{
  input_passes, learner_silent, weight_silent, weight-IsUnit, news_silent, opening_given,
}
use suky_tradin_bot.Orchestration.Policies.Bounds.{Tempered, finish-Tempered}
use suky_tradin_bot.Orchestration.Signals.{validate_context}
use native.Mathlib.Nat.{add-zero}
use suky_tradin_bot.Orchestration.Decision.{OrchestrationConfig}
use suky_tradin_bot.Common.Text.{is_blank, is_blank-join, is_blank-prefix}
use suky_tradin_bot.Orchestration.Policies.Defs.{
  advisory_confidences, news_model_confidence, confidence_policy, scaled_final,
  confidence_multiplier, opening,
}
use suky_tradin_bot.Memory.Decision.{check_learning_decision, LearningDecision}
use suky_tradin_bot.Nlp.Signal.{NewsSignal, check_news_signal}
use suky_tradin_bot.Base.{
  ◌≡◌, refl, Option, none, some, arith, List, [], ◌∷◌, All, ℕ, length, ◌≤◌, ◌+◌, Bool-cases, ◌^◌,
  inl, inr,
}
use suky_tradin_bot.Float.{Float, IsFloat, ◌≼◌, IsUnit, zero_f, max_f, sum_from, sum_f}
use suky_tradin_bot.Float.Order
use suky_tradin_bot.Common.Errors.{ok}
use suky_tradin_bot.Strategy.Decision.{StrategyDecision, IsChecked, IsChecked→Checked}

module _ {F : Type 0} ⦃fl : Float F⦄ where
  -- What the checks of an advisor's signal say of the numbers that the policies read.
  abbrev pub LearnerSound : Option (LearningDecision F) → Type 0
  LearnerSound none = Unit
  LearnerSound (some l) = check_learning_decision l ≡ ok tt

  abbrev pub NewsSound : Option (NewsSignal F) → Type 0
  NewsSound none = Unit
  NewsSound (some n) = check_news_signal n ≡ ok tt

module _ {F : Type 0} ⦃fl : Float F⦄ (laws : IsFloat F) where
  open fl use {lt, eq, add, mul, div, sub, decimal, infinity}
  open laws use {
    le_trans, le_numbers, one-sub-IsUnit, div-IsUnit, div_nonneg, decimal_mono, literal_finite,
    add_literal, add_mono, le-add,
  }

  learner_confidence-IsUnit :
      (l : LearningDecision F) → check_learning_decision l ≡ ok tt → IsUnit l.confidence
  unfolding check_learning_decision
  learner_confidence-IsUnit l h = ground arith

  scores-IsUnit :
      (n : NewsSignal F)
      → check_news_signal n ≡ ok tt
      → IsUnit n.sentiment_positive × IsUnit n.sentiment_negative × IsUnit n.sentiment_neutral
  unfolding check_news_signal
  scores-IsUnit n h = ground arith

  max-IsUnit : (x y : F) → IsUnit x → IsUnit y → IsUnit (max_f x y)
  max-IsUnit x y u v = ground arith

  news_confidence-IsUnit :
      (n : NewsSignal F) → check_news_signal n ≡ ok tt → IsUnit (news_model_confidence n)
  unfolding news_model_confidence
  news_confidence-IsUnit n h =
      let (p, q, r) = scores-IsUnit n h in max-IsUnit _ _ (max-IsUnit _ _ p q) r

  advisory-IsUnit :
      (l : Option (LearningDecision F)) (n : Option (NewsSignal F))
      → LearnerSound l
      → NewsSound n
      → All (λ c. IsUnit c) (advisory_confidences l n) × (length (advisory_confidences l n) ≤ 2)
  unfolding advisory_confidences
  advisory-IsUnit none none h k = (tt, omega arith)
  advisory-IsUnit none (some n) h k = ((news_confidence-IsUnit n k, tt), omega arith)
  advisory-IsUnit (some l) none h k = ((learner_confidence-IsUnit l h, tt), omega arith)
  advisory-IsUnit (some l) (some n) h k =
      ((learner_confidence-IsUnit l h, (news_confidence-IsUnit n k, tt)), omega arith)

  -- A sum of numbers in [0, 1] lies between zero and their count.
  sum_unit :
      (acc : F) (m : ℕ) (cs : List F)
      → zero_f ≼ acc
      → acc ≼ decimal m 0
      → All (λ c. IsUnit c) cs
      → m + length cs ≤ 2 ^ 53
      → (zero_f ≼ sum_from acc cs) × (sum_from acc cs ≼ decimal (m + length cs) 0)
  unfolding sum_from
  sum_unit acc m [] low high u b = (low, rw (add-zero m) high)
  sum_unit acc m (c ∷ cs) low high (uc, u) b =
      let (next_low, next_high) =
        sum_unit (add acc c) (m + 1) cs (le_trans _ _ _ low (le-add acc c low uc.0).0)
          (add_literal acc c m 1 low uc.0 high uc.1 (omega arith)) u (omega arith) in
      let count : m + 1 + length cs ≡ m + length (c ∷ cs) = omega arith in
      (next_low, rw (← count) next_high)

  average-IsUnit :
      (c : F) (cs : List F)
      → All (λ x. IsUnit x) (c ∷ cs)
      → length (c ∷ cs) ≤ 2
      → IsUnit (div (sum_f (c ∷ cs)) (decimal (length (c ∷ cs)) 0))
  average-IsUnit c cs u b =
      let (low, high) =
        sum_unit zero_f 0 (c ∷ cs) (Order.zero_self laws) (Order.zero_self laws) u (omega arith) in
      let count : 0 + length (c ∷ cs) ≡ length (c ∷ cs) = omega arith in
      div-IsUnit _ _ low (rw count at high)
        (Order.lt_of_lt_le laws _ _ _ (Order.zero-lt-one laws) (decimal_mono 1 0 _ 0 (omega arith)))
        (literal_finite _ (omega arith))

  confidence_multiplier-IsUnit :
      (confidence : F) (cs : List F)
      → All (λ x. IsUnit x) cs
      → length cs ≤ 2
      → IsUnit (confidence_multiplier confidence cs)
  unfolding confidence_multiplier
  confidence_multiplier-IsUnit confidence [] u b = Order.one-IsUnit laws
  confidence_multiplier-IsUnit confidence (c ∷ cs) u b =
      let average = average-IsUnit c cs u b in
      let two = le_trans _ _ _ average.1 (decimal_mono 1 0 2 0 (omega arith)) in
      let ratio = div_nonneg _ confidence average.0 two in
      let one = Order.one-IsUnit laws in
      elim (Bool-cases (lt zero_f confidence)) [
        | inl p ↦
            rw p
              (Order.le-min_f laws _ _ _ one.0 (inl (ratio p)), Order.min_f-le_left laws _ _ one.1)
        | inr p ↦ rw p (Order.zero-IsUnit laws)
      ]

  pub scaled_final_bounds :
      (primary multiplier : F)
      → IsUnit primary
      → IsUnit multiplier
      → (zero_f ≼ scaled_final primary multiplier) × (scaled_final primary multiplier ≼ primary)
  unfolding scaled_final
  scaled_final_bounds primary multiplier u v =
      ground (arith, u, Order.zero_self laws, Order.mul_unit laws primary multiplier u v)

  -- `confidence_policy` answers every checked decision whose advice is checked and matches its
  -- context, with a decision about the same symbol and time whose
  -- allocation and confidence lie between zero and the strategy's.
  pub confidence_policy-Tempered :
      (config : OrchestrationConfig F) (d : StrategyDecision F)
      (learning : Option (LearningDecision F)) (news : Option (NewsSignal F))
      → IsChecked d
      → LearnerSound learning
      → NewsSound news
      → validate_context d learning news ≡ ok tt
      → Tempered d (confidence_policy config d learning news)
  unfolding confidence_policy is_blank
  confidence_policy-Tempered config d learning news checked sl sn h =
      let c = IsChecked→Checked d checked in
      let (units, few) = advisory-IsUnit learning news sl sn in
      let m = confidence_multiplier d.confidence (advisory_confidences learning news) in
      let unit =
        confidence_multiplier-IsUnit d.confidence (advisory_confidences learning news) units few in
      let rest = one-sub-IsUnit m unit in
      rw h (
        finish-Tempered laws d _ _ _ _ _ c
          (scaled_final_bounds d.allocation m c.allocation_unit unit)
          (Order.mul_unit laws d.confidence m c.confidence_unit unit)
          (input_passes laws _ refl (learner_silent d learning _) (weight_silent laws _ _)
            (weight-IsUnit laws _ _ (λ _. rest)))
          (input_passes laws _ refl (news_silent d news) (weight_silent laws _ _)
            (weight-IsUnit laws _ _ (λ _. rest)))
          (is_blank-join "; " _ _
            (is_blank-prefix (opening "[confidence]" d) _ (opening_given d "[confidence]" refl))))
