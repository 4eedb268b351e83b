-- ===== src/Orchestration/Policies/Finish.antt =====
-- When the checks at the end of a policy pass.
use suky_tradin_bot.Nlp.Signal.{NewsSignal}
use suky_tradin_bot.Memory.Decision.{LearningDecision}
use suky_tradin_bot.Common.Text.{is_blank, is_blank-<>, is_nil}
use suky_tradin_bot.Orchestration.Decision.{
  check_signal_input, check_final_decision, expected_outcome, SignalInput, same_outcome,
}
use suky_tradin_bot.Orchestration.Signals.{
  news_considered_and_agrees, learner_considered_and_agrees, classify_outcome,
}
use suky_tradin_bot.Orchestration.Policies.Defs.{finish, opening, final_of}
use suky_tradin_bot.Base.{
  ◌≡◌, refl, Bool, true, false, not, ◌&&◌, Option, none, some, String, arith, if◌then◌else◌,
}
use suky_tradin_bot.Float.{Float, IsFloat, ◌≼◌, IsUnit, zero_f}
use suky_tradin_bot.Float.Order
use suky_tradin_bot.Common.Errors.{ok}
use suky_tradin_bot.Strategy.Decision.{StrategyDecision, Checked}

module _ {F : Type 0} ⦃fl : Float F⦄ where
  -- Nobody agrees who is not considered.
  pub learner_silent :
      (d : StrategyDecision F) (l : Option (LearningDecision F)) (t : F)
      → let c = learner_considered_and_agrees d l t in (not c.0 && c.1) ≡ false
  unfolding learner_considered_and_agrees
  learner_silent d none t = refl
  learner_silent d (some l) t = ground arith

  pub news_silent :
      (d : StrategyDecision F) (n : Option (NewsSignal F))
      → let c = news_considered_and_agrees d n in (not c.0 && c.1) ≡ false
  unfolding news_considered_and_agrees
  news_silent d none = refl
  news_silent d (some l) = ground arith

  pub opening_given :
      (d : StrategyDecision F) (policy : String)
      → is_blank policy ≡ false
      → is_blank (opening policy d) ≡ false
  unfolding opening
  opening_given d policy h = simp is_blank-<> (rw h)

module _ {F : Type 0} ⦃fl : Float F⦄ (laws : IsFloat F) where
  open fl use {eq, lt}

  pub input_passes :
      (s : SignalInput F)
      → is_nil s.source ≡ false
      → (not s.considered && s.agrees) ≡ false
      → (s.considered ≡ false → eq s.weight zero_f ≡ true)
      → IsUnit s.weight
      → check_signal_input s ≡ ok tt
  unfolding check_signal_input
  input_passes s h k w u = ground arith

  pub classify_consistent :
      (primary final : F)
      → zero_f ≼ final
      → final ≼ primary
      → same_outcome (classify_outcome primary final) (expected_outcome primary final) ≡ true
  unfolding classify_outcome expected_outcome
  classify_consistent primary final h k = ground (
    arith,
    Order.le-not-eq→lt laws final primary k,
    Order.lt_of_le_lt laws zero_f final primary h,
  )

  pub finish_passes :
      (d : StrategyDecision F) (final confidence : F) (learner news : SignalInput F)
      (rationale : String)
      → Checked d
      → zero_f ≼ final
      → final ≼ d.allocation
      → IsUnit confidence
      → check_signal_input learner ≡ ok tt
      → check_signal_input news ≡ ok tt
      → is_blank rationale ≡ false
      → finish d final confidence learner news rationale
        ≡ ok (final_of d final confidence learner news rationale)
  unfolding finish check_final_decision
  finish_passes d final confidence learner news rationale c low high u pl pn given =
      ground (arith, c.utc "timestamp", classify_consistent d.allocation final low high)

  -- A weight that is 0.0 for who is not considered, and in [0, 1] otherwise.
  pub weight_silent :
      (considered : Bool) (w : F)
      → considered ≡ false
      → eq (if considered then w else zero_f) zero_f ≡ true
  weight_silent considered w h = ground (arith, Order.eq_self laws zero_f (Order.zero_self laws))

  pub weight-IsUnit :
      (considered : Bool) (w : F)
      → (considered ≡ true → IsUnit w)
      → IsUnit (if considered then w else zero_f)
  weight-IsUnit true w u = u refl
  weight-IsUnit false w u = Order.zero-IsUnit laws
