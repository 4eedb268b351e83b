-- ===== src/App/Descent.antt =====
-- A frame on its way through the orchestration stage and the risk stage.
use suky_tradin_bot.Base.{◌≡◌, refl, Option, none, some, [], ◌∷◌, sym, ap, ◌∙◌, arith}
use suky_tradin_bot.App.Frame.{
  RuntimeFrame, FrameStage, run_stages, with_final_decision, with_execution_decision, require,
}
use suky_tradin_bot.App.Emitters.{
  World, OrchestrationEmitter, RiskEmitter, consult, emit_final, orchestrate_frame,
  orchestrate_decision, risk_decision, emit_execution, decide_frame, risk_frame,
  effective_strategy_decision,
}
use suky_tradin_bot.Common.Errors.{Result, ok, err, ◌>>=◌, construct-eq-ok, ok-injective}
use suky_tradin_bot.Float.{Float, IsFloat, ◌≼◌, zero_f}
use suky_tradin_bot.Strategy.Decision.{StrategyDecision, IsChecked, check_strategy_decision}
use suky_tradin_bot.Memory.Decision.{LearningDecision}
use suky_tradin_bot.Nlp.Signal.{NewsSignal}
use suky_tradin_bot.Orchestration.Decision.{FinalDecision, OrchestrationConfig, check_config}
use suky_tradin_bot.Orchestration.Signals.{validate_context}
use suky_tradin_bot.Orchestration.Policies.{safety_first, arbitrate}
use suky_tradin_bot.Orchestration.Policies.Bounds.{safety_first-Tempered}
use suky_tradin_bot.Risk.Portfolio.{PortfolioState, AccountState}
use suky_tradin_bot.Risk.Decision.{ExecutionDecision}
use suky_tradin_bot.Risk.Service.{decide}
use suky_tradin_bot.Risk.Service.Safety.{decide-Safe}

module _ {S Frame : Type 0} where
  -- The last stage of a pipeline decides.
  last_stage :
      (x : S × Result (Option Frame)) (s : S) (frame : Frame)
      → run_stages ((λ _ _. x) ∷ []) s (some frame) ≡ x
  unfolding run_stages
  last_stage (s', ok frame') s frame = refl
  last_stage (s', err e) s frame = refl

  -- A frame that leaves a pipeline of two stages left the first one and went into the second.
  two_stages :
      (x : S × Result (Option Frame)) (stage : FrameStage S Frame) (s : S) (frame : Frame) {s' : S}
      {frame' : Frame}
      → run_stages ((λ _ _. x) ∷ stage ∷ []) s (some frame) ≡ (s', ok (some frame'))
      → (s1 : S) × (frame1 : Frame) × (x ≡ (s1, ok (some frame1)))
        × (stage s1 frame1 ≡ (s', ok (some frame')))
  unfolding run_stages
  two_stages (s1, ok (some frame1)) stage s frame h =
      (s1, frame1, refl, sym (last_stage (stage s1 frame1) s1 frame1) ∙ h)
  two_stages (s1, ok none) stage s frame h = ground arith
  two_stages (s1, err e) stage s frame h = ground arith

module _ {B V R F : Type 0} ⦃fl : Float F⦄ where
  -- A frame that a stage hands on is the one it replaced a field of.
  attached :
      (m : Result (Unit {0})) (g : RuntimeFrame B V R F) {frame' : RuntimeFrame B V R F}
      → ((m >>= λ _. ok g) >>= λ x. ok (some x)) ≡ ok (some frame')
      → frame' ≡ g
  attached (ok tt) g h = ground arith
  attached (err e) g h = ground arith

  emit_final_fields :
      (frame : RuntimeFrame B V R F) (w : World) (x : Result (FinalDecision F)) {w' : World}
      {frame' : RuntimeFrame B V R F}
      → emit_final frame w x ≡ (w', ok (some frame'))
      → (f : FinalDecision F) × (x ≡ ok f) × (frame' ≡ record frame { final_decision = some f })
  unfolding emit_final with_final_decision
  emit_final_fields frame w (ok f) h = (f, refl, attached _ _ (ap (λ y. y.1) h))
  emit_final_fields frame w (err e) h = ground arith

  emit_execution_fields :
      (frame : RuntimeFrame B V R F) (w : World) (x : Result (ExecutionDecision F)) {w' : World}
      {frame' : RuntimeFrame B V R F}
      → emit_execution frame w x ≡ (w', ok (some frame'))
      → (e : ExecutionDecision F) × (x ≡ ok e)
        × (frame' ≡ record frame { execution_decision = some e })
  unfolding emit_execution with_execution_decision
  emit_execution_fields frame w (ok e) h = (e, refl, attached _ _ (ap (λ y. y.1) h))
  emit_execution_fields frame w (err e) h = ground arith

  -- The orchestration stage adds the outcome of `arbitrate` on its strategy decision.
  orchestrate_fields :
      (o : OrchestrationEmitter F) (w : World) (frame : RuntimeFrame B V R F)
      (d : StrategyDecision F) {w' : World} {frame' : RuntimeFrame B V R F}
      → frame.strategy_decision ≡ some d
      → orchestrate_frame o w frame ≡ (w', ok (some frame'))
      → (f : FinalDecision F) × (arbitrate o.config o.policy d
            (consult o.learning_decision_provider d)
            (consult o.news_signal_provider d)
          ≡ ok f)
        × (frame' ≡ record frame { final_decision = some f })
  unfolding orchestrate_frame orchestrate_decision
  orchestrate_fields o w frame d q h = emit_final_fields frame w _ (
      sym (
        ap
          (λ x.
            orchestrate_decision o w frame (require x "RuntimeFrame is missing strategy_decision"))
          q)
      ∙ h)

  decide_frame_fields :
      (r : RiskEmitter F) (w : World) (frame : RuntimeFrame B V R F) (d : StrategyDecision F)
      (portfolio : Result (PortfolioState F)) (account : Result (AccountState F)) {w' : World}
      {frame' : RuntimeFrame B V R F}
      → decide_frame r w frame d portfolio account ≡ (w', ok (some frame'))
      → (e : ExecutionDecision F) × (frame' ≡ record frame { execution_decision = some e })
        × (zero_f ≼ e.approved_allocation)
        × (e.approved_allocation ≼ d.allocation)
  unfolding decide_frame
  decide_frame_fields r w frame d (err _) account h = ground arith
  decide_frame_fields r w frame d (ok p) (err _) h = ground arith
  decide_frame_fields r w frame d (ok p) (ok a) h =
      let (e, made, same) = emit_execution_fields frame _ _ h in
      let (_, low, high, _, _) =
        decide-Safe r.risk_service d p a w.lock
          (ap (λ x. (x, (decide r.risk_service d p a w.lock).1)) made) in
      (e, same, low, high)

  risk_fields :
      (r : RiskEmitter F) (w : World) (frame : RuntimeFrame B V R F)
      (m : Result (StrategyDecision F)) {w' : World} {frame' : RuntimeFrame B V R F}
      → risk_decision r w frame m ≡ (w', ok (some frame'))
      → (d : StrategyDecision F) × (m ≡ ok d)
        × ((e : ExecutionDecision F) × (frame' ≡ record frame { execution_decision = some e })
            × (zero_f ≼ e.approved_allocation)
            × (e.approved_allocation ≼ d.allocation))
  unfolding risk_decision
  risk_fields r w frame (err e) h = ground arith
  risk_fields r w frame (ok d) h = (d, refl, decide_frame_fields r w frame d _ _ h)

  effective_allocation :
      (frame : RuntimeFrame B V R F) (d : StrategyDecision F) (f : FinalDecision F)
      {d' : StrategyDecision F}
      → frame.strategy_decision ≡ some d
      → frame.final_decision ≡ some f
      → effective_strategy_decision frame ≡ ok d'
      → d'.allocation ≡ f.final_allocation
  unfolding effective_strategy_decision
  effective_allocation frame d f p q h =
      ap (λ x. x.allocation) (sym (construct-eq-ok check_strategy_decision _ (rw (p, q) at h)).1)

module _ {F : Type 0} ⦃fl : Float F⦄ (laws : IsFloat F) where
  safety_first_descends :
      (config : OrchestrationConfig F) (d : StrategyDecision F)
      (learning : Option (LearningDecision F)) (news : Option (NewsSignal F)) {f : FinalDecision F}
      (m : Result (Unit {0}))
      → validate_context d learning news ≡ m
      → check_config config ≡ ok tt
      → IsChecked d
      → safety_first config d learning news ≡ ok f
      → f.final_allocation ≼ d.allocation
  unfolding safety_first
  safety_first_descends config d learning news (ok _) v good checked h =
      let (f', made, _, _, _, _, high, _, _) =
        safety_first-Tempered laws config d learning news good checked v in
      rw (← ok-injective (sym made ∙ h)) high
  safety_first_descends config d learning news (err e) v good checked h = cc (rw v at h)

module _ {B V R F : Type 0} ⦃fl : Float F⦄ (laws : IsFloat F) where
  -- With the default policy and a checked configuration, a frame with a checked strategy decision
  -- that leaves the orchestration stage and then the risk stage keeps that decision and has a final
  -- decision that allocates no more than it, and an execution decision that approves no more than
  -- the final one and no less than zero.
  pub stages_descend :
      (o : OrchestrationEmitter F) (r : RiskEmitter F) (w : World) (frame : RuntimeFrame B V R F)
      (d : StrategyDecision F) {w' : World} {frame' : RuntimeFrame B V R F}
      → o.policy ≡ none
      → check_config o.config ≡ ok tt
      → frame.strategy_decision ≡ some d
      → IsChecked d
      → run_stages (orchestrate_frame o ∷ risk_frame r ∷ []) w (some frame) ≡ (w', ok (some frame'))
      → (f : FinalDecision F) × (e : ExecutionDecision F) × (frame'.strategy_decision ≡ some d)
        × (frame'.final_decision ≡ some f)
        × (frame'.execution_decision ≡ some e)
        × (f.final_allocation ≼ d.allocation)
        × (e.approved_allocation ≼ f.final_allocation)
        × (zero_f ≼ e.approved_allocation)
  unfolding run_stages risk_frame arbitrate
  stages_descend o r w frame d policy good q checked h =
      let (w1, frame1, first, second) =
        two_stages (orchestrate_frame o w frame) (risk_frame r) w frame h in
      let (f, arbitrated, same1) = orchestrate_fields o w frame d q first in
      let (d', effective, (e, same2, low, high)) = risk_fields r w1 frame1 _ second in
      let below =
        safety_first_descends laws o.config d (consult o.learning_decision_provider d)
          (consult o.news_signal_provider d) _ refl good checked (rw policy at arbitrated) in
      let sized =
        effective_allocation frame1 d f (ap (λ x. x.strategy_decision) same1 ∙ q)
          (ap (λ x. x.final_decision) same1) effective in
      (
        f,
        e,
        ap (λ x. x.strategy_decision) same2 ∙ ap (λ x. x.strategy_decision) same1 ∙ q,
        ap (λ x. x.final_decision) same2 ∙ ap (λ x. x.final_decision) same1,
        ap (λ x. x.execution_decision) same2,
        below,
        rw sized at high,
        low,
      )
