-- ===== src/Risk/Service/Safety.antt =====
-- What every service's answer satisfies, whatever its validators, rules and breaker do.
use suky_tradin_bot.Risk.Breaker.{CircuitBreakerResult, Lock, halts_new_trades}
use suky_tradin_bot.Risk.Portfolio.{PortfolioState, AccountState}
use suky_tradin_bot.Risk.Decision.{check_execution_decision, ExecutionDecision}
use suky_tradin_bot.Strategy.Decision.{StrategyDecision}
use suky_tradin_bot.Base.{
  ◌≡◌, refl, Bool, true, false, arith, String, List, is_empty, ◌||◌, sym, not, ◌&&◌, ◌∙◌, ap, ◌++◌,
}
use suky_tradin_bot.Float.{Float, ◌≼◌, zero_f}
use suky_tradin_bot.Common.Errors.{Result, ok, err, construct-eq-ok}
use suky_tradin_bot.Risk.Service.Defs.{
  RiskService, conclude, assess, decide, CircuitBreaker, decide_assessed, decision_of, outcome,
  breaker_allocation, breaker_adjustments,
}

module _ {F : Type 0} ⦃fl : Float F⦄ where
  pub checked_bounds :
      (e : ExecutionDecision F)
      → check_execution_decision e ≡ ok tt
      → (zero_f ≼ e.approved_allocation)
        × (e.approved_allocation ≼ e.strategy_reference.allocation)
        × (e.approved ≡ false → is_empty e.risk_adjustments ≡ false)
  unfolding check_execution_decision
  checked_bounds e h = ground arith

  -- The fields of the decision that `conclude` builds.
  pub conclude_fields :
      (d : StrategyDecision F) (b : CircuitBreaker F) (rej : Bool) (x : F)
      (adjustments : List String) (r : CircuitBreakerResult F) {e : ExecutionDecision F}
      → conclude d b rej (x, adjustments) r ≡ ok e
      → (e.strategy_reference ≡ d)
        × (zero_f ≼ e.approved_allocation)
        × (e.approved_allocation ≼ d.allocation)
        × ((rej || halts_new_trades r) ≡ true
            → (e.approved ≡ false)
              × (e.approved_allocation ≡ zero_f)
              × (is_empty e.risk_adjustments ≡ false))
  unfolding conclude
  conclude_fields d b rej x adjustments r h =
      let approved = not rej && not (halts_new_trades r) in
      let built =
        decision_of d approved (outcome approved (breaker_allocation r x) d)
          (adjustments ++ breaker_adjustments b r) in
      let (passed, same) = construct-eq-ok check_execution_decision built h in
      let (low, high, listed) = checked_bounds built passed in
      rw (← same) (refl, low, high, λ q. ground arith)

  -- What a decision `e` with the lock file `lock'` owes to the request and the breaker's result.
  abbrev pub Safe :
      StrategyDecision F → CircuitBreakerResult F × Lock → ExecutionDecision F → Lock → Type 0
  Safe d (r, left) e lock' =
      (e.strategy_reference ≡ d)
      × (zero_f ≼ e.approved_allocation)
      × (e.approved_allocation ≼ d.allocation)
      × (halts_new_trades r ≡ true
          → (e.approved ≡ false)
            × (e.approved_allocation ≡ zero_f)
            × (is_empty e.risk_adjustments ≡ false))
      × (lock' ≡ left)

  assessed-Safe :
      (s : RiskService F) (d : StrategyDecision F) (p : PortfolioState F) (a : AccountState F)
      (lock : Lock) (m : Result (Bool × (F × List String))) {e : ExecutionDecision F} {lock' : Lock}
      → assess s d p a ≡ m
      → decide s d p a lock ≡ (ok e, lock')
      → Safe d (s.circuit_breaker.run p lock) e lock'
  unfolding decide
  assessed-Safe s d p a lock (err e) q h = cc (ap (λ y. y.0) (rw (q, decide) at h))
  assessed-Safe s d p a lock (ok (rej, (x, adjustments))) q h =
      let h' = sym (decide_assessed s d p a lock _ q) ∙ h in
      let (reference, low, high, halted) =
        conclude_fields d s.circuit_breaker rej x adjustments _ (ap (λ y. y.0) h') in
      (reference, low, high, λ k. halted (ground arith), sym (ap (λ y. y.1) h'))

  -- When `decide` answers, its decision is about the request it was given, its allocation lies
  -- between zero and the request, and a halting breaker leaves nothing: not approved, allocation
  -- zero, with a listed reason. The lock file is the one that the breaker left.
  pub decide-Safe :
      (s : RiskService F) (d : StrategyDecision F) (p : PortfolioState F) (a : AccountState F)
      (lock : Lock) {e : ExecutionDecision F} {lock' : Lock}
      → decide s d p a lock ≡ (ok e, lock')
      → Safe d (s.circuit_breaker.run p lock) e lock'
  decide-Safe s d p a lock h = assessed-Safe s d p a lock (assess s d p a) refl h
