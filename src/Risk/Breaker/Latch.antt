-- ===== src/Risk/Breaker/Latch.antt =====
-- When the breaker halts trading, and that its emergency stop outlives every recovery.
use suky_tradin_bot.Base.{
  ◌≡◌, refl, true, false, ◌||◌, is_some, List, [], ◌∷◌, ◌++◌, arith, is_empty, if◌then◌else◌,
}
use suky_tradin_bot.Float.{Float, zero_f, one_f}
use suky_tradin_bot.Risk.Portfolio.{
  PortfolioState, daily_drawdown_pct, weekly_drawdown_pct, peak_drawdown_pct,
  daily_drawdown_halt_pct, weekly_drawdown_halt_pct, peak_drawdown_emergency_pct,
  daily_drawdown_size_cut_multiplier,
}
use suky_tradin_bot.Risk.Breaker.{Lock, CircuitBreakerAction, is_acting, halts_new_trades, evaluate}

module _ {F : Type 0} ⦃fl : Float F⦄ where
  open fl use {lt, decimal}

  -- The breaker halts new trades exactly when the lock file is there or one of the three halting
  -- thresholds is crossed; it liquidates in the same cases, and gives reasons exactly when it acts.
  pub evaluate_halts :
      (p : PortfolioState F) (lock : Lock)
      → (halts_new_trades (evaluate p lock).0 ≡ (
          is_some lock
          || lt peak_drawdown_emergency_pct (peak_drawdown_pct p)
          || lt weekly_drawdown_halt_pct (weekly_drawdown_pct p)
          || lt daily_drawdown_halt_pct (daily_drawdown_pct p)))
        × ((evaluate p lock).0.liquidate ≡ halts_new_trades (evaluate p lock).0)
        × (is_empty (evaluate p lock).0.reasons
            ≡ (if is_acting (evaluate p lock).0.action then false else true))
  unfolding evaluate
  evaluate_halts p lock = ground arith

  -- The size multiplier and the reasons that go with an action that does not halt.
  pub evaluate_quiet :
      (p : PortfolioState F) (lock : Lock)
      → (evaluate p lock).0.action ≡ CircuitBreakerAction.no_action
      → (evaluate p lock).0.size_multiplier ≡ one_f
  unfolding evaluate
  evaluate_quiet p lock h = ground arith

  pub evaluate_cut :
      (p : PortfolioState F) (lock : Lock)
      → (evaluate p lock).0.action ≡ CircuitBreakerAction.cut_size_50
      → (evaluate p lock).0.size_multiplier ≡ daily_drawdown_size_cut_multiplier
  unfolding evaluate
  evaluate_cut p lock h = ground arith

  -- An evaluation leaves a lock file exactly when there was one or the peak drawdown is over the
  -- emergency threshold.
  pub evaluate_lock :
      (p : PortfolioState F) (lock : Lock)
      → is_some (evaluate p lock).1
        ≡ (is_some lock || lt peak_drawdown_emergency_pct (peak_drawdown_pct p))
  unfolding evaluate
  evaluate_lock p lock = ground arith

  -- The lock file after a series of evaluations.
  unfoldable pub lock_after : List (PortfolioState F) → Lock → Lock
  lock_after [] lock = lock
  lock_after (p ∷ ps) lock = lock_after ps (evaluate p lock).1

  lock_after-is_some :
      (ps : List (PortfolioState F)) (lock : Lock)
      → is_some lock ≡ true
      → is_some (lock_after ps lock) ≡ true
  unfolding lock_after
  lock_after-is_some [] lock h = h
  lock_after-is_some (p ∷ ps) lock h =
      lock_after-is_some ps (evaluate p lock).1 (ground (arith, evaluate_lock p lock))

  lock_after-append :
      (ps qs : List (PortfolioState F)) (lock : Lock)
      → lock_after (ps ++ qs) lock ≡ lock_after qs (lock_after ps lock)
  unfolding lock_after
  lock_after-append [] qs lock = refl
  lock_after-append (p ∷ ps) qs lock = lock_after-append ps qs (evaluate p lock).1

  evaluate_locked :
      (q : PortfolioState F) (lock : Lock)
      → is_some lock ≡ true
      → let r = (evaluate q lock).0 in
        (r.action ≡ CircuitBreakerAction.emergency_hard_stop)
        × (r.size_multiplier ≡ zero_f)
        × (r.liquidate ≡ true)
  unfolding evaluate
  evaluate_locked q lock h = ground arith

  -- Once an evaluation has seen a peak drawdown over the emergency threshold, every later one, for
  -- whatever portfolio and after however many others, is an emergency hard stop with size zero.
  pub emergency_latches :
      (before : List (PortfolioState F)) (p : PortfolioState F) (after : List (PortfolioState F))
      (q : PortfolioState F) (lock : Lock)
      → lt peak_drawdown_emergency_pct (peak_drawdown_pct p) ≡ true
      → let r = (evaluate q (lock_after (before ++ p ∷ after) lock)).0 in
        (r.action ≡ CircuitBreakerAction.emergency_hard_stop)
        × (r.size_multiplier ≡ zero_f)
        × (r.liquidate ≡ true)
  unfolding lock_after
  emergency_latches before p after q lock h =
      evaluate_locked q (lock_after (before ++ p ∷ after) lock) (
        rw (lock_after-append before (p ∷ after) lock) (
          lock_after-is_some after (evaluate p (lock_after before lock)).1
            (ground (arith, evaluate_lock p (lock_after before lock)))))
