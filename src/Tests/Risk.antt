-- ===== src/Tests/Risk.antt =====
-- The risk layer's theorems at concrete inputs.
use suky_tradin_bot.Common.Text.{is_blank}
use suky_tradin_bot.Common.Time.{require_utc}
use suky_tradin_bot.Base.{
  ◌≡◌, refl, true, false, none, String, List, [], ◌∷◌, inl, is_empty, is_some, ◌||◌, All,
  if◌then◌else◌,
}
use suky_tradin_bot.Float.{◌≼◌, IsUnit, zero_f, min_f}
use suky_tradin_bot.Float.Fixed.{Fixed, fixed_float, Fixed-IsFloat}
use suky_tradin_bot.Common.Errors.{ok, err, value_error}
use suky_tradin_bot.Strategy.Decision.{
  Checked, IsChecked→Checked, check_strategy_decision, IsChecked,
}
use suky_tradin_bot.Risk.Service.{decide, default_service, decision_of, tolerance}
use suky_tradin_bot.Risk.Decision.{rejected, approved, reduced}
use suky_tradin_bot.Risk.Portfolio.{
  drawdown_pct, daily_drawdown_pct, weekly_drawdown_pct, peak_drawdown_pct,
  peak_drawdown_emergency_pct, daily_drawdown_size_cut_multiplier, daily_drawdown_halt_pct,
  weekly_drawdown_halt_pct,
}
use suky_tradin_bot.Risk.Validators.{projected_notional}
use suky_tradin_bot.Risk.Sizing.{apply, default_sizing}
use suky_tradin_bot.Risk.Sizing.Bounds.{apply_bounds, limits, IsIn}
use suky_tradin_bot.Risk.Breaker.{evaluate, CircuitBreakerAction, halts_new_trades, is_acting}
use suky_tradin_bot.Risk.Breaker.Latch.{
  evaluate_halts, evaluate_lock, emergency_latches, lock_after,
}
use suky_tradin_bot.Risk.Service.Contract.{
  decide_rejects, decide_accepts, decide_cuts, decide_zero_raises,
}
use suky_tradin_bot.Risk.Service.Safety.{decide-Safe, Safe}
use suky_tradin_bot.Tests.Data.{
  quarter, quarter-IsChecked, requesting, number, calm, shaken, crashed, account, sectors,
}

nothing-IsChecked : IsChecked (requesting (number 0 0))
unfolding check_strategy_decision require_utc is_blank
nothing-IsChecked = refl

quarter-Checked : Checked quarter
quarter-Checked = IsChecked→Checked quarter quarter-IsChecked

nothing-Checked : Checked (requesting (number 0 0))
nothing-Checked = IsChecked→Checked (requesting (number 0 0)) nothing-IsChecked

poor : fixed_float.lt (number 100 0) (projected_notional quarter calm) ≡ true
unfolding projected_notional
poor = refl

rich : fixed_float.lt (number 100_000 0) (projected_notional quarter calm) ≡ false
unfolding projected_notional
rich = refl

rich_shaken : fixed_float.lt (number 100_000 0) (projected_notional quarter shaken) ≡ false
unfolding projected_notional
rich_shaken = refl

rich_for_nothing :
    fixed_float.lt (number 100_000 0) (projected_notional (requesting (number 0 0)) shaken) ≡ false
unfolding projected_notional
rich_for_nothing = refl

calm_quiet : (evaluate calm none).0.action ≡ CircuitBreakerAction.no_action
unfolding evaluate daily_drawdown_pct weekly_drawdown_pct peak_drawdown_pct drawdown_pct
calm_quiet = refl

shaken_cut : (evaluate shaken none).0.action ≡ CircuitBreakerAction.cut_size_50
unfolding evaluate daily_drawdown_pct weekly_drawdown_pct peak_drawdown_pct drawdown_pct
shaken_cut = refl

crashed_deep : fixed_float.lt peak_drawdown_emergency_pct (peak_drawdown_pct crashed) ≡ true
unfolding peak_drawdown_pct drawdown_pct
crashed_deep = refl

decide_rejects_example :
    (adjustments : List String) × (decide (default_service sectors) quarter calm (account 100) none
      ≡ (ok (decision_of quarter false (rejected, zero_f) adjustments), (evaluate calm none).1))
    × (is_empty adjustments ≡ false)
decide_rejects_example =
    decide_rejects Fixed-IsFloat quarter calm (account 100) sectors quarter-Checked none (inl poor)

-- The sized allocations of the two days.
abbrev calm_sized : Fixed
calm_sized =
    min_f quarter.allocation (apply (default_sizing sectors) quarter quarter.allocation calm)

abbrev shaken_sized : Fixed
shaken_sized =
    min_f quarter.allocation (apply (default_sizing sectors) quarter quarter.allocation shaken)

decide_accepts_example :
    (adjustments : List String) × (decide
        (default_service sectors)
        quarter
        calm
        (account 100_000)
        none
      ≡ (
        ok (
            decision_of quarter true
              (if fixed_float.lt calm_sized (fixed_float.sub quarter.allocation tolerance)
                then (reduced, calm_sized)
                else (approved, quarter.allocation))
              adjustments),
        (evaluate calm none).1,
      ))
decide_accepts_example =
    decide_accepts Fixed-IsFloat quarter calm (account 100_000) sectors quarter-Checked none rich
      calm_quiet

decide_cuts_example :
    let y = min_f shaken_sized (fixed_float.mul shaken_sized daily_drawdown_size_cut_multiplier) in
    (adjustments : List String) × (decide
        (default_service sectors)
        quarter
        shaken
        (account 100_000)
        none
      ≡ (
        if fixed_float.lt y (fixed_float.sub quarter.allocation tolerance)
            then ok (decision_of quarter true (reduced, y) adjustments)
            else err (
                value_error
                  "risk_adjustments must be empty for a clean DecisionType.APPROVED decision"),
        (evaluate shaken none).1,
      ))
decide_cuts_example =
    decide_cuts Fixed-IsFloat quarter shaken (account 100_000) sectors quarter-Checked none
      rich_shaken shaken_cut

decide_zero_raises_example :
    decide (default_service sectors) (requesting (number 0 0)) shaken (account 100_000) none ≡ (
      err (value_error "risk_adjustments must be empty for a clean DecisionType.APPROVED decision"),
      (evaluate shaken none).1,
    )
decide_zero_raises_example =
    decide_zero_raises Fixed-IsFloat (requesting (number 0 0)) shaken (account 100_000) sectors
      nothing-Checked none rich_for_nothing shaken_cut refl

overdrawn :
    (adjustments : List String) × (decide (default_service sectors) quarter calm (account 100) none
      ≡ (ok (decision_of quarter false (rejected, zero_f) adjustments), (evaluate calm none).1))
    × (is_empty adjustments ≡ false)
overdrawn =
    decide_rejects Fixed-IsFloat quarter calm (account 100) sectors quarter-Checked none (inl poor)

decide-Safe_example :
    Safe quarter
      ((default_service sectors).circuit_breaker.run calm none)
      (decision_of quarter false (rejected, zero_f) overdrawn.0)
      (evaluate calm none).1
decide-Safe_example =
    decide-Safe (default_service sectors) quarter calm (account 100) none overdrawn.1

evaluate_halts_example :
    (halts_new_trades (evaluate crashed none).0 ≡ (
      is_some {A = String} none
      || fixed_float.lt peak_drawdown_emergency_pct (peak_drawdown_pct crashed)
      || fixed_float.lt weekly_drawdown_halt_pct (weekly_drawdown_pct crashed)
      || fixed_float.lt daily_drawdown_halt_pct (daily_drawdown_pct crashed)))
    × ((evaluate crashed none).0.liquidate ≡ halts_new_trades (evaluate crashed none).0)
    × (is_empty (evaluate crashed none).0.reasons
        ≡ (if is_acting (evaluate crashed none).0.action then false else true))
evaluate_halts_example = evaluate_halts crashed none

evaluate_lock_example : is_some (evaluate crashed none).1 ≡ (
    is_some {A = String} none
    || fixed_float.lt peak_drawdown_emergency_pct (peak_drawdown_pct crashed))
evaluate_lock_example = evaluate_lock crashed none

emergency_latches_example :
    let r = (evaluate calm (lock_after (calm ∷ crashed ∷ calm ∷ []) none)).0 in
    (r.action ≡ CircuitBreakerAction.emergency_hard_stop)
    × (r.size_multiplier ≡ zero_f)
    × (r.liquidate ≡ true)
emergency_latches_example = emergency_latches (calm ∷ []) crashed (calm ∷ []) calm none crashed_deep

apply_bounds_example :
    IsUnit (apply (default_sizing sectors) quarter (number 25 2) calm)
    × (apply (default_sizing sectors) quarter (number 25 2) calm ≼ number 25 2)
    × All
        (λ h. apply (default_sizing sectors) quarter (number 25 2) calm ≼ h)
        (limits (default_sizing sectors) quarter (number 25 2) calm)
    × IsIn
        (apply (default_sizing sectors) quarter (number 25 2) calm)
        (limits (default_sizing sectors) quarter (number 25 2) calm)
apply_bounds_example =
    apply_bounds Fixed-IsFloat (default_sizing sectors) quarter (number 25 2) calm (refl, refl)
