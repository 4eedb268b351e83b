-- ===== src/Risk/Breaker.antt =====
-- The drawdown circuit breaker and its emergency lock file (src/risk/circuit_breakers.py). The
-- file system is one value: the text of the lock file, or `none` where there is no such file.
pub mod Latch
use suky_tradin_bot.Base.{
  Bool, true, false, Option, some, is_some, String, ◌<>◌, List, [], ◌∷◌, if◌then◌else◌,
}
use suky_tradin_bot.Float.{Float, zero_f, one_f}
use suky_tradin_bot.Risk.Portfolio.{
  PortfolioState, daily_drawdown_pct, weekly_drawdown_pct, peak_drawdown_pct,
  daily_drawdown_size_cut_pct, daily_drawdown_halt_pct, weekly_drawdown_halt_pct,
  peak_drawdown_emergency_pct, daily_drawdown_size_cut_multiplier,
}

pub data CircuitBreakerAction : Type 0 where
  no_action cut_size_50 halt_day halt_week emergency_hard_stop : CircuitBreakerAction

abbrev pub Lock : Type 0
Lock = Option String

pub record CircuitBreakerResult (F : Type 0) : Type 0 where
  pub action : CircuitBreakerAction
  pub size_multiplier : F
  pub liquidate : Bool
  pub reasons : List String

-- `self.action in _HALTING_ACTIONS`
abbrev pub is_halting : CircuitBreakerAction → Bool
is_halting CircuitBreakerAction.no_action = false
is_halting CircuitBreakerAction.cut_size_50 = false
is_halting CircuitBreakerAction.halt_day = true
is_halting CircuitBreakerAction.halt_week = true
is_halting CircuitBreakerAction.emergency_hard_stop = true

abbrev pub halts_new_trades : {F : Type 0} → CircuitBreakerResult F → Bool
halts_new_trades r = is_halting r.action

-- `action is not CircuitBreakerAction.NONE`
abbrev pub is_acting : CircuitBreakerAction → Bool
is_acting CircuitBreakerAction.no_action = false
is_acting _ = true

-- `lock_path.exists()`
abbrev pub is_emergency_halted : Lock → Bool
is_emergency_halted = is_some

module _ {F : Type 0} ⦃fl : Float F⦄ where
  open fl use {decimal, lt, show}

  emergency_text : PortfolioState F → String
  emergency_text p =
      "EMERGENCY HARD STOP\npeak_drawdown_pct="
      <> show ".4f" (peak_drawdown_pct p)
      <> "\nequity_peak="
      <> show ".2f" p.equity_peak
      <> "\nequity="
      <> show ".2f" p.equity
      <> "\nDelete this file manually to resume trading.\n"

  -- Writes the lock file unless there is one; the log line is left out.
  unfoldable pub trigger_emergency_hard_stop : PortfolioState F → Lock → Lock
  unfolding emergency_text
  trigger_emergency_hard_stop p lock =
      if is_emergency_halted lock then lock else some (emergency_text p)

  over : String → F → F → String → String
  over what value limit threshold =
      what <> " drawdown " <> show ".2%" value <> " > " <> show ".0%" limit <> threshold

  halt : CircuitBreakerAction → String → CircuitBreakerResult F
  halt action reason = record {
    action = action;
    size_multiplier = zero_f;
    liquidate = true;
    reasons = reason ∷ [];
  }

  -- `DrawdownCircuitBreaker.evaluate`, with the lock file that it leaves.
  unfoldable pub evaluate : PortfolioState F → Lock → CircuitBreakerResult F × Lock
  unfolding over halt trigger_emergency_hard_stop
  evaluate p lock =
      let peak = peak_drawdown_pct p in
      let weekly = weekly_drawdown_pct p in
      let daily = daily_drawdown_pct p in
      if is_emergency_halted lock
      then (
        halt CircuitBreakerAction.emergency_hard_stop
            "Emergency hard stop lock file present; manual deletion required to resume.",
        lock,
      )
      else if lt peak_drawdown_emergency_pct peak
      then (
        halt CircuitBreakerAction.emergency_hard_stop
            (over "Peak" peak peak_drawdown_emergency_pct " emergency threshold."),
        trigger_emergency_hard_stop p lock,
      )
      else if lt weekly_drawdown_halt_pct weekly
      then (
        halt CircuitBreakerAction.halt_week
            (over "Weekly" weekly weekly_drawdown_halt_pct " weekly halt threshold."),
        lock,
      )
      else if lt daily_drawdown_halt_pct daily
      then (
        halt CircuitBreakerAction.halt_day
            (over "Daily" daily daily_drawdown_halt_pct " daily halt threshold."),
        lock,
      )
      else if lt daily_drawdown_size_cut_pct daily
      then (
        record {
          action = CircuitBreakerAction.cut_size_50;
          size_multiplier = daily_drawdown_size_cut_multiplier;
          liquidate = false;
          reasons = over "Daily" daily daily_drawdown_size_cut_pct " size-cut threshold." ∷ [];
        },
        lock,
      )
      else (
        record {
          action = CircuitBreakerAction.no_action;
          size_multiplier = one_f;
          liquidate = false;
          reasons = [];
        },
        lock,
      )
