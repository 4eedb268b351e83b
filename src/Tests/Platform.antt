-- ===== src/Tests/Platform.antt =====
-- The strategies and the start-up of the platform at concrete inputs.
use suky_tradin_bot.Common.Dict.{lookup, insert}
use suky_tradin_bot.Ops.Metrics.{on_counter, counter_inc, set_gauge, new_metric}
use suky_tradin_bot.Float.{zero_f, ◌≼◌, ◌≼◌}
use suky_tradin_bot.Common.Errors.{ok, err, data_fetch, ◌>>=◌, ◌>>=◌}
use suky_tradin_bot.Base.Int.{pos}
use suky_tradin_bot.Common.Text.{is_blank, is_nil}
use suky_tradin_bot.Strategy.Regime.{
  RegimeMappedStrategy, check_strategy, allocate, days, allocate_answers,
}
use suky_tradin_bot.Ops.Gate.{is_ok, IsPrepared, all_set, all_pass, build_runtime_context_answers}
use suky_tradin_bot.Base.{ℕ, ◌∷◌, true, ◌∷◌, ◌≡◌, ◌≡◌, [], not, none, some, refl, ◌&&◌, ◌&&◌}
use suky_tradin_bot.Ops.Startup.{Startup, build_runtime_context, version_or}
use suky_tradin_bot.Ops.Platform.{
  PlatformInfo, DiagnosticReport, check_runtime_context, check_platform_info,
  check_diagnostic_report,
}
use suky_tradin_bot.Ops.Wire.{report_from_dict, report_to_dict, report_from_dict-report_to_dict}
use suky_tradin_bot.Strategy.Decision.{StrategyDecision, IsChecked}
use suky_tradin_bot.Ops.Health.{
  check_platform_health, HealthCheckResult, check_health_check_result, HealthStatus,
  classify_status, healthy_count,
}
use suky_tradin_bot.Common.Time.{require_utc}
use suky_tradin_bot.Hmm.State.{check_regime_state, RegimeState}
use suky_tradin_bot.Float.Fixed.{fixed_float, Fixed-IsFloat, Fixed}
use suky_tradin_bot.Common.Json.{get}
use suky_tradin_bot.Tests.Data.{number, noon}
use suky_tradin_bot.Tests.Wire.{codec, codec-IsCodec}
use suky_tradin_bot.Strategy.Registry.{Snapshot}

abbrev growth : RegimeMappedStrategy Fixed
growth = record {
  strategy_id = "bull";
  supported_regime_ids = pos 1 ∷ [];
  base_allocation = number 1 0;
  expected_holding_period = days 20;
  style = "growth";
}

abbrev rising : RegimeState Fixed
rising = record {
  timestamp = noon;
  symbol = "SPY";
  regime_id = pos 1;
  confidence = number 8 1;
  transition_probability = number 1 1;
  model_version = "v1";
  feature_pipeline_version = "1";
  metadata = [];
}

abbrev vector : Snapshot ℕ
vector = record { symbol = "SPY"; timestamp = noon; content = 0 }

growth_checked : check_strategy growth ≡ ok tt
unfolding check_strategy
growth_checked = refl

rising_checked : check_regime_state rising ≡ ok tt
unfolding check_regime_state require_utc
rising_checked = refl

allocate_answers_example :
    (d : StrategyDecision Fixed) × (allocate (λ _. "1") (λ s. s) growth vector rising ≡ ok d)
    × IsChecked d
    × (d.confidence ≡ number 8 1)
    × (zero_f ≼ d.allocation)
    × (d.allocation ≼ number 1 0)
allocate_answers_example =
    allocate_answers (λ _. "1") (λ s. s) Fixed-IsFloat growth vector rising growth_checked
      rising_checked refl refl

-- One check passes and the probe of the other raises.
abbrev start : Startup
start = record {
  version = "1.0";
  git_commit = "abc";
  environment = "paper";
  required_secrets = "KEY" ∷ [];
  secret_source = λ _. some "secret";
  checks =
      record { name = "configuration"; probe = ok true }
      ∷ record { name = "market_data"; probe = err (data_fetch "no connection") }
      ∷ [];
  python_version = none;
  interpreter_version = "3.11";
  print = λ _. "no connection";
  now = noon;
}

start-IsPrepared : IsPrepared start
unfolding require_utc version_or
start-IsPrepared = (refl, refl, refl, refl, (refl, (refl, tt)))

build_runtime_context_answers_example :
    is_ok (build_runtime_context start)
    ≡ ((not (is_nil "paper") && all_set (λ _. some "secret") ("KEY" ∷ [])) && all_pass start.checks)
build_runtime_context_answers_example = build_runtime_context_answers start start-IsPrepared

abbrev probed : HealthCheckResult
probed = record { name = "configuration"; is_healthy = true; detail = "ok"; checked_at = noon }

abbrev platform : PlatformInfo
platform = record {
  version = "1.0";
  git_commit = "abc";
  build_time = noon;
  python_version = "3.11";
}

abbrev report : DiagnosticReport
report = record {
  runtime_context = record { platform_info = platform; environment = "paper"; startup_time = noon };
  health = record {
    status = HealthStatus.healthy;
    checks = probed ∷ [];
    timestamp = noon;
    version = "1.0";
    git_commit = "abc";
  };
  deployment_info = none;
  generated_at = noon;
}

probed_checked : check_health_check_result probed ≡ ok tt
unfolding check_health_check_result require_utc is_blank
probed_checked = refl

platform_checked : check_platform_info platform ≡ ok tt
unfolding check_platform_info require_utc
platform_checked = refl

context_checked : check_runtime_context report.runtime_context ≡ ok tt
unfolding check_runtime_context require_utc
context_checked = refl

health_checked : check_platform_health report.health ≡ ok tt
unfolding check_platform_health require_utc classify_status healthy_count
health_checked = refl

report_checked : check_diagnostic_report report ≡ ok tt
unfolding check_diagnostic_report require_utc
report_checked = refl

report_from_dict-report_to_dict_example :
    report_from_dict codec (get (report_to_dict codec report)) ≡ ok report
report_from_dict-report_to_dict_example =
    report_from_dict-report_to_dict codec report codec-IsCodec report_checked platform_checked
      context_checked (probed_checked, tt) health_checked tt

-- An increment of a new counter, and a new gauge that is set.
recorded :
    (on_counter "orders" "" (counter_inc (number 2 0)) (record { counters = []; gauges = [] })
      >>= set_gauge "depth" "Queue" (number 1 0))
    ≡ ok (record {
      counters = ("orders", record { name = "orders"; help_text = ""; value = number 2 0 }) ∷ [];
      gauges = ("depth", record { name = "depth"; help_text = "Queue"; value = number 1 0 }) ∷ [];
    })
unfolding on_counter counter_inc set_gauge new_metric lookup insert
recorded = refl
