-- ===== src/Ops/Health.antt =====
-- Health checks (src/ops/models.py, checks.py, health.py) and alerts (alerts.py). What a probe
-- answers or raises, the clock, and the text of an exception are parameters.
use suky_tradin_bot.Base.{
  ℕ, suc, ◌==◌, Bool, true, false, not, String, ◌<>◌, List, [], ◌∷◌, map, Option, none, some,
  length, is_empty, if◌then◌else◌,
}
use suky_tradin_bot.Common.Text.{is_nil, is_blank, join}
use suky_tradin_bot.Common.Time.{Datetime, require_utc}
use suky_tradin_bot.Common.Errors.{
  Error, Result, ok, err, construct, ◌>>=◌, ◌>>◌, reject_if, raise_if, value_error,
  unhealthy_platform,
}
use suky_tradin_bot.Risk.Portfolio.{keep}

pub data HealthStatus : Type 0 where
  healthy degraded unhealthy : HealthStatus

abbrev pub status_value : HealthStatus → String
status_value healthy = "healthy"
status_value degraded = "degraded"
status_value unhealthy = "unhealthy"

-- `is` of two members of the enumeration.
abbrev pub same_status : HealthStatus → HealthStatus → Bool
same_status healthy healthy = true
same_status degraded degraded = true
same_status unhealthy unhealthy = true
same_status _ _ = false

pub record HealthCheckResult : Type 0 where
  pub name : String
  pub is_healthy : Bool
  pub detail : String
  pub checked_at : Datetime

-- `HealthCheckResult.__post_init__`
unfoldable pub check_health_check_result : HealthCheckResult → Result (Unit {0})
check_health_check_result r = do
  require_utc r.checked_at "checked_at"
  reject_if (is_nil r.name) "name must not be empty"
  reject_if (is_blank r.detail) "detail must not be empty"

-- `sum(1 for check in checks if check.healthy)`
unfoldable pub healthy_count : List HealthCheckResult → ℕ
healthy_count [] = 0
healthy_count (r ∷ rest) = if r.is_healthy then suc (healthy_count rest) else healthy_count rest

-- `classify_status`
unfoldable pub classify_status : List HealthCheckResult → Result HealthStatus
classify_status checks =
    if is_empty checks
    then err (value_error "checks must not be empty")
    else if healthy_count checks == length checks
    then ok healthy
    else if healthy_count checks == 0
    then ok unhealthy
    else ok degraded

pub record PlatformHealth : Type 0 where
  pub status : HealthStatus
  pub checks : List HealthCheckResult
  pub timestamp : Datetime
  pub version : String
  pub git_commit : String

-- `PlatformHealth.__post_init__`
unfoldable pub check_platform_health : PlatformHealth → Result (Unit {0})
check_platform_health h = do
  require_utc h.timestamp "timestamp"
  reject_if (is_empty h.checks) "checks must not be empty"
  reject_if (is_nil h.version) "version must not be empty"
  reject_if (is_nil h.git_commit) "git_commit must not be empty"
  expected ← classify_status h.checks
  reject_if (not (same_status h.status expected)) "status is inconsistent with checks"

-- `CallableHealthCheck`
pub record HealthCheck : Type 0 where
  pub name : String
  pub probe : Result Bool

-- What `CallableHealthCheck.check` makes of an exception of the probe, and of an answer.
unfoldable pub result_of : (Error → String) → Datetime → String → Result Bool → HealthCheckResult
result_of print now name (err e) = record {
  name = name;
  is_healthy = false;
  detail = "probe raised " <> print e;
  checked_at = now;
}
result_of print now name (ok answer) = record {
  name = name;
  is_healthy = answer;
  detail = if answer then "ok" else "probe returned False";
  checked_at = now;
}

-- `CallableHealthCheck.check`
unfoldable pub run_check : (Error → String) → Datetime → HealthCheck → Result HealthCheckResult
run_check print now c = construct check_health_check_result (result_of print now c.name c.probe)

unfoldable pub run_checks :
    (Error → String) → Datetime → List HealthCheck → Result (List HealthCheckResult)
run_checks print now [] = ok []
run_checks print now (c ∷ rest) = do
  r ← run_check print now c
  others ← run_checks print now rest
  ok (r ∷ others)

-- `evaluate_health`
unfoldable pub evaluate_health :
    (Error → String) → Datetime → List HealthCheck → String → String → Result PlatformHealth
evaluate_health print now checks version git_commit = do
  results ← run_checks print now checks
  status ← classify_status results
  construct check_platform_health (record {
    status = status;
    checks = results;
    timestamp = now;
    version = version;
    git_commit = git_commit;
  })

-- The names of the failing checks, as `require_healthy` and the alert rules join them.
unfoldable pub failing_check_names : PlatformHealth → String
failing_check_names h = join ", " (map (λ r. r.name) (keep (λ r. not r.is_healthy) h.checks))

-- `require_healthy`
unfoldable pub require_healthy : PlatformHealth → Result (Unit {0})
require_healthy h = raise_if (not (same_status h.status healthy)) (
    unhealthy_platform (
      "platform health is "
      <> status_value h.status
      <> "; failing checks: "
      <> failing_check_names h))

pub data AlertSeverity : Type 0 where
  warning critical : AlertSeverity

pub record Alert : Type 0 where
  pub name : String
  pub severity : AlertSeverity
  pub detail : String
  pub triggered_at : Datetime

-- `Alert.__post_init__`
unfoldable pub check_alert : Alert → Result (Unit {0})
check_alert a = do
  require_utc a.triggered_at "triggered_at"
  reject_if (is_nil a.name) "name must not be empty"
  reject_if (is_blank a.detail) "detail must not be empty"

-- `CallableAlertRule`
pub record AlertRule : Type 0 where
  pub name : String
  pub severity : AlertSeverity
  pub predicate : PlatformHealth → Bool
  pub detail : PlatformHealth → String

-- `CallableAlertRule.evaluate`
unfoldable pub evaluate_rule : Datetime → AlertRule → PlatformHealth → Result (Option Alert)
evaluate_rule now r h =
    if not (r.predicate h)
    then ok none
    else (construct check_alert
          (record { name = r.name; severity = r.severity; detail = r.detail h; triggered_at = now })
        >>= λ a. ok (some a))

-- `unhealthy_platform_rule`
unfoldable pub unhealthy_platform_rule : AlertRule
unhealthy_platform_rule = record {
  name = "platform_unhealthy";
  severity = critical;
  predicate = λ h. same_status h.status unhealthy;
  detail = λ h. "failing checks: " <> failing_check_names h;
}

-- `degraded_platform_rule`
unfoldable pub degraded_platform_rule : AlertRule
degraded_platform_rule = record {
  name = "platform_degraded";
  severity = warning;
  predicate = λ h. same_status h.status degraded;
  detail = λ h. "failing checks: " <> failing_check_names h;
}

-- `evaluate_alerts`
unfoldable pub evaluate_alerts : Datetime → PlatformHealth → List AlertRule → Result (List Alert)
evaluate_alerts now h [] = ok []
evaluate_alerts now h (r ∷ rest) = do
  alert ← evaluate_rule now r h
  others ← evaluate_alerts now h rest
  ok (elim alert [ none ↦ others | some a ↦ a ∷ others ])
