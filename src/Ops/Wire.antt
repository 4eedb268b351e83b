-- ===== src/Ops/Wire.antt =====
-- `to_dict` and `from_dict` of the records of src/ops/models.py, with their round trips.
use suky_tradin_bot.Base.{◌≡◌, refl, Option, none, some, String, List, [], ◌∷◌, All, map}
use suky_tradin_bot.Common.Errors.{Result, ok, construct, ◌>>=◌}
use suky_tradin_bot.Common.Json.{
  Codec, IsCodec, Json, Document, Mapping, string, boolean, null, object, dict, choice, get, at,
  to_string, to_boolean, to_object, to_datetime, to_objects, documents, to_string?, to_object?,
  of_string?, optional, each_back, item_or_null, each,
}
use suky_tradin_bot.Ops.Health.{
  HealthStatus, healthy, degraded, unhealthy, status_value, HealthCheckResult, PlatformHealth,
  check_health_check_result, check_platform_health,
}
use suky_tradin_bot.Ops.Platform.{
  PlatformInfo, RuntimeContext, DeploymentInfo, DiagnosticReport, check_platform_info,
  check_deployment_info, check_runtime_context, check_diagnostic_report,
}
use suky_tradin_bot.Common.Json.{objects}

-- `HealthStatus(value)`
abbrev pub to_status : {F : Type 0} → Json F → Result HealthStatus
to_status = choice (("healthy", healthy) ∷ ("degraded", degraded) ∷ ("unhealthy", unhealthy) ∷ [])

status_back : (F : Type 0) (s : HealthStatus) → to_status {F = F} (string (status_value s)) ≡ ok s
status_back F healthy = refl
status_back F degraded = refl
status_back F unhealthy = refl

target_back : (F : Type 0) (o : Option String) → to_string? {F = F} (of_string? o) ≡ ok o
target_back F none = refl
target_back F (some s) = refl

module _ {F : Type 0} (c : Codec F) where
  unfoldable pub result_to_dict : HealthCheckResult → Document F
  result_to_dict x = dict (
      ("name", string x.name)
      ∷ ("healthy", boolean x.is_healthy)
      ∷ ("detail", string x.detail)
      ∷ ("checked_at", string (c.isoformat x.checked_at))
      ∷ [])

  unfoldable pub result_from_dict : Mapping F → Result (HealthCheckResult)
  result_from_dict d = do
    name ← at to_string d "name"
    is_healthy ← at to_boolean d "healthy"
    detail ← at to_string d "detail"
    checked_at ← at (to_datetime c) d "checked_at"
    construct check_health_check_result
        (record { name = name; is_healthy = is_healthy; detail = detail; checked_at = checked_at })

  -- A checked result is read back from its dict.
  pub result_from_dict-result_to_dict :
      (x : HealthCheckResult)
      → IsCodec c
      → check_health_check_result x ≡ ok tt
      → result_from_dict (get (result_to_dict x)) ≡ ok x
  unfolding result_to_dict result_from_dict
  result_from_dict-result_to_dict x laws checked = rw (laws.read_back x.checked_at, checked) refl

  results_back :
      (xs : List HealthCheckResult)
      → IsCodec c
      → All (λ r. check_health_check_result r ≡ ok tt) xs
      → All (λ r. result_from_dict (get (result_to_dict r)) ≡ ok r) xs
  results_back [] laws h = tt
  results_back (r ∷ rest) laws (e, h) =
      (result_from_dict-result_to_dict r laws e, results_back rest laws h)

  unfoldable pub health_to_dict : PlatformHealth → Document F
  health_to_dict x = dict (
      ("status", string (status_value x.status))
      ∷ ("checks", objects (documents (map result_to_dict x.checks)))
      ∷ ("timestamp", string (c.isoformat x.timestamp))
      ∷ ("version", string x.version)
      ∷ ("git_commit", string x.git_commit)
      ∷ [])

  unfoldable pub health_from_dict : Mapping F → Result (PlatformHealth)
  health_from_dict d = do
    status ← at to_status d "status"
    checks ← at to_objects d "checks" >>= each result_from_dict
    timestamp ← at (to_datetime c) d "timestamp"
    version ← at to_string d "version"
    git_commit ← at to_string d "git_commit"
    construct check_platform_health (record {
      status = status;
      checks = checks;
      timestamp = timestamp;
      version = version;
      git_commit = git_commit;
    })

  -- Checked health of checked results is read back from its dict.
  pub health_from_dict-health_to_dict :
      (x : PlatformHealth)
      → IsCodec c
      → check_platform_health x ≡ ok tt
      → All (λ r. check_health_check_result r ≡ ok tt) x.checks
      → health_from_dict (get (health_to_dict x)) ≡ ok x
  unfolding health_to_dict health_from_dict
  health_from_dict-health_to_dict x laws checked results =
      rw
        (
          status_back F x.status,
          each_back result_to_dict result_from_dict x.checks (results_back x.checks laws results),
          laws.read_back x.timestamp,
          checked,
        )
        refl

  unfoldable pub info_to_dict : PlatformInfo → Document F
  info_to_dict x = dict (
      ("version", string x.version)
      ∷ ("git_commit", string x.git_commit)
      ∷ ("build_time", string (c.isoformat x.build_time))
      ∷ ("python_version", string x.python_version)
      ∷ [])

  unfoldable pub info_from_dict : Mapping F → Result (PlatformInfo)
  info_from_dict d = do
    version ← at to_string d "version"
    git_commit ← at to_string d "git_commit"
    build_time ← at (to_datetime c) d "build_time"
    python_version ← at to_string d "python_version"
    construct check_platform_info (record {
      version = version;
      git_commit = git_commit;
      build_time = build_time;
      python_version = python_version;
    })

  -- Checked information is read back from its dict.
  pub info_from_dict-info_to_dict :
      (x : PlatformInfo)
      → IsCodec c
      → check_platform_info x ≡ ok tt
      → info_from_dict (get (info_to_dict x)) ≡ ok x
  unfolding info_to_dict info_from_dict
  info_from_dict-info_to_dict x laws checked = rw (laws.read_back x.build_time, checked) refl

  unfoldable pub context_to_dict : RuntimeContext → Document F
  context_to_dict x = dict (
      ("platform_info", object (info_to_dict x.platform_info))
      ∷ ("environment", string x.environment)
      ∷ ("startup_time", string (c.isoformat x.startup_time))
      ∷ [])

  unfoldable pub context_from_dict : Mapping F → Result (RuntimeContext)
  context_from_dict d = do
    platform_info ← at to_object d "platform_info" >>= info_from_dict
    environment ← at to_string d "environment"
    startup_time ← at (to_datetime c) d "startup_time"
    construct check_runtime_context (record {
      platform_info = platform_info;
      environment = environment;
      startup_time = startup_time;
    })

  -- A checked context of checked information is read back from its dict.
  pub context_from_dict-context_to_dict :
      (x : RuntimeContext)
      → IsCodec c
      → check_runtime_context x ≡ ok tt
      → check_platform_info x.platform_info ≡ ok tt
      → context_from_dict (get (context_to_dict x)) ≡ ok x
  unfolding context_to_dict context_from_dict
  context_from_dict-context_to_dict x laws checked info =
      rw
        (
          info_from_dict-info_to_dict x.platform_info laws info,
          laws.read_back x.startup_time,
          checked,
        )
        refl

  unfoldable pub deployment_to_dict : DeploymentInfo → Document F
  deployment_to_dict x = dict (
      ("version", string x.version)
      ∷ ("git_commit", string x.git_commit)
      ∷ ("build_time", string (c.isoformat x.build_time))
      ∷ ("deployment_environment", string x.deployment_environment)
      ∷ ("deployment_id", string x.deployment_id)
      ∷ ("rollback_target", of_string? x.rollback_target)
      ∷ [])

  unfoldable pub deployment_from_dict : Mapping F → Result (DeploymentInfo)
  deployment_from_dict d = do
    version ← at to_string d "version"
    git_commit ← at to_string d "git_commit"
    build_time ← at (to_datetime c) d "build_time"
    deployment_environment ← at to_string d "deployment_environment"
    deployment_id ← at to_string d "deployment_id"
    rollback_target ← to_string? (item_or_null d "rollback_target")
    construct check_deployment_info (record {
      version = version;
      git_commit = git_commit;
      build_time = build_time;
      deployment_environment = deployment_environment;
      deployment_id = deployment_id;
      rollback_target = rollback_target;
    })

  -- A checked deployment is read back from its dict.
  pub deployment_from_dict-deployment_to_dict :
      (x : DeploymentInfo)
      → IsCodec c
      → check_deployment_info x ≡ ok tt
      → deployment_from_dict (get (deployment_to_dict x)) ≡ ok x
  unfolding deployment_to_dict deployment_from_dict
  deployment_from_dict-deployment_to_dict x laws checked =
      rw (laws.read_back x.build_time, target_back F x.rollback_target, checked) refl

  -- `deployment_info.to_dict() if deployment_info is not None else None`
  abbrev of_deployment : Option DeploymentInfo → Json F
  of_deployment none = null
  of_deployment (some d) = object (deployment_to_dict d)

  abbrev pub IsCheckedDeployment : Option DeploymentInfo → Type 0
  IsCheckedDeployment none = Unit
  IsCheckedDeployment (some d) = check_deployment_info d ≡ ok tt

  deployment_back :
      (o : Option DeploymentInfo)
      → IsCodec c
      → IsCheckedDeployment o
      → (to_object? (of_deployment o) >>= optional deployment_from_dict) ≡ ok o
  deployment_back none laws h = refl
  deployment_back (some d) laws h = rw (deployment_from_dict-deployment_to_dict d laws h) refl

  unfoldable pub report_to_dict : DiagnosticReport → Document F
  report_to_dict x = dict (
      ("runtime_context", object (context_to_dict x.runtime_context))
      ∷ ("health", object (health_to_dict x.health))
      ∷ ("deployment_info", of_deployment x.deployment_info)
      ∷ ("generated_at", string (c.isoformat x.generated_at))
      ∷ [])

  unfoldable pub report_from_dict : Mapping F → Result (DiagnosticReport)
  report_from_dict d = do
    runtime_context ← at to_object d "runtime_context" >>= context_from_dict
    health ← at to_object d "health" >>= health_from_dict
    deployment_info ←
        to_object? (item_or_null d "deployment_info") >>= optional deployment_from_dict
    generated_at ← at (to_datetime c) d "generated_at"
    construct check_diagnostic_report (record {
      runtime_context = runtime_context;
      health = health;
      deployment_info = deployment_info;
      generated_at = generated_at;
    })

  -- A checked report, all parts of which are checked, is read back from its dict.
  pub report_from_dict-report_to_dict :
      (x : DiagnosticReport)
      → IsCodec c
      → check_diagnostic_report x ≡ ok tt
      → check_platform_info x.runtime_context.platform_info ≡ ok tt
      → check_runtime_context x.runtime_context ≡ ok tt
      → All (λ r. check_health_check_result r ≡ ok tt) x.health.checks
      → check_platform_health x.health ≡ ok tt
      → IsCheckedDeployment x.deployment_info
      → report_from_dict (get (report_to_dict x)) ≡ ok x
  unfolding report_to_dict report_from_dict
  report_from_dict-report_to_dict x laws checked info context results health deployment =
      rw
        (
          context_from_dict-context_to_dict x.runtime_context laws context info,
          health_from_dict-health_to_dict x.health laws health results,
          deployment_back x.deployment_info laws deployment,
          laws.read_back x.generated_at,
          checked,
        )
        refl
