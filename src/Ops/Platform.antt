-- ===== src/Ops/Platform.antt =====
-- `PlatformInfo`, `RuntimeContext`, `DeploymentInfo` and `DiagnosticReport` (src/ops/models.py).
use suky_tradin_bot.Base.{Bool, false, String, Option, none, some}
use suky_tradin_bot.Common.Text.{is_nil}
use suky_tradin_bot.Common.Time.{Datetime, require_utc}
use suky_tradin_bot.Common.Errors.{Result, ◌>>◌, reject_if}
use suky_tradin_bot.Ops.Health.{PlatformHealth}

pub record PlatformInfo : Type 0 where
  pub version : String
  pub git_commit : String
  pub build_time : Datetime
  pub python_version : String

-- `PlatformInfo.__post_init__`
unfoldable pub check_platform_info : PlatformInfo → Result (Unit {0})
check_platform_info p = do
  require_utc p.build_time "build_time"
  reject_if (is_nil p.version) "version must not be empty"
  reject_if (is_nil p.git_commit) "git_commit must not be empty"
  reject_if (is_nil p.python_version) "python_version must not be empty"

pub record RuntimeContext : Type 0 where
  pub platform_info : PlatformInfo
  pub environment : String
  pub startup_time : Datetime

-- `RuntimeContext.__post_init__`
unfoldable pub check_runtime_context : RuntimeContext → Result (Unit {0})
check_runtime_context r = do
  require_utc r.startup_time "startup_time"
  reject_if (is_nil r.environment) "environment must not be empty"

pub record DeploymentInfo : Type 0 where
  pub version : String
  pub git_commit : String
  pub build_time : Datetime
  pub deployment_environment : String
  pub deployment_id : String
  pub rollback_target : Option String

-- `rollback_target is not None and not rollback_target`
unfoldable pub is_given_nil : Option String → Bool
is_given_nil none = false
is_given_nil (some s) = is_nil s

-- `DeploymentInfo.__post_init__`
unfoldable pub check_deployment_info : DeploymentInfo → Result (Unit {0})
check_deployment_info d = do
  require_utc d.build_time "build_time"
  reject_if (is_nil d.version) "version must not be empty"
  reject_if (is_nil d.git_commit) "git_commit must not be empty"
  reject_if (is_nil d.deployment_environment) "deployment_environment must not be empty"
  reject_if (is_nil d.deployment_id) "deployment_id must not be empty"
  reject_if (is_given_nil d.rollback_target) "rollback_target must not be an empty string"

pub record DiagnosticReport : Type 0 where
  pub runtime_context : RuntimeContext
  pub health : PlatformHealth
  pub deployment_info : Option DeploymentInfo
  pub generated_at : Datetime

-- `DiagnosticReport.__post_init__`
unfoldable pub check_diagnostic_report : DiagnosticReport → Result (Unit {0})
check_diagnostic_report r = require_utc r.generated_at "generated_at"
