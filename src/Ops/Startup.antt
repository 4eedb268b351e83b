-- ===== src/Ops/Startup.antt =====
-- `validate_runtime` (src/ops/validation.py) and `build_runtime_context` (startup.py). The source of
-- the secrets, the checks, the clock and the interpreter's version are parameters.
use suky_tradin_bot.Base.{
  Bool, not, ◌&&◌, String, ◌<>◌, List, [], ◌∷◌, ◌++◌, Option, none, some, is_some, is_empty,
  if◌then◌else◌,
}
use suky_tradin_bot.Common.Text.{is_nil, join}
use suky_tradin_bot.Common.Time.{Datetime}
use suky_tradin_bot.Common.Errors.{
  Error, Result, ok, construct, ◌>>=◌, ◌>>◌, reject_if, raise_if, runtime_validation,
}
use suky_tradin_bot.Ops.Health.{HealthCheck, evaluate_health, require_healthy}
use suky_tradin_bot.Ops.Platform.{RuntimeContext, check_platform_info, check_runtime_context}

pub record ValidationResult : Type 0 where
  pub valid : Bool
  pub errors : List String

-- `ValidationResult.__post_init__`
unfoldable pub check_validation_result : ValidationResult → Result (Unit {0})
check_validation_result r = do
  reject_if (r.valid && not (is_empty r.errors)) "valid=True but errors is non-empty"
  reject_if (not r.valid && is_empty r.errors) "valid=False but errors is empty"

-- `ValidationResult(valid=not errors, errors=tuple(errors))`
abbrev pub validation_of : List String → Result ValidationResult
validation_of errors =
    construct check_validation_result (record { valid = is_empty errors; errors = errors })

-- The errors of the secrets that the source does not have.
unfoldable pub missing_secrets : (String → Option String) → List String → List String
missing_secrets source [] = []
missing_secrets source (name ∷ rest) =
    let others = missing_secrets source rest in
    if is_some (source name) then others else ("missing required secret: " <> name) ∷ others

-- `validate_runtime`
unfoldable pub validate_runtime :
    String → List String → (String → Option String) → Result ValidationResult
validate_runtime environment required_secrets source = validation_of (
    (if is_nil environment then "environment must not be empty" ∷ [] else [])
    ++ missing_secrets source required_secrets)

-- `require_valid_runtime`
unfoldable pub require_valid_runtime : ValidationResult → Result (Unit {0})
require_valid_runtime r = raise_if (not r.valid) (runtime_validation (join "; " r.errors))

-- What `build_runtime_context` is given.
pub record Startup : Type 0 where
  pub version : String
  pub git_commit : String
  pub environment : String
  pub required_secrets : List String
  pub secret_source : String → Option String
  pub checks : List HealthCheck
  pub python_version : Option String
  pub interpreter_version : String
  pub print : Error → String
  pub now : Datetime

-- `python_version or platform_module.python_version()`
unfoldable pub version_or : Option String → String → String
version_or none default = default
version_or (some v) default = if is_nil v then default else v

-- `if checks: require_healthy(evaluate_health(...))`
unfoldable pub require_health : Startup → Result (Unit {0})
require_health s =
    if is_empty s.checks
    then ok tt
    else (evaluate_health s.print s.now s.checks s.version s.git_commit >>= require_healthy)

-- `build_runtime_context`
unfoldable pub build_runtime_context : Startup → Result RuntimeContext
build_runtime_context s = do
  result ← validate_runtime s.environment s.required_secrets s.secret_source
  require_valid_runtime result
  require_health s
  platform_info ← construct check_platform_info (record {
    version = s.version;
    git_commit = s.git_commit;
    build_time = s.now;
    python_version = version_or s.python_version s.interpreter_version;
  })
  construct check_runtime_context
      (record { platform_info = platform_info; environment = s.environment; startup_time = s.now })
