-- ===== src/Ops/Gate.antt =====
-- When `build_runtime_context` (src/ops/startup.py) lets the platform start.
use suky_tradin_bot.Common.Text.{is_nil, is_blank, is_blank-prefix}
use suky_tradin_bot.Common.Time.{Datetime, require_utc, require_utc_any}
use suky_tradin_bot.Common.Errors.{Result, Error, err, ok, ◌>>=◌, ◌>>=◌, raise_if, construct}
use suky_tradin_bot.Base.{
  String, Bool, List, ◌≤◌, ◌≡◌, true, ◌∷◌, ◌==◌, ◌≤◌, Option, ◌≡◌, ◌∷◌, ◌==◌, is_some, ◌&&◌,
  is_empty, length, Bool-cases, ◌&&◌, false, arith, inl, [], sym, inr, refl, ◌∙◌, ◌∙◌, map, All,
  not, if◌then◌else◌, ◌++◌, ◌++◌, ap,
}
use suky_tradin_bot.Ops.Health.{
  HealthCheck, HealthCheckResult, run_check, run_checks, check_health_check_result, classify_status,
  healthy_count, same_status, HealthStatus, evaluate_health, require_healthy, check_platform_health,
  result_of, PlatformHealth,
}
use suky_tradin_bot.Ops.Startup.{
  Startup, build_runtime_context, validate_runtime, validation_of, missing_secrets,
  require_valid_runtime, require_health, version_or, check_validation_result,
}
use suky_tradin_bot.Ops.Platform.{check_platform_info, check_runtime_context, RuntimeContext}

abbrev pub is_ok : {A : Type 0} → Result A → Bool
is_ok (ok a) = true
is_ok (err e) = false

-- Every required secret is set.
unfoldable pub all_set : (String → Option String) → List String → Bool
all_set source [] = true
all_set source (name ∷ rest) = is_some (source name) && all_set source rest

-- The probe answered, and with true.
unfoldable pub passes : Result Bool → Bool
passes (err e) = false
passes (ok answer) = answer

unfoldable pub all_pass : List HealthCheck → Bool
all_pass [] = true
all_pass (c ∷ rest) = passes c.probe && all_pass rest

unfoldable every_healthy : List HealthCheckResult → Bool
every_healthy [] = true
every_healthy (r ∷ rest) = r.is_healthy && every_healthy rest

validation_of_answers :
    (errors : List String)
    → validation_of errors ≡ ok (record { valid = is_empty errors; errors = errors })
unfolding check_validation_result
validation_of_answers [] = refl
validation_of_answers (e ∷ rest) = refl

is_empty-missing_secrets :
    (source : String → Option String) (names : List String)
    → is_empty (missing_secrets source names) ≡ all_set source names
unfolding missing_secrets all_set
is_empty-missing_secrets source [] = refl
is_empty-missing_secrets source (name ∷ rest) = elim (Bool-cases (is_some (source name))) [
  | inl s ↦ rw s (is_empty-missing_secrets source rest)
  | inr s ↦ rw s refl
]

healthy_count-length : (rs : List HealthCheckResult) → healthy_count rs ≤ length rs
unfolding healthy_count
healthy_count-length [] = omega arith
healthy_count-length (r ∷ rest) = ground (arith, healthy_count-length rest)

all_counted : (rs : List HealthCheckResult) → (healthy_count rs == length rs) ≡ every_healthy rs
unfolding healthy_count every_healthy
all_counted [] = refl
all_counted (r ∷ rest) = ground (arith, healthy_count-length rest, all_counted rest)

-- The status of at least one result is `HEALTHY` exactly if all of them are.
classify_status_answers :
    (r : HealthCheckResult) (rest : List HealthCheckResult)
    → (s : HealthStatus) × (classify_status (r ∷ rest) ≡ ok s)
      × (same_status s HealthStatus.healthy ≡ every_healthy (r ∷ rest))
unfolding classify_status
classify_status_answers r rest = elim (Bool-cases (healthy_count (r ∷ rest) == length (r ∷ rest))) [
  | inl a ↦ (HealthStatus.healthy, rw (classify_status, a) refl, sym a ∙ all_counted (r ∷ rest))
  | inr a ↦ elim (Bool-cases (healthy_count (r ∷ rest) == 0)) [
    | inl b ↦
        (HealthStatus.unhealthy, rw (classify_status, a, b) refl, sym a ∙ all_counted (r ∷ rest))
    | inr b ↦
        (HealthStatus.degraded, rw (classify_status, a, b) refl, sym a ∙ all_counted (r ∷ rest))
  ]
]

same_status_refl : (s : HealthStatus) → same_status s s ≡ true
same_status_refl HealthStatus.healthy = refl
same_status_refl HealthStatus.degraded = refl
same_status_refl HealthStatus.unhealthy = refl

is_ok-raise_if : (b : Bool) (e : Error) → is_ok (raise_if (not b) e) ≡ b
is_ok-raise_if true e = refl
is_ok-raise_if false e = refl

is_ok-require_healthy :
    (h : PlatformHealth) → is_ok (require_healthy h) ≡ same_status h.status HealthStatus.healthy
unfolding require_healthy
is_ok-require_healthy h = is_ok-raise_if (same_status h.status HealthStatus.healthy) _

module _ (print : Error → String) (now : Datetime) (utc : require_utc now "" ≡ ok tt) where
  result_of-checked :
      (name : String) (p : Result Bool)
      → is_nil name ≡ false
      → check_health_check_result (result_of print now name p) ≡ ok tt
  unfolding check_health_check_result result_of is_blank
  result_of-checked name (err e) h =
      rw
        (require_utc_any now "" "checked_at" utc, h, is_blank-prefix "probe raised " (print e) refl)
        refl
  result_of-checked name (ok true) h = rw (require_utc_any now "" "checked_at" utc, h) refl
  result_of-checked name (ok false) h = rw (require_utc_any now "" "checked_at" utc, h) refl

  abbrev results : List HealthCheck → List HealthCheckResult
  results = map λ c. result_of print now c.name c.probe

  run_checks_answers :
      (cs : List HealthCheck)
      → All (λ c. is_nil c.name ≡ false) cs
      → run_checks print now cs ≡ ok (results cs)
  unfolding run_checks run_check
  run_checks_answers [] h = refl
  run_checks_answers (c ∷ rest) (named, h) =
      rw (run_check, result_of-checked c.name c.probe named, run_checks_answers rest h) refl

  result_of-passes :
      (name : String) (p : Result Bool) → (result_of print now name p).is_healthy ≡ passes p
  unfolding passes result_of
  result_of-passes name (err e) = refl
  result_of-passes name (ok answer) = refl

  every_healthy-results : (cs : List HealthCheck) → every_healthy (results cs) ≡ all_pass cs
  unfolding every_healthy all_pass passes result_of
  every_healthy-results [] = refl
  every_healthy-results (c ∷ rest) =
      λ i. result_of-passes c.name c.probe i && every_healthy-results rest i

  -- The health of at least one named check is determined, and it is required to be healthy exactly
  -- where every check passes.
  evaluate_health_answers :
      (c : HealthCheck) (rest : List HealthCheck) (version git_commit : String)
      → All (λ c. is_nil c.name ≡ false) (c ∷ rest)
      → is_nil version ≡ false
      → is_nil git_commit ≡ false
      → is_ok (evaluate_health print now (c ∷ rest) version git_commit >>= require_healthy)
        ≡ all_pass (c ∷ rest)
  unfolding evaluate_health require_healthy check_platform_health
  evaluate_health_answers c rest version git_commit named v g =
      let (s, classified, same) =
        classify_status_answers (result_of print now c.name c.probe) (results rest) in
      rw
        (
          evaluate_health,
          run_checks_answers (c ∷ rest) named,
          classified,
          require_utc_any now "" "timestamp" utc,
          v,
          g,
          same_status_refl s,
        )
        (is_ok-require_healthy (record {
          status = s;
          checks = results (c ∷ rest);
          timestamp = now;
          version = version;
          git_commit = git_commit;
        })
          ∙ same
          ∙ every_healthy-results (c ∷ rest))

-- A start with everything but the environment, the secrets and the checks in order.
abbrev pub IsPrepared : Startup → Type 0
IsPrepared s =
    (require_utc s.now "" ≡ ok tt)
    × (is_nil s.version ≡ false)
    × (is_nil s.git_commit ≡ false)
    × (is_nil (version_or s.python_version s.interpreter_version) ≡ false)
    × All (λ c. is_nil c.name ≡ false) s.checks

require_health_answers : (s : Startup) → IsPrepared s → is_ok (require_health s) ≡ all_pass s.checks
unfolding require_health all_pass
require_health_answers s (utc, v, g, p, named) = go s.checks named
  where
    go :
        (cs : List HealthCheck)
        → All (λ c. is_nil c.name ≡ false) cs
        → is_ok (
            if is_empty cs
            then ok tt
            else (evaluate_health s.print s.now cs s.version s.git_commit >>= require_healthy))
          ≡ all_pass cs
    go [] h = refl
    go (c ∷ rest) h = evaluate_health_answers s.print s.now utc c rest s.version s.git_commit h v g

is_ok-gate :
    {A : Type 0} (b : Bool) (e : Error) (r : Result A)
    → is_ok (raise_if (not b) e >>= λ _. r) ≡ (b && is_ok r)
is_ok-gate true e r = refl
is_ok-gate false e r = refl

is_ok-then :
    {A : Type 0} (c : Result (Unit {0})) (r : Result A)
    → is_ok (c >>= λ _. r) ≡ (is_ok c && is_ok r)
is_ok-then (ok u) r = refl
is_ok-then (err e) r = refl

is_empty-errors :
    (environment : String) (source : String → Option String) (names : List String)
    → is_empty (
        (if is_nil environment then "environment must not be empty" ∷ [] else [])
        ++ missing_secrets source names)
      ≡ (not (is_nil environment) && all_set source names)
is_empty-errors environment source names = elim (Bool-cases (is_nil environment)) [
  | inl n ↦ rw n refl
  | inr n ↦ rw n (is_empty-missing_secrets source names)
]

regroup : (n a p : Bool) → ((n && a) && (p && n)) ≡ ((n && a) && p)
regroup n a p = ground arith

-- The two constructions at the end.
abbrev context_of : Startup → Result RuntimeContext
context_of s =
    construct check_platform_info (record {
      version = s.version;
      git_commit = s.git_commit;
      build_time = s.now;
      python_version = version_or s.python_version s.interpreter_version;
    })
    >>= λ platform_info. construct check_runtime_context (record {
      platform_info = platform_info;
      environment = s.environment;
      startup_time = s.now;
    })

context_of_answers :
    (s : Startup) → IsPrepared s → is_ok (context_of s) ≡ not (is_nil s.environment)
unfolding check_platform_info check_runtime_context
context_of_answers s (utc, v, g, p, named) =
    rw
      (
        check_platform_info,
        require_utc_any s.now "" "build_time" utc,
        v,
        g,
        p,
        require_utc_any s.now "" "startup_time" utc,
      )
      (elim (Bool-cases (is_nil s.environment)) [ inl n ↦ rw n refl | inr n ↦ rw n refl ])

-- With a start time in UTC, and a version, a commit, an interpreter version and names of the checks
-- that are not empty, the platform starts exactly if the environment is named, every required secret
-- is set, and every probe answers with true: a probe that raises keeps it from starting.
pub build_runtime_context_answers :
    (s : Startup)
    → IsPrepared s
    → is_ok (build_runtime_context s) ≡ (
        (not (is_nil s.environment) && all_set s.secret_source s.required_secrets)
        && all_pass s.checks)
unfolding build_runtime_context validate_runtime require_valid_runtime
build_runtime_context_answers s (utc, v, g, p, named) =
    let errors =
      (if is_nil s.environment then "environment must not be empty" ∷ [] else [])
      ++ missing_secrets s.secret_source s.required_secrets in
    rw (build_runtime_context, validation_of_answers errors)
      (is_ok-gate (is_empty errors) _ _
        ∙ ap (λ b. is_empty errors && b)
            (is_ok-then (require_health s) (context_of s) ∙ (λ i.
              require_health_answers s (utc, v, g, p, named) i
              && context_of_answers s (utc, v, g, p, named) i))
        ∙ ap (λ b. b && (all_pass s.checks && not (is_nil s.environment)))
            (is_empty-errors s.environment s.secret_source s.required_secrets)
        ∙ regroup (not (is_nil s.environment)) (all_set s.secret_source s.required_secrets)
            (all_pass s.checks))
