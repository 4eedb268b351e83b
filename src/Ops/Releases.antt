-- ===== src/Ops/Releases.antt =====
-- Release manifests and deployments (src/ops/deployment.py), and the choice of a rollback target
-- (rollback.py). Checksums are texts, the digests of files.
use mathlib.Core.List.{reverse}
use suky_tradin_bot.Base.{
  not, String, str_eq, ◌<>◌, List, [], ◌∷◌, ◌++◌, Option, none, some, is_empty, if◌then◌else◌,
}
use suky_tradin_bot.Common.Text.{join}
use suky_tradin_bot.Common.Dict.{Dict, lookup}
use suky_tradin_bot.Common.Errors.{
  Result, ok, err, reject_if, raise_if, deployment_validation, no_rollback_target,
}
use suky_tradin_bot.Ops.Platform.{DeploymentInfo, RuntimeContext}
use suky_tradin_bot.Ops.Startup.{ValidationResult, validation_of}

pub record ReleaseManifest : Type 0 where
  pub deployment_info : DeploymentInfo
  pub artifact_checksums : Dict String

-- `ReleaseManifest.__post_init__`
unfoldable pub check_release_manifest : ReleaseManifest → Result (Unit {0})
check_release_manifest m =
    reject_if (is_empty m.artifact_checksums) "artifact_checksums must not be empty"

-- The errors of the loop over the expected checksums.
unfoldable pub checksum_errors : Dict String → Dict String → List String
checksum_errors actual [] = []
checksum_errors actual ((name, expected) ∷ rest) =
    let others = checksum_errors actual rest in
    elim (lookup name actual) [
      | none ↦ ("missing artifact: " <> name) ∷ others
      | some found ↦
          if str_eq found expected
          then others
          else ("checksum mismatch for " <> name <> ": expected " <> expected <> ", got " <> found)
            ∷ others
    ]

-- `verify_release_manifest`
unfoldable pub verify_release_manifest : ReleaseManifest → Dict String → Result ValidationResult
verify_release_manifest m actual = validation_of (checksum_errors actual m.artifact_checksums)

-- `validate_deployment`; the errors quote the texts by `repr`.
unfoldable pub validate_deployment :
    (String → String) → RuntimeContext → DeploymentInfo → Result ValidationResult
validate_deployment repr runtime deployment = validation_of (
    (if str_eq runtime.platform_info.version deployment.version
      then []
      else ("version mismatch: runtime="
          <> repr runtime.platform_info.version
          <> " deployment="
          <> repr deployment.version)
        ∷ [])
    ++ (if str_eq runtime.platform_info.git_commit deployment.git_commit
        then []
        else ("git_commit mismatch: runtime="
            <> repr runtime.platform_info.git_commit
            <> " deployment="
            <> repr deployment.git_commit)
          ∷ []))

-- `require_valid_deployment`
unfoldable pub require_valid_deployment : ValidationResult → Result (Unit {0})
require_valid_deployment r = raise_if (not r.valid) (deployment_validation (join "; " r.errors))

-- `select_rollback_target`: the loop over the reversed history keeps the last deployment that is
-- not the current one.
unfoldable pub select_reversed : List DeploymentInfo → DeploymentInfo → Option DeploymentInfo
select_reversed [] current = none
select_reversed (d ∷ rest) current =
    if not (str_eq d.deployment_id current.deployment_id)
    then some d
    else select_reversed rest current

unfoldable pub select_rollback_target : List DeploymentInfo → DeploymentInfo → Option DeploymentInfo
select_rollback_target history current = select_reversed (reverse history) current

-- `require_rollback_target`
unfoldable pub require_rollback_target : Option DeploymentInfo → Result DeploymentInfo
require_rollback_target none = err no_rollback_target
require_rollback_target (some d) = ok d
