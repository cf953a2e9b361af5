-- ===== src/Validation/Requests.antt =====
-- src/validation.rs: `validate_deploy`, `validate_build_request` and `request_job_kind`.
pub mod Laws
use gha_indie_worker_rs.Prelude.{
  ℕ, Bool, true, false, not, ◌&&◌, ◌||◌, Option, none, some, List, [], ◌∷◌, is_empty, is_some,
  unwrap_or, Result, ok, err, ◌>>=◌, ◌>>◌, reject, ok_or, if◌then◌else◌,
}
use gha_indie_worker_rs.Text.{Text, text, text_eq, trim, contains}
use gha_indie_worker_rs.Message.{Message, message, lit, debug}
use gha_indie_worker_rs.Types.{BuildRequest, DeployRequest}
use gha_indie_worker_rs.Config.{Config}
use gha_indie_worker_rs.Profiles.{find_profile}
use gha_indie_worker_rs.Validation.Fields.{
  clean_optional, ensure_allowed_prefix, validate_no_whitespace, validate_repo_url, validate_image,
  validate_build_args, validate_namespace,
}
use gha_indie_worker_rs.Validation.Paths.{validate_relative_path}
use gha_indie_worker_rs.Validation.Rollout.{validate_rollout_resource}

-- A check that is made for `Some` only.
abbrev pub on_some : Option Text → (Text → Result Unit Message) → Result Unit Message
on_some none check = ok tt
on_some (some value) check = check value

-- The result of a check that is called for its error only, as `f(x)?;`.
abbrev pub checked : {A : Type 0} → Result A Message → Result Unit Message
checked (ok a) = ok tt
checked (err e) = err e

abbrev pub is_deploy_kind : Text → Bool
is_deploy_kind kind =
    text_eq kind (text "kustomize") || text_eq kind (text "manifest") || text_eq kind (text "none")

unfoldable pub validate_deploy : Config → Option DeployRequest → Result Unit Message
validate_deploy config none = ok tt
validate_deploy config (some deploy) =
    if not (is_deploy_kind deploy.kind)
    then err (message "deploy.kind must be one of: kustomize, manifest, none")
    else if text_eq deploy.kind (text "none")
    then ok tt
    else if not config.deploy_enabled
    then err (message "deploy is disabled by BUILD_SERVER_DEPLOY_ENABLED=false")
    else do
      checked (validate_relative_path (text "deploy.path") deploy.path)
      validate_namespace config (unwrap_or deploy.namespace (text "default"))
      on_some deploy.rollout (λ rollout. checked (validate_rollout_resource rollout))

unfoldable pub request_job_kind : BuildRequest → Text
request_job_kind request = unwrap_or (clean_optional request.job_kind) (text "build-image")

abbrev pub run_profile : Text
run_profile = text "run-profile"

abbrev pub is_job_kind : Text → Bool
is_job_kind kind =
    text_eq kind (text "build-image")
    || text_eq kind (text "build-and-deploy")
    || text_eq kind run_profile

unfoldable pub validate_schema_version : Option Text → Result Unit Message
validate_schema_version none = ok tt
validate_schema_version (some version) =
    reject (not (text_eq version (text "build-server.v1")))
      (message "schemaVersion must be build-server.v1")

-- The schema version, the job kind and the repository.
unfoldable pub validate_source : Config → BuildRequest → Result Unit Message
validate_source config request = do
  validate_schema_version (clean_optional request.schema_version)
  reject (not (is_job_kind (request_job_kind request)))
      (message "jobKind must be build-image, build-and-deploy, or run-profile")
  validate_repo_url request.repo_url
  ensure_allowed_prefix (text "repoUrl") request.repo_url config.allowed_repo_prefixes
      (text "BUILD_SERVER_ALLOWED_REPO_PREFIXES")

-- The branch for `run-profile`.
unfoldable pub validate_profile_job : Config → BuildRequest → Result Unit Message
validate_profile_job config request = do
  ensure_allowed_prefix (text "profile repoUrl") request.repo_url
      config.allowed_profile_repo_prefixes (text "BUILD_SERVER_ALLOWED_PROFILE_REPO_PREFIXES")
  profile ←
      ok_or (clean_optional request.profile) (message "profile is required for jobKind=run-profile")
  reject (not (is_some (find_profile profile)) || not (contains config.allowed_profiles profile))
      (lit "profile " ∷ debug profile ∷ lit " is not allowed by BUILD_SERVER_ALLOWED_PROFILES" ∷ [])
  reject (not (is_empty (trim request.image)))
      (message "image must be omitted for jobKind=run-profile")
  reject
      (unwrap_or request.push false
        || is_some request.deploy
        || is_some request.build_args
        || is_some request.dockerfile)
      (message "run-profile does not accept image, push, deploy, buildArgs, or dockerfile")

-- The branch for the other kinds.
unfoldable pub validate_image_job : Config → BuildRequest → Result Unit Message
validate_image_job config request = do
  reject (is_some request.profile) (message "profile is only valid for jobKind=run-profile")
  checked (validate_image config request.image (unwrap_or request.push false))

-- The git reference, the paths and the build arguments.
unfoldable pub validate_inputs : BuildRequest → Bool → Result Unit Message
validate_inputs request is_profile = do
  on_some (clean_optional request.git_ref)
      (λ git_ref. validate_no_whitespace (text "gitRef") git_ref 180)
  checked (validate_relative_path (text "contextDir") (unwrap_or request.context_dir (text ".")))
  if is_profile then ok tt else do
    checked (
        validate_relative_path (text "dockerfile")
          (unwrap_or request.dockerfile (text "Dockerfile")))
    validate_build_args request.build_args

-- The match on `request.executor`.
unfoldable pub validate_executor : Config → Option Text → Bool → Result Unit Message
validate_executor config none is_profile = ok tt
validate_executor config (some executor) is_profile =
    if text_eq executor (text "local")
    then ok tt
    else if text_eq executor (text "lambda")
    then (do
      reject is_profile (message "run-profile currently requires executor=local")
      reject (not config.lambda_executor_enabled)
          (message "executor \"lambda\" is disabled by BUILD_SERVER_LAMBDA_ENABLED=false"))
    else err (lit "executor " ∷ debug executor ∷ lit " must be local or lambda" ∷ [])

unfoldable pub validate_build_request : Config → BuildRequest → Result Unit Message
validate_build_request config request = do
  let is_profile = text_eq (request_job_kind request) run_profile
  validate_source config request
  if is_profile then validate_profile_job config request else validate_image_job config request
  validate_inputs request is_profile
  reject (unwrap_or request.push false && not config.push_enabled)
      (message "push is disabled by BUILD_SERVER_PUSH_ENABLED=false")
  validate_executor config request.executor is_profile
  on_some (clean_optional request.request_id)
      (λ request_id. validate_no_whitespace (text "requestId") request_id 128)
  if is_profile then ok tt else validate_deploy config request.deploy
