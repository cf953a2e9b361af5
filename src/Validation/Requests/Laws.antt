-- ===== src/Validation/Requests/Laws.antt =====
-- src/validation.rs: what a request that is accepted may ask for.
use gha_indie_worker_rs.Prelude.{
  ◌≡◌, refl, ◌≢◌, Bool, true, false, not, ◌&&◌, ◌||◌, some, any, is_empty, is_some, unwrap_or,
  Bool-cases, inl, inr, Result, ok, err, >>=-eq-ok, >>-eq-ok, reject, reject-eq-ok, ok_or-eq-ok,
  if◌then◌else◌,
}
use gha_indie_worker_rs.Text.{Text, text, text_eq, trim, starts_with, contains}
use gha_indie_worker_rs.Message.{Message}
use gha_indie_worker_rs.Types.{BuildRequest, DeployRequest}
use gha_indie_worker_rs.Config.{Config}
use gha_indie_worker_rs.Profiles.{find_profile}
use gha_indie_worker_rs.Validation.Fields.{
  clean_optional, validate_build_args, validate_no_whitespace,
}
use gha_indie_worker_rs.Validation.Paths.{validate_relative_path}
use gha_indie_worker_rs.Validation.Fields.Laws.{
  ensure_allowed_prefix-eq-ok, validate_namespace-eq-ok, IsAllowedImage,
  validate_image-IsAllowedImage,
}
use gha_indie_worker_rs.Validation.Fields.{validate_repo_url}
use gha_indie_worker_rs.Validation.Requests.{
  checked, on_some, is_deploy_kind, is_job_kind, validate_schema_version, validate_deploy,
  request_job_kind, run_profile, validate_source, validate_profile_job, validate_image_job,
  validate_inputs, validate_executor, validate_build_request,
}

err_not_ok : {A : Type 0} {m : Message} {a : A} → ◌≢◌ {A = Result A Message} (err m) (ok a)
err_not_ok k = cc

checked-eq-ok : {A : Type 0} (m : Result A Message) → checked m ≡ ok tt → (a : A) × (m ≡ ok a)
checked-eq-ok (ok a) h = (a, refl)
checked-eq-ok (err e) h = cc

-- The stages of `validate_build_request`, all passed.
record AllPassed (config : Config) (request : BuildRequest) (is_profile : Bool) : Type 0 where
  source : validate_source config request ≡ ok tt
  job :
      (if is_profile
        then validate_profile_job config request
        else validate_image_job config request)
      ≡ ok tt
  inputs : validate_inputs request is_profile ≡ ok tt
  push : (unwrap_or request.push false && not config.push_enabled) ≡ false
  executor : validate_executor config request.executor is_profile ≡ ok tt
  deploy : (if is_profile then ok tt else validate_deploy config request.deploy) ≡ ok tt

passed :
    (config : Config) (request : BuildRequest)
    → validate_build_request config request ≡ ok tt
    → AllPassed config request (text_eq (request_job_kind request) run_profile)
unfolding validate_build_request
passed config request h =
    let (_, source, h1) = >>-eq-ok _ _ h in
    let (_, job, h2) = >>-eq-ok _ _ h1 in
    let (_, inputs, h3) = >>-eq-ok _ _ h2 in
    let (_, push, h4) = >>-eq-ok _ _ h3 in
    let (_, executor, h5) = >>-eq-ok _ _ h4 in
    let (_, id, h6) = >>-eq-ok _ _ h5 in
    record {
      source = source;
      job = job;
      inputs = inputs;
      push = reject-eq-ok _ _ push;
      executor = executor;
      deploy = h6;
    }

allowed_source :
    (config : Config) (request : BuildRequest)
    → validate_source config request ≡ ok tt
    → any (λ prefix. starts_with request.repo_url prefix) config.allowed_repo_prefixes ≡ true
unfolding validate_source
allowed_source config request h =
    let (_, _, h1) =
      >>-eq-ok (validate_schema_version (clean_optional request.schema_version)) _ h in
    let (_, _, h2) = >>-eq-ok (reject (not (is_job_kind (request_job_kind request))) _) _ h1 in
    let (_, _, h3) = >>-eq-ok (validate_repo_url request.repo_url) _ h2 in
    ensure_allowed_prefix-eq-ok _ request.repo_url config.allowed_repo_prefixes _ h3

-- A profile job: the profile is known and allowed, the repository is one for profiles, and nothing
-- else is asked for.
pub record IsProfileJob (config : Config) (request : BuildRequest) : Type 0 where
  pub profile : Text
  pub named : clean_optional request.profile ≡ some profile
  pub known : is_some (find_profile profile) ≡ true
  pub allowed : contains config.allowed_profiles profile ≡ true
  pub repo :
      any (λ prefix. starts_with request.repo_url prefix) config.allowed_profile_repo_prefixes
      ≡ true
  pub no_image : is_empty (trim request.image) ≡ true
  pub no_push : unwrap_or request.push false ≡ false
  pub no_deploy : is_some request.deploy ≡ false
  pub no_build_args : is_some request.build_args ≡ false
  pub no_dockerfile : is_some request.dockerfile ≡ false

or4-false :
    (a b c d : Bool)
    → (a || b || c || d) ≡ false
    → (a ≡ false) × (b ≡ false) × (c ≡ false) × (d ≡ false)
or4-false false false false false h = (refl, refl, refl, refl)
or4-false true b c d h = cc
or4-false false true c d h = cc
or4-false false false true d h = cc
or4-false false false false true h = cc

nor-false : (a b : Bool) → (not a || not b) ≡ false → (a ≡ true) × (b ≡ true)
nor-false true true h = (refl, refl)
nor-false true false h = cc
nor-false false b h = cc

not-false : (b : Bool) → not b ≡ false → b ≡ true
not-false true h = refl
not-false false h = cc

validate_profile_job-IsProfileJob :
    (config : Config) (request : BuildRequest)
    → validate_profile_job config request ≡ ok tt
    → IsProfileJob config request
unfolding validate_profile_job
validate_profile_job-IsProfileJob config request h =
    let (_, repo, h1) = >>-eq-ok _ _ h in
    let (profile, named, h2) = >>=-eq-ok _ _ h1 in
    let (_, known, h3) = >>-eq-ok _ _ h2 in
    let (_, image, h4) = >>-eq-ok _ _ h3 in
    let (found, allowed) =
      nor-false (is_some (find_profile profile)) (contains config.allowed_profiles profile)
        (reject-eq-ok _ _ known) in
    let (push, deploy, args, dockerfile) =
      or4-false (unwrap_or request.push false) (is_some request.deploy) (is_some request.build_args)
        (is_some request.dockerfile) (reject-eq-ok _ _ h4) in
    record {
      profile = profile;
      named = ok_or-eq-ok _ _ named;
      known = found;
      allowed = allowed;
      repo =
          ensure_allowed_prefix-eq-ok _ request.repo_url config.allowed_profile_repo_prefixes _
            repo;
      no_image = not-false (is_empty (trim request.image)) (reject-eq-ok _ _ image);
      no_push = push;
      no_deploy = deploy;
      no_build_args = args;
      no_dockerfile = dockerfile;
    }

-- A request that is accepted has an allowed repository, and asks for a push only where pushes are
-- enabled.
pub validate_build_request-source :
    (config : Config) (request : BuildRequest)
    → validate_build_request config request ≡ ok tt
    → (any (λ prefix. starts_with request.repo_url prefix) config.allowed_repo_prefixes ≡ true)
      × ((unwrap_or request.push false && not config.push_enabled) ≡ false)
validate_build_request-source config request h =
    let all = passed config request h in (allowed_source config request all.source, all.push)

-- A request of kind run-profile that is accepted names a profile that exists and is allowed, comes
-- from a repository for profiles, and has no image, push, deployment, build arguments or Dockerfile.
pub validate_build_request-IsProfileJob :
    (config : Config) (request : BuildRequest)
    → validate_build_request config request ≡ ok tt
    → text_eq (request_job_kind request) run_profile ≡ true
    → IsProfileJob config request
validate_build_request-IsProfileJob config request h kind =
    validate_profile_job-IsProfileJob config request (rw kind at (passed config request h).job)

validate_image_job-IsAllowedImage :
    (config : Config) (request : BuildRequest)
    → validate_image_job config request ≡ ok tt
    → IsAllowedImage config request.image (unwrap_or request.push false)
unfolding validate_image_job
validate_image_job-IsAllowedImage config request h =
    let (_, _, image) = >>-eq-ok _ _ h in
    let (ecr, valid) = checked-eq-ok _ image in
    (validate_image-IsAllowedImage config request.image (unwrap_or request.push false) ecr valid).0

-- A request of another kind that is accepted has an allowed image.
pub validate_build_request-IsAllowedImage :
    (config : Config) (request : BuildRequest)
    → validate_build_request config request ≡ ok tt
    → text_eq (request_job_kind request) run_profile ≡ false
    → IsAllowedImage config request.image (unwrap_or request.push false)
validate_build_request-IsAllowedImage config request h kind =
    validate_image_job-IsAllowedImage config request (rw kind at (passed config request h).job)

validate_deploy-enabled :
    (config : Config) (deploy : DeployRequest)
    → text_eq deploy.kind (text "none") ≡ false
    → validate_deploy config (some deploy) ≡ ok tt
    → (config.deploy_enabled ≡ true)
      × (contains config.allowed_namespaces (unwrap_or deploy.namespace (text "default")) ≡ true)
unfolding validate_deploy
validate_deploy-enabled config deploy kind h =
    elim (Bool-cases (not (is_deploy_kind deploy.kind))) [
      | inl e ↦ absurd (err_not_ok (rw e at h))
      | inr a ↦ elim (Bool-cases (not config.deploy_enabled)) [
        | inl e ↦ absurd (err_not_ok (rw (a, kind, e) at h))
        | inr b ↦
            let (_, _, h1) = >>-eq-ok _ _ (rw (a, kind, b) at h) in
            let (_, namespace, _) = >>-eq-ok _ _ h1 in
            (not-false config.deploy_enabled b, validate_namespace-eq-ok config _ namespace)
      ]
    ]

-- A request that is accepted, of another kind than run-profile, deploys only where deployments are
-- enabled and to a namespace that is allowed.
pub validate_build_request-deploy :
    (config : Config) (request : BuildRequest) (deploy : DeployRequest)
    → validate_build_request config request ≡ ok tt
    → text_eq (request_job_kind request) run_profile ≡ false
    → request.deploy ≡ some deploy
    → text_eq deploy.kind (text "none") ≡ false
    → (config.deploy_enabled ≡ true)
      × (contains config.allowed_namespaces (unwrap_or deploy.namespace (text "default")) ≡ true)
validate_build_request-deploy config request deploy h kind e k =
    validate_deploy-enabled config deploy k (rw (kind, e) at (passed config request h).deploy)

-- The deployment of an accepted request of another kind is validated.
pub validate_build_request-validate_deploy :
    (config : Config) (request : BuildRequest)
    → validate_build_request config request ≡ ok tt
    → text_eq (request_job_kind request) run_profile ≡ false
    → validate_deploy config request.deploy ≡ ok tt
validate_build_request-validate_deploy config request h kind =
    rw kind at (passed config request h).deploy

-- Its build arguments are validated too.
pub validate_build_request-validate_build_args :
    (config : Config) (request : BuildRequest)
    → validate_build_request config request ≡ ok tt
    → text_eq (request_job_kind request) run_profile ≡ false
    → validate_build_args request.build_args ≡ ok tt
unfolding validate_inputs
validate_build_request-validate_build_args config request h kind =
    let inputs : validate_inputs request false ≡ ok tt =
      rw kind at (passed config request h).inputs in
    let (_, _, h1) =
      >>-eq-ok
        (on_some (clean_optional request.git_ref)
          (λ git_ref. validate_no_whitespace (text "gitRef") git_ref 180))
        _ inputs in
    let (_, _, h2) =
      >>-eq-ok
        (checked
          (validate_relative_path (text "contextDir") (unwrap_or request.context_dir (text "."))))
        _ h1 in
    let (_, _, args) =
      >>-eq-ok
        (checked (
          validate_relative_path (text "dockerfile")
            (unwrap_or request.dockerfile (text "Dockerfile"))))
        _ h2 in
    args
