-- ===== src/Jobs/Execute/Build.antt =====
-- src/jobs.rs: `execute_build`, with `login_to_ecr` of src/ecr.rs. The token that Amazon ECR answers
-- with is the host's.
pub mod Planned
pub mod Laws
pub mod Redaction
use gha_indie_worker_rs.Prelude.{
  ℕ, Bool, true, false, Option, none, some, List, [], ◌∷◌, ◌++◌, unwrap_or, Result, ok, err, ok_or,
  if◌then◌else◌,
}
use gha_indie_worker_rs.Text.{Text, text, text_eq}
use gha_indie_worker_rs.Text.Decimal.{decimal}
use gha_indie_worker_rs.Message.{Message, message, lit}
use gha_indie_worker_rs.Types.{BuildRequest, BuildJobRecord, DeployRequest}
use gha_indie_worker_rs.Config.{Config}
use gha_indie_worker_rs.State.{Counters, fetch_add, service_name}
use gha_indie_worker_rs.Ecr.{EcrImage}
use gha_indie_worker_rs.Validation.Fields.{validate_image}
use gha_indie_worker_rs.Validation.Rollout.{validate_rollout_resource}
use gha_indie_worker_rs.Exec.Display.{redacted_build_args}
use gha_indie_worker_rs.Exec.Host.{
  Action, logged, requested_token, Host, World, Exec, ◌>>=◌, ◌>>◌, pure, lift, panic, act, ask,
  Halt,
}
use gha_indie_worker_rs.Exec.Run.{
  run_logged_command, run_logged_command_inner, run_logged_command_with_input,
}
use gha_indie_worker_rs.Jobs.Execute.{
  job_dir_of, repo_dir_of, make_job_dir, clone_repository, resolve_repo_path,
}

abbrev pub build_arg_args : List (Text × Text) → List Text
build_arg_args [] = []
build_arg_args ((key, value) ∷ args) =
    text "--build-arg" ∷ (key ++ b'=' ∷ value) ∷ build_arg_args args

-- The arguments of the build.
unfoldable pub nerdctl_build_args :
    Config → BuildRequest → (context_path dockerfile_path : Text) → List Text
nerdctl_build_args config request context_path dockerfile_path =
    text "-n"
    ∷ config.containerd_namespace
    ∷ text "build"
    ∷ text "-f"
    ∷ dockerfile_path
    ∷ text "-t"
    ∷ request.image
    ∷ (build_arg_args (unwrap_or request.build_args []) ++ context_path ∷ [])

abbrev pub login_args : Config → EcrImage → List Text
login_args config ecr =
    text "-n"
    ∷ config.containerd_namespace
    ∷ text "login"
    ∷ text "--username"
    ∷ text "AWS"
    ∷ text "--password-stdin"
    ∷ ecr.registry
    ∷ []

abbrev pub push_args : Config → BuildRequest → List Text
push_args config request =
    text "-n" ∷ config.containerd_namespace ∷ text "push" ∷ request.image ∷ []

abbrev pub apply_args : (namespace flag deploy_path : Text) → List Text
apply_args namespace flag deploy_path =
    text "-n" ∷ namespace ∷ text "apply" ∷ flag ∷ deploy_path ∷ []

abbrev pub rollout_args : (namespace resource : Text) → (timeout_seconds : ℕ) → List Text
rollout_args namespace resource timeout_seconds =
    text "-n"
    ∷ namespace
    ∷ text "rollout"
    ∷ text "status"
    ∷ resource
    ∷ (text "--timeout=" ++ (decimal timeout_seconds ++ text "s"))
    ∷ []

abbrev count_login : World → World
count_login w = record w {
  counters = record w.counters { ecr_logins = fetch_add w.counters.ecr_logins };
}

abbrev count_login_failure : World → World
count_login_failure w = record w {
  counters = record w.counters { ecr_login_failures = fetch_add w.counters.ecr_login_failures };
}

-- The counters after a login.
unfoldable pub counting_login : World × Result (Unit {0}) Halt → World × Result (Unit {0}) Halt
counting_login (w, ok u) = (count_login w, ok u)
counting_login (w, err halt) = (count_login_failure w, err halt)

module _ (host : Host) where
  unfoldable pub login_to_ecr : Config → (cwd : Text) → EcrImage → Exec (Unit {0})
  login_to_ecr config cwd ecr = do
    act (logged (text "requesting ECR login token for " ++ (ecr.registry ++ text "\n")))
    password ← ask (requested_token ecr.registry) (λ before. host.ecr_password before ecr.registry)
    run_logged_command_with_input host config cwd config.nerdctl_bin (login_args config ecr)
        (login_args config ecr) (password ++ text "\n")

  -- The login before a push.
  unfoldable pub log_in : Config → (repo_dir : Text) → Option EcrImage → Exec (Unit {0})
  log_in config repo_dir found =
      if config.ecr_login_enabled
      then (do
        ecr ← lift (ok_or found (message "push requires an ECR image"))
        λ w. counting_login (login_to_ecr config repo_dir ecr w))
      else pure tt

  unfoldable pub push_image : Config → BuildRequest → (repo_dir : Text) → Exec (Unit {0})
  push_image config request repo_dir =
      if unwrap_or request.push false
      then (do
        ecr ← lift (validate_image config request.image true)
        log_in config repo_dir ecr
        run_logged_command host config repo_dir config.nerdctl_bin (push_args config request))
      else pure tt

  -- The wait for a rollout, where one is asked for.
  unfoldable pub wait_for_rollout :
      Config → (repo_dir namespace : Text) → (timeout_seconds : ℕ) → Option Text → Exec (Unit {0})
  wait_for_rollout config repo_dir namespace timeout_seconds none = pure tt
  wait_for_rollout config repo_dir namespace timeout_seconds (some rollout) = do
    resource ← lift (validate_rollout_resource rollout)
    run_logged_command host config repo_dir config.kubectl_bin
        (rollout_args namespace resource timeout_seconds)

  -- `kubectl apply` with the flag of the kind.
  unfoldable pub apply_manifest :
      Config → (repo_dir namespace kind deploy_path : Text) → Exec (Unit {0})
  apply_manifest config repo_dir namespace kind deploy_path =
      if text_eq kind (text "kustomize")
      then run_logged_command host config repo_dir config.kubectl_bin
          (apply_args namespace (text "-k") deploy_path)
      else if text_eq kind (text "manifest")
      then run_logged_command host config repo_dir config.kubectl_bin
          (apply_args namespace (text "-f") deploy_path)
      else panic

  unfoldable pub run_deploy : Config → (repo_dir : Text) → Option DeployRequest → Exec (Unit {0})
  run_deploy config repo_dir none = pure tt
  run_deploy config repo_dir (some deploy) =
      if text_eq deploy.kind (text "none") then pure tt else do
        let namespace = unwrap_or deploy.namespace (text "default")
        deploy_path ← resolve_repo_path host repo_dir (text "deploy.path") deploy.path
        apply_manifest config repo_dir namespace deploy.kind deploy_path
        wait_for_rollout config repo_dir namespace (unwrap_or deploy.rollout_timeout_seconds 300)
            deploy.rollout

  unfoldable pub execute_build : Config → BuildJobRecord → Exec (Unit {0})
  execute_build config job = do
    let request = job.request
    let repo_dir = repo_dir_of config job
    make_job_dir host config job
    act (
        logged (
          service_name
          ++ (text " starting job="
              ++ (job.id
                  ++ (text " repo="
                      ++ (request.repo_url ++ (text " image=" ++ (request.image ++ text "\n"))))))))
    clone_repository host config request (job_dir_of config job) repo_dir
    context_path ←
        resolve_repo_path host repo_dir (text "contextDir")
          (unwrap_or request.context_dir (text "."))
    dockerfile_path ←
        resolve_repo_path host repo_dir (text "dockerfile")
          (unwrap_or request.dockerfile (text "Dockerfile"))
    let args = nerdctl_build_args config request context_path dockerfile_path
    run_logged_command_inner host config repo_dir config.nerdctl_bin args (redacted_build_args args)
        none
    push_image config request repo_dir
    run_deploy config repo_dir request.deploy
    act (logged (service_name ++ (text " completed job=" ++ (job.id ++ text "\n"))))
