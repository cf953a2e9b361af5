-- ===== src/Jobs/Execute/Build/Planned.antt =====
-- src/jobs.rs: what `execute_build` may do for a job, and the paths that it resolves.
use gha_indie_worker_rs.Prelude.{
  ◌≡◌, refl, ◌⊎◌, Bool, true, false, Option, none, some, List, [], ◌∷◌, ◌++◌, unwrap_or, ok,
  reject-eq-ok, not,
}
use gha_indie_worker_rs.Text.{Text, text, text_eq}
use gha_indie_worker_rs.Text.Decimal.{decimal}
use gha_indie_worker_rs.Types.{BuildJobRecord, DeployRequest}
use gha_indie_worker_rs.Config.{Config}
use gha_indie_worker_rs.Ecr.{EcrImage, ecr_image}
use gha_indie_worker_rs.Validation.Fields.{clean_optional}
use gha_indie_worker_rs.Validation.Fields.Laws.{IsAllowedImage}
use gha_indie_worker_rs.Validation.Paths.{push_path, validate_relative_path}
use gha_indie_worker_rs.Validation.Rollout.{validate_rollout_resource}
use gha_indie_worker_rs.Exec.Host.{
  Command, Action, made_dir, logged, resolved, ran, requested_token, Host,
}
use gha_indie_worker_rs.Exec.Run.{command_of}
use gha_indie_worker_rs.Exec.Keeps.{
  Keeps, Any, Keeps->>=, Keeps-lift, Keeps-ask, Keeps-pure, Keeps-command, map_err-eq-ok,
}
use gha_indie_worker_rs.Jobs.Execute.{
  path_starts_with, job_dir_of, repo_dir_of, branch_args, clone_args, resolve_repo_path,
  clone_repository,
}
use gha_indie_worker_rs.Jobs.Execute.Build.{build_arg_args}

-- What `resolve_repo_path` returns for a value: the value is an accepted relative path, the host gives
-- the path as the canonical form of that path in the repository, and it stays under what the host
-- gives as the canonical form of the repository itself.
pub record IsResolved (host : Host) (repo_dir name value path : Text) : Type 0 where
  pub clean : Text
  pub relative : validate_relative_path name value ≡ ok clean
  pub before_root : List Action
  pub before_path : List Action
  pub root : Text
  pub root_is : host.canonicalize before_root repo_dir ≡ ok root
  pub path_is : host.canonicalize before_path (push_path repo_dir clean) ≡ ok path
  pub inside : path_starts_with path root ≡ true

-- The flags that ask `git clone` for a branch.
abbrev pub asked_branch : Option Text → List Text
asked_branch none = []
asked_branch (some branch) = text "--branch" ∷ branch ∷ []

-- The command that clones the repository of a job.
abbrev pub clone_command : Host → Config → BuildJobRecord → Command
clone_command host config job =
    command_of host config (job_dir_of config job) config.git_bin
      (text "-c"
        ∷ text "protocol.ext.allow=never"
        ∷ text "-c"
        ∷ text "protocol.file.allow=never"
        ∷ text "-c"
        ∷ text "protocol.local.allow=never"
        ∷ text "clone"
        ∷ text "--depth"
        ∷ text "1"
        ∷ text "--no-tags"
        ∷ (asked_branch (clean_optional job.request.git_ref)
            ++ text "--" ∷ job.request.repo_url ∷ repo_dir_of config job ∷ []))
      none

branch_args-asked : (git_ref : Option Text) → branch_args git_ref ≡ asked_branch git_ref
branch_args-asked none = refl
branch_args-asked (some branch) = refl

-- Where `P` allows that command, the clone keeps to it.
pub Keeps-clone_repository :
    (host : Host) (config : Config) (job : BuildJobRecord) (P : Action → Type 0)
    → ((t : Text) → P (logged t))
    → P (ran (clone_command host config job))
    → Keeps P Any
        (clone_repository host config job.request (job_dir_of config job) (repo_dir_of config job))
unfolding clone_repository clone_args
Keeps-clone_repository host config job P logs clones =
    Keeps-command P host logs config (job_dir_of config job) config.git_bin _ _ _
      (rw (branch_args-asked (clean_optional job.request.git_ref)) clones)

-- The flag of `kubectl apply` for the kind of a deployment.
abbrev pub IsFlagOf : (kind flag : Text) → Type 0
IsFlagOf kind flag =
    ((text_eq kind (text "kustomize") ≡ true) × (flag ≡ text "-k"))
    ⊎ ((text_eq kind (text "manifest") ≡ true) × (flag ≡ text "-f"))

-- What `execute_build` may do for a job.
pub data IsPlanned (host : Host) (config : Config) (job : BuildJobRecord) : Action → Type 0 where
  makes : IsPlanned host config job (made_dir (job_dir_of config job))
  logs : (t : Text) → IsPlanned host config job (logged t)
  resolves : (path : Text) → IsPlanned host config job (resolved path)
  clones : IsPlanned host config job (ran (clone_command host config job))
  builds :
      (context dockerfile : Text)
      → IsResolved host
          (repo_dir_of config job)
          (text "contextDir")
          (unwrap_or job.request.context_dir (text "."))
          context
      → IsResolved host
          (repo_dir_of config job)
          (text "dockerfile")
          (unwrap_or job.request.dockerfile (text "Dockerfile"))
          dockerfile
      → IsPlanned host config job (
          ran (
            command_of host config
              (repo_dir_of config job)
              config.nerdctl_bin
              (text "-n"
                ∷ config.containerd_namespace
                ∷ text "build"
                ∷ text "-f"
                ∷ dockerfile
                ∷ text "-t"
                ∷ job.request.image
                ∷ (build_arg_args (unwrap_or job.request.build_args []) ++ context ∷ []))
              none))
  asks_for_token :
      (ecr : EcrImage)
      → unwrap_or job.request.push false ≡ true
      → config.ecr_login_enabled ≡ true
      → ecr_image job.request.image ≡ some ecr
      → IsPlanned host config job (requested_token ecr.registry)
  logs_in :
      (ecr : EcrImage) (before : List Action) (password : Text)
      → unwrap_or job.request.push false ≡ true
      → config.ecr_login_enabled ≡ true
      → ecr_image job.request.image ≡ some ecr
      → host.ecr_password before ecr.registry ≡ ok password
      → IsPlanned host config job (
          ran (
            command_of host config
              (repo_dir_of config job)
              config.nerdctl_bin
              (text "-n"
                ∷ config.containerd_namespace
                ∷ text "login"
                ∷ text "--username"
                ∷ text "AWS"
                ∷ text "--password-stdin"
                ∷ ecr.registry
                ∷ [])
              (some (password ++ text "\n"))))
  pushes :
      unwrap_or job.request.push false ≡ true
      → IsAllowedImage config job.request.image true
      → IsPlanned host config job (
          ran (
            command_of host config
              (repo_dir_of config job)
              config.nerdctl_bin
              (text "-n" ∷ config.containerd_namespace ∷ text "push" ∷ job.request.image ∷ [])
              none))
  applies :
      (deploy : DeployRequest) (flag path : Text)
      → job.request.deploy ≡ some deploy
      → IsFlagOf deploy.kind flag
      → IsResolved host (repo_dir_of config job) (text "deploy.path") deploy.path path
      → IsPlanned host config job (
          ran (
            command_of host config
              (repo_dir_of config job)
              config.kubectl_bin
              (text "-n"
                ∷ unwrap_or deploy.namespace (text "default")
                ∷ text "apply"
                ∷ flag
                ∷ path
                ∷ [])
              none))
  waits :
      (deploy : DeployRequest) (rollout resource : Text)
      → job.request.deploy ≡ some deploy
      → text_eq deploy.kind (text "none") ≡ false
      → deploy.rollout ≡ some rollout
      → validate_rollout_resource rollout ≡ ok resource
      → IsPlanned host config job (
          ran (
            command_of host config
              (repo_dir_of config job)
              config.kubectl_bin
              (text "-n"
                ∷ unwrap_or deploy.namespace (text "default")
                ∷ text "rollout"
                ∷ text "status"
                ∷ resource
                ∷ (text "--timeout="
                    ++ (decimal (unwrap_or deploy.rollout_timeout_seconds 300) ++ text "s"))
                ∷ [])
              none))

not-false : (b : Bool) → not b ≡ false → b ≡ true
not-false true h = refl
not-false false h = cc

module _ (host : Host) (P : Action → Type 0)
    (resolves_all : (path : Text) → P (resolved path)) where
  pub Keeps-resolve_repo_path :
      (repo_dir name value : Text)
      → Keeps P (IsResolved host repo_dir name value) (resolve_repo_path host repo_dir name value)
  unfolding resolve_repo_path
  Keeps-resolve_repo_path repo_dir name value =
      Keeps->>= P (λ clean. validate_relative_path name value ≡ ok clean)
        (IsResolved host repo_dir name value) _ _ (Keeps-lift P _ _ (λ clean c. c))
        λ clean c.
          Keeps->>= P
            (λ root. (before : List Action) × (host.canonicalize before repo_dir ≡ ok root))
            (IsResolved host repo_dir name value) _ _
            (Keeps-ask P _ _ _ (resolves_all repo_dir)
              (λ before root e. (before, map_err-eq-ok _ _ e)))
            λ root (before_root, e).
              Keeps->>= P
                (λ path.
                  (before : List Action) × (host.canonicalize before (push_path repo_dir clean)
                    ≡ ok path))
                (IsResolved host repo_dir name value) _ _
                (Keeps-ask P _ _ _ (resolves_all _)
                  (λ before path f. (before, map_err-eq-ok _ _ f)))
                λ target (before_path, f).
                  Keeps->>= P (λ _. path_starts_with target root ≡ true)
                    (IsResolved host repo_dir name value) _ _
                    (Keeps-lift P _ _ (λ _ h. not-false _ (reject-eq-ok _ _ h)))
                    λ _ inside. Keeps-pure P (IsResolved host repo_dir name value) target (record {
                      clean = clean;
                      relative = c;
                      before_root = before_root;
                      before_path = before_path;
                      root = root;
                      root_is = e;
                      path_is = f;
                      inside = inside;
                    })
