-- ===== src/Jobs/Execute/Build/Laws.antt =====
-- src/jobs.rs: what `execute_build` runs for a request that was validated.
use gha_indie_worker_rs.Prelude.{
  ◌≡◌, refl, true, false, Option, none, some, unwrap_or, Bool-cases, inl, inr, arith, Result, ok,
  List, sym, ◌∙◌, ok_or-eq-ok, err,
}
use gha_indie_worker_rs.Text.{Text, text, text_eq}
use gha_indie_worker_rs.Types.{BuildJobRecord, DeployRequest}
use gha_indie_worker_rs.Config.{Config}
use gha_indie_worker_rs.Ecr.{EcrImage, ecr_image}
use gha_indie_worker_rs.Validation.Fields.Laws.{IsAllowedImage, validate_image-IsAllowedImage}
use gha_indie_worker_rs.Validation.Requests.{
  validate_build_request, request_job_kind, run_profile, is_deploy_kind, validate_deploy,
}
use gha_indie_worker_rs.Validation.Requests.Laws.{validate_build_request-validate_deploy}
use gha_indie_worker_rs.Validation.Rollout.{validate_rollout_resource}
use gha_indie_worker_rs.Exec.Host.{Action, Host, World, Halt}
use gha_indie_worker_rs.Exec.Keeps.{
  Keeps, Any, IsOutcome, Keeps->>=, Keeps->>, Keeps-act, Keeps-lift, Keeps-ask, Keeps-if,
  Keeps-command, Keeps-pure,
}
use gha_indie_worker_rs.Jobs.Execute.{repo_dir_of}
use gha_indie_worker_rs.Jobs.Execute.Build.{
  nerdctl_build_args, login_to_ecr, log_in, counting_login, push_image, wait_for_rollout,
  apply_manifest, run_deploy, execute_build,
}
use gha_indie_worker_rs.Jobs.Execute.Build.Planned.{
  IsResolved, IsPlanned, Keeps-clone_repository, makes, logs, resolves, clones, builds,
  asks_for_token, logs_in, pushes, applies, waits, Keeps-resolve_repo_path,
}

is_deploy_kind-of :
    (config : Config) (deploy : DeployRequest)
    → validate_deploy config (some deploy) ≡ ok tt
    → is_deploy_kind deploy.kind ≡ true
unfolding validate_deploy
is_deploy_kind-of config deploy h = elim (Bool-cases (is_deploy_kind deploy.kind)) [
  | inl known ↦ known
  | inr unknown ↦ absurd (ground (arith, rw unknown at h))
]

module _ (host : Host) (config : Config) (job : BuildJobRecord) where
  abbrev Planned : Action → Type 0
  Planned = IsPlanned host config job

  abbrev repo_dir : Text
  repo_dir = repo_dir_of config job

  Keeps-login_to_ecr :
      (ecr : EcrImage)
      → unwrap_or job.request.push false ≡ true
      → config.ecr_login_enabled ≡ true
      → ecr_image job.request.image ≡ some ecr
      → Keeps Planned Any (login_to_ecr host config repo_dir ecr)
  unfolding login_to_ecr
  Keeps-login_to_ecr ecr push enabled found =
      Keeps->> Planned Any _ _ (Keeps-act Planned _ (logs _)) (
        Keeps->>= Planned
          (λ password.
            (before : List Action) × (host.ecr_password before ecr.registry ≡ ok password))
          Any _ _
          (Keeps-ask Planned _ _ _ (asks_for_token ecr push enabled found)
            (λ before password e. (before, e)))
          λ password (before, e).
            Keeps-command Planned host logs config repo_dir config.nerdctl_bin _ _ _
              (logs_in ecr before password push enabled found e))

  IsOutcome-counting_login :
      (o : World × Result (Unit {0}) Halt)
      → IsOutcome Planned Any o
      → IsOutcome Planned Any (counting_login o)
  unfolding counting_login
  IsOutcome-counting_login (w, ok a) h = h
  IsOutcome-counting_login (w, err (Halt.failure e)) h = h
  IsOutcome-counting_login (w, err Halt.panicked) h = h

  Keeps-log_in :
      (found : Option EcrImage)
      → unwrap_or job.request.push false ≡ true
      → found ≡ ecr_image job.request.image
      → Keeps Planned Any (log_in host config repo_dir found)
  unfolding log_in
  Keeps-log_in found push same =
      Keeps-if Planned Any config.ecr_login_enabled _ _
        (λ enabled.
          Keeps->>= Planned (λ ecr. found ≡ some ecr) Any _ _
            (Keeps-lift Planned _ _ (λ ecr e. ok_or-eq-ok _ _ e))
            λ ecr e. record {
              outcome = λ w h.
                  IsOutcome-counting_login (login_to_ecr host config repo_dir ecr w)
                    ((Keeps-login_to_ecr ecr push enabled (sym same ∙ e)).outcome w h);
            })
        (λ _. Keeps-pure Planned Any tt tt)

  Keeps-push_image : Keeps Planned Any (push_image host config job.request repo_dir)
  unfolding push_image
  Keeps-push_image =
      Keeps-if Planned Any (unwrap_or job.request.push false) _ _
        (λ push.
          Keeps->>= Planned
            (λ found.
              IsAllowedImage config job.request.image true × (found ≡ ecr_image job.request.image))
            Any _ _
            (Keeps-lift Planned _ _
              (λ found e. validate_image-IsAllowedImage config job.request.image true found e))
            λ found (allowed, same). Keeps->> Planned Any _ _ (Keeps-log_in found push same) (
              Keeps-command Planned host logs config repo_dir config.nerdctl_bin _ _ _
                (pushes push allowed)))
        (λ _. Keeps-pure Planned Any tt tt)

  module _ (deploy : DeployRequest) (e : job.request.deploy ≡ some deploy)
      (live : text_eq deploy.kind (text "none") ≡ false) where
    Keeps-wait_for_rollout :
        (rollout : Option Text)
        → deploy.rollout ≡ rollout
        → Keeps Planned Any (
            wait_for_rollout host config repo_dir
              (unwrap_or deploy.namespace (text "default"))
              (unwrap_or deploy.rollout_timeout_seconds 300)
              rollout)
    unfolding wait_for_rollout
    Keeps-wait_for_rollout none asked = Keeps-pure Planned Any tt tt
    Keeps-wait_for_rollout (some rollout) asked =
        Keeps->>= Planned (λ resource. validate_rollout_resource rollout ≡ ok resource) Any _ _
          (Keeps-lift Planned _ _ (λ resource h. h))
          λ resource h.
            Keeps-command Planned host logs config repo_dir config.kubectl_bin _ _ _
              (waits deploy rollout resource e live asked h)

    Keeps-apply_manifest :
        (path : Text)
        → is_deploy_kind deploy.kind ≡ true
        → IsResolved host repo_dir (text "deploy.path") deploy.path path
        → Keeps Planned Any (
            apply_manifest host config repo_dir
              (unwrap_or deploy.namespace (text "default"))
              deploy.kind
              path)
    unfolding apply_manifest
    Keeps-apply_manifest path known under =
        Keeps-if Planned Any (text_eq deploy.kind (text "kustomize")) _ _
          (λ kustomize.
            Keeps-command Planned host logs config repo_dir config.kubectl_bin _ _ _
              (applies deploy _ path e (inl (kustomize, refl)) under))
          λ other.
            Keeps-if Planned Any (text_eq deploy.kind (text "manifest")) _ _
              (λ manifest.
                Keeps-command Planned host logs config repo_dir config.kubectl_bin _ _ _
                  (applies deploy _ path e (inr (manifest, refl)) under))
              λ neither. absurd (ground (arith, known, other, neither, live))

  Keeps-run_deploy :
      (found : Option DeployRequest)
      → job.request.deploy ≡ found
      → ((deploy : DeployRequest) → found ≡ some deploy → is_deploy_kind deploy.kind ≡ true)
      → Keeps Planned Any (run_deploy host config repo_dir found)
  unfolding run_deploy
  Keeps-run_deploy none e known = Keeps-pure Planned Any tt tt
  Keeps-run_deploy (some deploy) e known =
      Keeps-if Planned Any (text_eq deploy.kind (text "none")) _ _
        (λ _. Keeps-pure Planned Any tt tt)
        λ live.
          Keeps->>= Planned (IsResolved host repo_dir (text "deploy.path") deploy.path) Any _ _
            (Keeps-resolve_repo_path host Planned resolves repo_dir _ _)
            λ path under.
              Keeps->> Planned Any _ _
                (Keeps-apply_manifest deploy e live path (known deploy refl) under)
                (Keeps-wait_for_rollout deploy e live deploy.rollout refl)

  Keeps-execute_build :
      ((deploy : DeployRequest)
        → job.request.deploy ≡ some deploy
        → is_deploy_kind deploy.kind ≡ true)
      → Keeps Planned Any (execute_build host config job)
  unfolding execute_build nerdctl_build_args
  Keeps-execute_build known =
      Keeps->> Planned Any _ _ (Keeps-ask Planned Any _ _ makes (λ _ _ _. tt)) (
        Keeps->> Planned Any _ _ (Keeps-act Planned _ (logs _)) (
          Keeps->> Planned Any _ _ (Keeps-clone_repository host config job Planned logs clones) (
            Keeps->>= Planned
              (IsResolved host repo_dir (text "contextDir")
                (unwrap_or job.request.context_dir (text ".")))
              Any _ _ (Keeps-resolve_repo_path host Planned resolves repo_dir _ _)
              λ context under.
                Keeps->>= Planned
                  (IsResolved host repo_dir (text "dockerfile")
                    (unwrap_or job.request.dockerfile (text "Dockerfile")))
                  Any _ _ (Keeps-resolve_repo_path host Planned resolves repo_dir _ _)
                  λ dockerfile within.
                    Keeps->> Planned Any _ _
                      (Keeps-command Planned host logs config repo_dir config.nerdctl_bin _ _ _
                        (builds context dockerfile under within))
                      (Keeps->> Planned Any _ _ Keeps-push_image (
                        Keeps->> Planned Any _ _ (Keeps-run_deploy job.request.deploy refl known)
                          (Keeps-act Planned _ (logs _)))))))

-- For a request of another kind than run-profile that was validated, whatever the host answers,
-- `execute_build` does not panic, and each command that it runs is one of these, with exactly the
-- arguments that `IsPlanned` writes out: the clone; the build, with the canonical forms of the
-- request's context and Dockerfile; where a push is requested and logins are enabled, the login at
-- the registry of the image, with the password that the host gave for it; where a push is requested,
-- the push of an allowed image; where a deployment is requested, the apply of the canonical form of
-- its path, with -k for a kustomization and -f for a manifest; and, where its kind is not "none", the
-- wait for the rollout resource that it asks for. The canonical forms are the host's, of accepted
-- relative paths in the repository, and lie under the canonical root of the repository.
pub execute_build-IsPlanned :
    (host : Host) (config : Config) (job : BuildJobRecord)
    → validate_build_request config job.request ≡ ok tt
    → text_eq (request_job_kind job.request) run_profile ≡ false
    → Keeps (IsPlanned host config job) Any (execute_build host config job)
execute_build-IsPlanned host config job valid kind =
    let deploy_valid = validate_build_request-validate_deploy config job.request valid kind in
    Keeps-execute_build host config job
      (λ deploy e. is_deploy_kind-of config deploy (rw e at deploy_valid))
