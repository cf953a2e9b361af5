-- ===== src/Jobs/Execute.antt =====
-- src/jobs.rs: the clone of the repository, the paths in it, and `execute_profile`.
pub mod Build
pub mod Profile
use gha_indie_worker_rs.Prelude.{
  ℕ, Bool, true, false, ◌&&◌, Option, none, some, List, [], ◌∷◌, ◌++◌, unwrap_or, is_empty, map,
  Result, ok, err, ok_or, reject, if◌then◌else◌, not,
}
use gha_indie_worker_rs.Text.{Text, text, text_eq}
use gha_indie_worker_rs.Message.{Message, message, lit, shown, debug}
use gha_indie_worker_rs.Types.{BuildRequest, BuildJobRecord}
use gha_indie_worker_rs.Config.{Config}
use gha_indie_worker_rs.State.{service_name}
use gha_indie_worker_rs.Validation.Fields.{clean_optional}
use gha_indie_worker_rs.Validation.Paths.{
  Component, root_dir, cur_dir, parent_dir, normal, components, push_path, validate_relative_path,
}
use gha_indie_worker_rs.Profiles.{ProfileSpec, find_profile}
use gha_indie_worker_rs.Profiles.Steps.{ProfileStep}
use gha_indie_worker_rs.Exec.Host.{
  Action, made_dir, logged, resolved, Host, Exec, ◌>>=◌, ◌>>◌, pure, lift, act, ask, map_err,
}
use gha_indie_worker_rs.Exec.Run.{run_logged_command}

unfoldable pub component_eq : Component → Component → Bool
component_eq root_dir root_dir = true
component_eq cur_dir cur_dir = true
component_eq parent_dir parent_dir = true
component_eq (normal a) (normal b) = text_eq a b
component_eq _ _ = false

-- `Path::starts_with`: whole components.
unfoldable pub components_start_with : List Component → List Component → Bool
unfolding component_eq
components_start_with path [] = true
components_start_with [] (c ∷ prefix) = false
components_start_with (d ∷ path) (c ∷ prefix) =
    component_eq d c && components_start_with path prefix

abbrev pub path_starts_with : Text → Text → Bool
path_starts_with path prefix = components_start_with (components path) (components prefix)

-- `==` on paths
unfoldable pub path_eq : Text → Text → Bool
unfolding components_start_with
path_eq a b = path_starts_with a b && path_starts_with b a

abbrev pub job_dir_of : Config → BuildJobRecord → Text
job_dir_of config job = push_path config.work_root job.id

abbrev pub repo_dir_of : Config → BuildJobRecord → Text
repo_dir_of config job = push_path (job_dir_of config job) (text "repo")

-- The arguments of the clone.
abbrev pub branch_args : Option Text → List Text
branch_args none = []
branch_args (some git_ref) = text "--branch" ∷ git_ref ∷ []

unfoldable pub clone_args : BuildRequest → (repo_dir : Text) → List Text
clone_args request repo_dir =
    text "-c"
    ∷ text "protocol.ext.allow=never"
    ∷ text "-c"
    ∷ text "protocol.file.allow=never"
    ∷ text "-c"
    ∷ text "protocol.local.allow=never"
    ∷ text "clone"
    ∷ text "--depth"
    ∷ text "1"
    ∷ text "--no-tags"
    ∷ (branch_args (clean_optional request.git_ref) ++ text "--" ∷ request.repo_url ∷ repo_dir ∷ [])

abbrev pub in_workspace : Text → Text
in_workspace step_cwd =
    if path_eq step_cwd (text ".") then text "/workspace" else text "/workspace/" ++ step_cwd

-- The arguments of the container of a profile's step.
unfoldable pub runner_args : Config → ProfileStep → (context_path container_cwd : Text) → List Text
runner_args config step context_path container_cwd =
    text "-n"
    ∷ config.containerd_namespace
    ∷ text "run"
    ∷ text "--rm"
    ∷ text "--pull=missing"
    ∷ (text "--cpus=" ++ config.profile_cpus)
    ∷ (text "--memory=" ++ config.profile_memory)
    ∷ (text "--pids-limit=" ++ config.profile_pids_limit)
    ∷ text "--security-opt=no-new-privileges"
    ∷ text "--cap-drop=ALL"
    ∷ text "--env=CI=true"
    ∷ text "--mount"
    ∷ (text "type=bind,src=" ++ (context_path ++ text ",dst=/workspace"))
    ∷ text "--workdir"
    ∷ container_cwd
    ∷ step.image
    ∷ text "/bin/bash"
    ∷ text "-lc"
    ∷ step.script
    ∷ []

module _ (host : Host) where
  -- The result is canonical and stays under the canonical root.
  unfoldable pub resolve_repo_path : (repo_dir name value : Text) → Exec Text
  resolve_repo_path repo_dir name value = do
    clean ← lift (validate_relative_path name value)
    let candidate = push_path repo_dir clean
    repo_root ← ask (resolved repo_dir) (λ before.
        map_err (λ (error : Message). lit "failed to resolve repository root: " ∷ error)
          (host.canonicalize before repo_dir))
    target ← ask (resolved candidate) (λ before.
        map_err
          (λ (error : Message).
            shown name
            ∷ lit " "
            ∷ debug value
            ∷ lit " could not be resolved inside the repository: "
            ∷ error)
          (host.canonicalize before candidate))
    lift (
        reject (not (path_starts_with target repo_root))
          (shown name ∷ lit " must stay inside the repository root" ∷ []))
    pure target

  unfoldable pub clone_repository :
      Config → BuildRequest → (job_dir repo_dir : Text) → Exec (Unit {0})
  clone_repository config request job_dir repo_dir =
      run_logged_command host config job_dir config.git_bin (clone_args request repo_dir)

  -- The loop over the steps.
  unfoldable pub run_steps :
      Config → ProfileSpec → (context_path : Text) → List ProfileStep → Exec (Unit {0})
  run_steps config profile context_path [] = pure tt
  run_steps config profile context_path (step ∷ steps) = do
    step_cwd ← lift (validate_relative_path (text "profile step subdirectory") step.subdirectory)
    act (
        logged (
          text "\nprofile="
          ++ (profile.name
              ++ (text " step=" ++ (step.name ++ (text " runner=" ++ (step.image ++ text "\n")))))))
    run_logged_command host config context_path config.nerdctl_bin
        (runner_args config step context_path (in_workspace step_cwd))
    run_steps config profile context_path steps

  -- The artifacts, where the profile has any.
  unfoldable pub pack_artifacts :
      Config → ProfileSpec → BuildJobRecord → (context_path : Text) → Exec (Unit {0})
  pack_artifacts config profile job context_path =
      if is_empty profile.artifact_paths then pure tt else do
        run_logged_command host config context_path config.tar_bin (
            text "-czf"
            ∷ push_path (job_dir_of config job) (text "artifacts.tar.gz")
            ∷ text "--"
            ∷ profile.artifact_paths)
        act (logged (text "artifacts: /builds/" ++ (job.id ++ text "/artifacts\n")))

  abbrev pub make_job_dir : Config → BuildJobRecord → Exec (Unit {0})
  make_job_dir config job = ask (made_dir (job_dir_of config job)) (λ before.
      map_err (λ (error : Message). lit "failed to create job dir: " ∷ error)
        (host.create_dir_all before (job_dir_of config job)))

  unfoldable pub execute_profile : Config → BuildJobRecord → Exec (Unit {0})
  execute_profile config job = do
    let request = job.request
    profile_name ← lift (
        ok_or (clean_optional request.profile)
          (message "validated profile request lost its profile"))
    profile ← lift (
        ok_or (find_profile profile_name)
          (lit "profile " ∷ debug profile_name ∷ lit " is not installed" ∷ []))
    make_job_dir config job
    act (
        logged (
          service_name
          ++ (text " starting profile job="
              ++ (job.id
                  ++ (text " repo="
                      ++ (request.repo_url
                          ++ (text " profile=" ++ (profile.name ++ text "\n"))))))))
    clone_repository config request (job_dir_of config job) (repo_dir_of config job)
    context_path ←
        resolve_repo_path (repo_dir_of config job) (text "contextDir")
          (unwrap_or request.context_dir (text "."))
    run_steps config profile context_path profile.steps
    pack_artifacts config profile job context_path
    act (logged (service_name ++ (text " completed profile job=" ++ (job.id ++ text "\n"))))
