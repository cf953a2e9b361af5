-- ===== src/Jobs/Execute/Profile.antt =====
-- src/jobs.rs: what `execute_profile` runs.
use gha_indie_worker_rs.Prelude.{
  ◌≡◌, refl, ◌⊎◌, inl, inr, true, false, none, some, List, [], ◌∷◌, ◌++◌, Bool-cases, unwrap_or,
  is_empty, ok_or-eq-ok, ok,
}
use gha_indie_worker_rs.Text.{Text, text}
use gha_indie_worker_rs.Types.{BuildRequest, BuildJobRecord}
use gha_indie_worker_rs.Config.{Config}
use gha_indie_worker_rs.Validation.Fields.{clean_optional}
use gha_indie_worker_rs.Validation.Paths.{push_path, validate_relative_path}
use gha_indie_worker_rs.Profiles.{ProfileSpec, find_profile}
use gha_indie_worker_rs.Profiles.Steps.{ProfileStep}
use gha_indie_worker_rs.Exec.Host.{Action, made_dir, logged, resolved, ran, Host}
use gha_indie_worker_rs.Exec.Run.{command_of}
use gha_indie_worker_rs.Exec.Keeps.{
  Keeps, Any, Keeps->>=, Keeps->>, Keeps-act, Keeps-lift, Keeps-ask, Keeps-if, Keeps-command,
  Keeps-pure,
}
use gha_indie_worker_rs.Jobs.Execute.{
  path_eq, job_dir_of, repo_dir_of, runner_args, in_workspace, run_steps, pack_artifacts,
  execute_profile,
}
use gha_indie_worker_rs.Jobs.Execute.Build.Planned.{
  IsResolved, clone_command, Keeps-clone_repository, Keeps-resolve_repo_path,
}

abbrev pub IsStepOf : ProfileStep → List ProfileStep → Type 0
IsStepOf step [] = ⊥
IsStepOf step (s ∷ steps) = (step ≡ s) ⊎ IsStepOf step steps

-- The profile that a request names.
abbrev pub IsNamed : BuildRequest → ProfileSpec → Type 0
IsNamed request profile =
    (name : Text) × (clean_optional request.profile ≡ some name)
    × (find_profile name ≡ some profile)

-- The directory in the container for the subdirectory of a step.
abbrev pub IsWorkdir : (step_cwd workdir : Text) → Type 0
IsWorkdir step_cwd workdir =
    ((path_eq step_cwd (text ".") ≡ true) × (workdir ≡ text "/workspace"))
    ⊎ ((path_eq step_cwd (text ".") ≡ false) × (workdir ≡ text "/workspace/" ++ step_cwd))

in_workspace-IsWorkdir : (step_cwd : Text) → IsWorkdir step_cwd (in_workspace step_cwd)
in_workspace-IsWorkdir step_cwd = elim (Bool-cases (path_eq step_cwd (text "."))) [
  | inl here ↦ rw here (inl (refl, refl))
  | inr inside ↦ rw inside (inr (refl, refl))
]

-- What `execute_profile` may do for a job.
pub data IsScripted (host : Host) (config : Config) (job : BuildJobRecord) : Action → Type 0 where
  makes : IsScripted host config job (made_dir (job_dir_of config job))
  logs : (t : Text) → IsScripted host config job (logged t)
  resolves : (path : Text) → IsScripted host config job (resolved path)
  clones : IsScripted host config job (ran (clone_command host config job))
  contains_step :
      (profile : ProfileSpec) (step : ProfileStep) (context step_cwd workdir : Text)
      → IsNamed job.request profile
      → IsStepOf step profile.steps
      → IsResolved host
          (repo_dir_of config job)
          (text "contextDir")
          (unwrap_or job.request.context_dir (text "."))
          context
      → validate_relative_path (text "profile step subdirectory") step.subdirectory ≡ ok step_cwd
      → IsWorkdir step_cwd workdir
      → IsScripted host config job (
          ran (
            command_of host config context config.nerdctl_bin
              (text "-n"
                ∷ config.containerd_namespace
                ∷ text "run"
                ∷ text "--rm"
                ∷ text "--pull=missing"
                ∷ (text "--cpus=" ++ config.profile_cpus)
                ∷ (text "--memory=" ++ config.profile_memory)
                ∷ (text "--pids-limit=" ++ config.profile_pids_limit)
                ∷ text "--security-opt=no-new-privileges"
                ∷ text "--cap-drop=ALL"
                ∷ text "--env=CI=true"
                ∷ text "--mount"
                ∷ (text "type=bind,src=" ++ (context ++ text ",dst=/workspace"))
                ∷ text "--workdir"
                ∷ workdir
                ∷ step.image
                ∷ text "/bin/bash"
                ∷ text "-lc"
                ∷ step.script
                ∷ [])
              none))
  packs :
      (profile : ProfileSpec) (context : Text)
      → IsNamed job.request profile
      → IsResolved host
          (repo_dir_of config job)
          (text "contextDir")
          (unwrap_or job.request.context_dir (text "."))
          context
      → IsScripted host config job (
          ran (
            command_of host config context config.tar_bin
              (text "-czf"
                ∷ push_path (job_dir_of config job) (text "artifacts.tar.gz")
                ∷ text "--"
                ∷ profile.artifact_paths)
              none))

module _ (host : Host) (config : Config) (job : BuildJobRecord) where
  abbrev Scripted : Action → Type 0
  Scripted = IsScripted host config job

  module _ (profile : ProfileSpec) (named : IsNamed job.request profile) (context : Text)
      (under : IsResolved host
        (repo_dir_of config job)
        (text "contextDir")
        (unwrap_or job.request.context_dir (text "."))
        context) where
    Keeps-run_steps :
        (steps : List ProfileStep)
        → ((step : ProfileStep) → IsStepOf step steps → IsStepOf step profile.steps)
        → Keeps Scripted Any (run_steps host config profile context steps)
    unfolding run_steps runner_args
    Keeps-run_steps [] among = Keeps-pure Scripted Any tt tt
    Keeps-run_steps (step ∷ steps) among =
        let rest = Keeps-run_steps steps (λ s h. among s (inr h)) in
        Keeps->>= Scripted
          (λ step_cwd.
            validate_relative_path (text "profile step subdirectory") step.subdirectory
            ≡ ok step_cwd)
          Any _ _ (Keeps-lift Scripted _ _ (λ _ e. e))
          λ step_cwd e. Keeps->> Scripted Any _ _ (Keeps-act Scripted _ (logs _)) (
            Keeps->> Scripted Any _ _
              (Keeps-command Scripted host logs config context config.nerdctl_bin _ _ _ (
                contains_step profile step context step_cwd _ named (among step (inl refl)) under e
                  (in_workspace-IsWorkdir step_cwd)))
              rest)

    Keeps-pack_artifacts : Keeps Scripted Any (pack_artifacts host config profile job context)
    unfolding pack_artifacts
    Keeps-pack_artifacts =
        Keeps-if Scripted Any (is_empty profile.artifact_paths) _ _
          (λ _. Keeps-pure Scripted Any tt tt)
          λ _.
            Keeps->> Scripted Any _ _
              (Keeps-command Scripted host logs config context config.tar_bin _ _ _
                (packs profile context named under))
              (Keeps-act Scripted _ (logs _))

  -- Whatever the host answers, `execute_profile` does not panic, and each command that it runs is the
  -- clone, the container of a step of the profile that the request names, or the archive of its
  -- artifacts, with exactly the arguments that `IsScripted` writes out. The container drops all
  -- capabilities and takes no new privileges, has the configured limits, runs the step's own image and
  -- script in the step's directory, and mounts the host's canonical form of the request's context,
  -- which lies under the canonical root of the repository.
  pub execute_profile-IsScripted : Keeps Scripted Any (execute_profile host config job)
  unfolding execute_profile
  execute_profile-IsScripted =
      Keeps->>= Scripted (λ name. clean_optional job.request.profile ≡ some name) Any _ _
        (Keeps-lift Scripted _ _ (λ name e. ok_or-eq-ok _ _ e))
        λ name e.
          Keeps->>= Scripted (λ profile. find_profile name ≡ some profile) Any _ _
            (Keeps-lift Scripted _ _ (λ profile f. ok_or-eq-ok _ _ f))
            λ profile f.
              Keeps->> Scripted Any _ _ (Keeps-ask Scripted Any _ _ makes (λ _ _ _. tt)) (
                Keeps->> Scripted Any _ _ (Keeps-act Scripted _ (logs _)) (
                  Keeps->> Scripted Any _ _
                    (Keeps-clone_repository host config job Scripted logs clones)
                    (Keeps->>= Scripted
                      (IsResolved host (repo_dir_of config job) (text "contextDir")
                        (unwrap_or job.request.context_dir (text ".")))
                      Any _ _ (Keeps-resolve_repo_path host Scripted resolves _ _ _)
                      λ context under.
                        Keeps->> Scripted Any _ _
                          (Keeps-run_steps profile (name, e, f) context under profile.steps
                            (λ s h. h))
                          (Keeps->> Scripted Any _ _
                            (Keeps-pack_artifacts profile (name, e, f) context under)
                            (Keeps-act Scripted _ (logs _))))))
