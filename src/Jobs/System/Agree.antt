-- ===== src/Jobs/System/Agree.antt =====
-- src/jobs.rs: the tasks and the job map agree, and each step takes each job along its life.
use gha_indie_worker_rs.Prelude.{◌≡◌, refl, sym, ap, ◌∙◌, inl, inr, Option, none, some, Bool-cases}
use gha_indie_worker_rs.Text.{Text, text_eq}
use gha_indie_worker_rs.Text.Laws.{text_eq_sound}
use gha_indie_worker_rs.Types.{BuildStatus, BuildJobRecord, queued, running, succeeded, failed}
use gha_indie_worker_rs.State.{Jobs}
use gha_indie_worker_rs.Jobs.Map.{lookup}
use gha_indie_worker_rs.Jobs.System.{
  Phase, waiting, locking, starting, executing, cleaning, leaving, concluding, finished, Tasks,
  phase_of, set_phase,
}
use gha_indie_worker_rs.Jobs.System.Store.{modified}
use gha_indie_worker_rs.Jobs.System.Tasks.{phase_of-set_phase}
use gha_indie_worker_rs.Jobs.System.Lifecycle.{
  status_of, only_active, active_status, Lifecycle, unchanged, lookup-modified,
}

-- The status that the job of a task has, where the task has not ended.
abbrev pub phase_status : Option Phase → Option BuildStatus
phase_status none = none
phase_status (some waiting) = some queued
phase_status (some locking) = some queued
phase_status (some (starting _)) = some queued
phase_status (some (executing _)) = some running
phase_status (some (cleaning _)) = some running
phase_status (some (leaving _)) = some running
phase_status (some (concluding _)) = some running
phase_status (some finished) = none

-- The tasks that have not ended are those of the jobs that are queued or running.
abbrev pub Agree : Tasks → Jobs → Type 0
Agree tasks jobs = (id : Text) → phase_status (phase_of id tasks) ≡ active_status (lookup id jobs)

-- A job of each id, before and after.
abbrev pub Lives : Jobs → Jobs → Type 0
Lives jobs jobs' =
    (id : Text) → Lifecycle (status_of (lookup id jobs)) (status_of (lookup id jobs'))

only_active-inv : (a b : BuildStatus) → only_active a ≡ some b → a ≡ b
only_active-inv queued b h = cc
only_active-inv running b h = cc
only_active-inv succeeded b h = cc
only_active-inv failed b h = cc

active_status-eq-some :
    (found : Option BuildJobRecord) (status : BuildStatus)
    → active_status found ≡ some status
    → (job : BuildJobRecord) × (found ≡ some job) × (job.status ≡ status)
active_status-eq-some none status h = cc
active_status-eq-some (some job) status h = (job, refl, only_active-inv job.status status h)

-- The job of a task that has not ended is retained, with the status of the task's phase.
pub job_of_task :
    (tasks : Tasks) (jobs : Jobs) (id : Text) (p : Phase) (status : BuildStatus)
    → Agree tasks jobs
    → phase_of id tasks ≡ some p
    → phase_status (some p) ≡ some status
    → (job : BuildJobRecord) × (lookup id jobs ≡ some job) × (job.status ≡ status)
job_of_task tasks jobs id p status agree e h =
    active_status-eq-some (lookup id jobs) status (sym (agree id) ∙ ap phase_status e ∙ h)

-- A task that goes on to a phase of the same status.
pub Agree-set_phase :
    (tasks : Tasks) (jobs : Jobs) (id : Text) (old new : Phase)
    → Agree tasks jobs
    → phase_of id tasks ≡ some old
    → phase_status (some new) ≡ phase_status (some old)
    → Agree (set_phase id new tasks) jobs
Agree-set_phase tasks jobs id old new agree e h j = elim (Bool-cases (text_eq id j)) [
  | inl hit ↦
      rw (phase_of-set_phase id j old new tasks e, hit)
        (h
          ∙ sym (ap phase_status e)
          ∙ agree id
          ∙ ap (λ k. active_status (lookup k jobs)) (text_eq_sound id j hit))
  | inr miss ↦ rw (phase_of-set_phase id j old new tasks e, miss) (agree j)
]

module _ (tasks : Tasks) (jobs : Jobs) (id : Text) (old new : Phase)
    (mutate : BuildJobRecord → BuildJobRecord) (before after : BuildStatus)
    (agree : Agree tasks jobs) (e : phase_of id tasks ≡ some old)
    (was : phase_status (some old) ≡ some before)
    (becomes : (job : BuildJobRecord) → (mutate job).status ≡ after) where
  -- A task that goes on and updates its job.
  pub Agree-modified :
      phase_status (some new) ≡ only_active after
      → Agree (set_phase id new tasks) (modified id mutate jobs)
  Agree-modified h j =
      let (job, found, _) = job_of_task tasks jobs id old before agree e was in
      elim (Bool-cases (text_eq id j)) [
        | inl hit ↦
            rw
              (
                phase_of-set_phase id j old new tasks e,
                lookup-modified id j mutate job jobs found,
                hit,
              )
              (h ∙ sym (ap only_active (becomes job)))
        | inr miss ↦
            rw
              (
                phase_of-set_phase id j old new tasks e,
                lookup-modified id j mutate job jobs found,
                miss,
              )
              (agree j)
      ]

  -- No job appears by that.
  pub absent-modified :
      (j : Text) → lookup j jobs ≡ none → lookup j (modified id mutate jobs) ≡ none
  absent-modified j absent =
      let (job, found, _) = job_of_task tasks jobs id old before agree e was in
      elim (Bool-cases (text_eq id j)) [
        | inl hit ↦
            let both : some job ≡ none =
              sym found ∙ ap (λ k. lookup k jobs) (text_eq_sound id j hit) ∙ absent in
            absurd (cc)
        | inr miss ↦ rw (lookup-modified id j mutate job jobs found, miss) absent
      ]

  pub Lives-modified : Lifecycle (some before) (some after) → Lives jobs (modified id mutate jobs)
  Lives-modified life j =
      let (job, found, status) = job_of_task tasks jobs id old before agree e was in
      elim (Bool-cases (text_eq id j)) [
        | inl hit ↦
            rw
              (
                lookup-modified id j mutate job jobs found,
                hit,
                ← text_eq_sound id j hit,
                found,
                status,
                becomes job,
              )
              life
        | inr miss ↦
            rw (lookup-modified id j mutate job jobs found, miss)
              (unchanged (status_of (lookup j jobs)))
      ]
