-- ===== src/Jobs/System/Lifecycle.antt =====
-- src/jobs.rs: the life of a job, as a state machine on the status of a job id, and what pruning and
-- an update do to it.
use gha_indie_worker_rs.Prelude.{
  ℕ, ◌-◌, ◌<◌, ◌≡◌, refl, ◌⊎◌, inl, inr, true, Option, none, some, List, [], ◌∷◌, arith, ltb,
  Bool-cases, length, take, if◌then◌else◌,
}
use gha_indie_worker_rs.Text.{Text, text_eq}
use gha_indie_worker_rs.Types.{BuildStatus, BuildJobRecord, queued, running, succeeded, failed}
use gha_indie_worker_rs.State.{Jobs}
use gha_indie_worker_rs.Jobs.Map.{lookup, remove}
use gha_indie_worker_rs.Jobs.Map.Laws.{Distinct, lookup-insert, lookup-remove, Distinct-remove}
use gha_indie_worker_rs.Jobs.Store.{
  Candidate, is_active, remove_all, pruned, candidates, sort_by_key,
}
use gha_indie_worker_rs.Jobs.Store.Prune.{IsKeyed, lookup-pruned}
use gha_indie_worker_rs.Jobs.System.Store.{modified}

-- The status of a job id, where the job is retained.
abbrev pub status_of : Option BuildJobRecord → Option BuildStatus
status_of none = none
status_of (some job) = some job.status

-- The status of a job that is queued or running.
abbrev pub only_active : BuildStatus → Option BuildStatus
only_active queued = some queued
only_active running = some running
only_active succeeded = none
only_active failed = none

abbrev pub active_status : Option BuildJobRecord → Option BuildStatus
active_status none = none
active_status (some job) = only_active job.status

-- What one step may do to the status of a job id: nothing; admit a job as queued; start it, or fail
-- it before its start; end it; and forget it after its end.
pub data Lifecycle : Option BuildStatus → Option BuildStatus → Type 0 where
  unchanged : (o : Option BuildStatus) → Lifecycle o o
  admitted : Lifecycle none (some queued)
  started : Lifecycle (some queued) (some running)
  failed_early : Lifecycle (some queued) (some failed)
  succeeded_after : Lifecycle (some running) (some succeeded)
  failed_after : Lifecycle (some running) (some failed)
  forgot_success : Lifecycle (some succeeded) none
  forgot_failure : Lifecycle (some failed) none

-- How far the life of a job has come: queued, running, ended, and forgotten.
abbrev pub stage : Option BuildStatus → ℕ
stage (some queued) = 0
stage (some running) = 1
stage (some succeeded) = 2
stage (some failed) = 2
stage none = 3

-- The life has come further, or the status is the same.
abbrev pub Later : Option BuildStatus → Option BuildStatus → Type 0
Later a b = (stage a < stage b) ⊎ (a ≡ b)

pub Later-trans : (a b c : Option BuildStatus) → Later a b → Later b c → Later a c
Later-trans a b c (inl lt) (inl less) = inl (omega arith)
Later-trans a b c (inl lt) (inr e) = inl (rw (← e) lt)
Later-trans a b c (inr e) h = rw e h

-- A move takes a job that is not admitted by it on along its life.
pub Lifecycle-Later : (a b : Option BuildStatus) → Lifecycle a b → (a ≡ none → b ≡ none) → Later a b
Lifecycle-Later a b (unchanged o) h = inr refl
Lifecycle-Later a b admitted h = absurd (let e = h refl in cc)
Lifecycle-Later a b started h = inl (omega arith)
Lifecycle-Later a b failed_early h = inl (omega arith)
Lifecycle-Later a b succeeded_after h = inl (omega arith)
Lifecycle-Later a b failed_after h = inl (omega arith)
Lifecycle-Later a b forgot_success h = inl (omega arith)
Lifecycle-Later a b forgot_failure h = inl (omega arith)

lookup-remove_all-or_none :
    (id : Text) (cs : List Candidate) (jobs : Jobs)
    → Distinct jobs
    → (lookup id (remove_all cs jobs) ≡ lookup id jobs) ⊎ (lookup id (remove_all cs jobs) ≡ none)
unfolding remove_all
lookup-remove_all-or_none id [] jobs d = inl refl
lookup-remove_all-or_none id ((t, gone) ∷ cs) jobs d =
    elim (lookup-remove_all-or_none id cs (remove gone jobs) (Distinct-remove gone jobs d)) [
      | inl same ↦ elim (Bool-cases (text_eq gone id)) [
        | inl hit ↦ inr (ground (arith, lookup-remove gone id jobs d))
        | inr miss ↦ inl (ground (arith, lookup-remove gone id jobs d))
      ]
      | inr absent ↦ inr absent
    ]

pub lookup-pruned-or_none :
    (id : Text) (n : ℕ) (jobs : Jobs)
    → Distinct jobs
    → (lookup id (pruned n jobs) ≡ lookup id jobs) ⊎ (lookup id (pruned n jobs) ≡ none)
unfolding pruned
lookup-pruned-or_none id n jobs d = elim (Bool-cases (ltb n (length jobs))) [
  | inl over ↦
      rw over (
        lookup-remove_all-or_none id (take (length jobs - n) (sort_by_key (candidates jobs))) jobs
          d)
  | inr fits ↦ rw fits (inl refl)
]

-- Pruning leaves a job id alone or forgets a job that has ended.
pruned_cases :
    (id : Text) (n : ℕ) (jobs : Jobs) (found : Option BuildJobRecord)
    → IsKeyed jobs
    → Distinct jobs
    → lookup id jobs ≡ found
    → Lifecycle (status_of found) (status_of (lookup id (pruned n jobs)))
      × (active_status (lookup id (pruned n jobs)) ≡ active_status found)
unfolding is_active
pruned_cases id n jobs none k d e = elim (lookup-pruned-or_none id n jobs d) [
  | inl same ↦ rw (same, e) (unchanged none, refl)
  | inr absent ↦ rw absent (unchanged none, refl)
]
pruned_cases id n jobs (some job) k d e = of_status job.status refl
  where
    active :
        is_active job.status ≡ true
        → Lifecycle (some job.status) (status_of (lookup id (pruned n jobs)))
          × (active_status (lookup id (pruned n jobs)) ≡ only_active job.status)
    active a = rw (lookup-pruned id job n jobs k d e a) (unchanged (some job.status), refl)

    of_status :
        (status : BuildStatus)
        → job.status ≡ status
        → Lifecycle (some job.status) (status_of (lookup id (pruned n jobs)))
          × (active_status (lookup id (pruned n jobs)) ≡ only_active job.status)
    of_status queued s = active (rw s refl)
    of_status running s = active (rw s refl)
    of_status succeeded s = elim (lookup-pruned-or_none id n jobs d) [
      | inl same ↦ rw (same, e) (unchanged (some job.status), refl)
      | inr absent ↦ rw (absent, s) (forgot_success, refl)
    ]
    of_status failed s = elim (lookup-pruned-or_none id n jobs d) [
      | inl same ↦ rw (same, e) (unchanged (some job.status), refl)
      | inr absent ↦ rw (absent, s) (forgot_failure, refl)
    ]

pub Lifecycle-pruned :
    (id : Text) (n : ℕ) (jobs : Jobs)
    → IsKeyed jobs
    → Distinct jobs
    → Lifecycle (status_of (lookup id jobs)) (status_of (lookup id (pruned n jobs)))
      × (active_status (lookup id (pruned n jobs)) ≡ active_status (lookup id jobs))
Lifecycle-pruned id n jobs k d = pruned_cases id n jobs (lookup id jobs) k d refl

-- An update of a job that is there changes that job only.
pub lookup-modified :
    (id j : Text) (mutate : BuildJobRecord → BuildJobRecord) (job : BuildJobRecord) (jobs : Jobs)
    → lookup id jobs ≡ some job
    → lookup j (modified id mutate jobs)
      ≡ (if text_eq id j then some (mutate job) else lookup j jobs)
lookup-modified id j mutate job jobs e = rw e (lookup-insert id j (mutate job) jobs)
