-- ===== src/Jobs/Store.antt =====
-- src/jobs.rs: `update_job` and `prune_jobs`.
pub mod Prune
use gha_indie_worker_rs.Prelude.{
  ℕ, zero, suc, ◌-◌, Bool, true, false, not, Option, none, some, List, [], ◌∷◌, map, keep, length,
  take, leb, ltb, if◌then◌else◌,
}
use gha_indie_worker_rs.Text.{Text, contains}
use gha_indie_worker_rs.Types.{BuildJobRecord, BuildStatus, queued, running, succeeded, failed}
use gha_indie_worker_rs.State.{AppState, Jobs, Call, persist_job, with_call}
use gha_indie_worker_rs.Events.{publish_lifecycle}
use gha_indie_worker_rs.Validation.Fields.{clean_optional}
use gha_indie_worker_rs.Jobs.Map.{lookup, insert, remove, values}

-- `if let Some(db) = state.db.as_ref() { db::persist_job(db, &job).await }`
abbrev pub persist : AppState → BuildJobRecord → AppState
persist state job = if state.db then with_call state (persist_job job) else state

-- `now` and `critical_now` are the clock's readings for the events.
unfoldable pub update_job :
    AppState → Text → (BuildJobRecord → BuildJobRecord) → (now critical_now : ℕ) → AppState
update_job state id mutate now critical_now = elim (lookup id state.jobs) [
  | none ↦ state
  | some job ↦
      let job' = mutate job in
      let stored = record state { jobs = insert id job' state.jobs } in
      publish_lifecycle (persist stored job') job' now critical_now
]

unfoldable pub is_active : BuildStatus → Bool
is_active queued = true
is_active running = true
is_active succeeded = false
is_active failed = false

-- The creation time and the id of a job that may be removed.
abbrev pub Candidate : Type 0
Candidate = ℕ × Text

unfoldable pub candidates : Jobs → List Candidate
candidates jobs =
    map (λ job. (job.created_at_ms, job.id))
      (keep (λ job. not (is_active job.status)) (values jobs))

-- `sort_by_key` on the creation time: stable, as an insertion sort.
unfoldable pub insert_by_key : Candidate → List Candidate → List Candidate
insert_by_key c [] = c ∷ []
insert_by_key c (d ∷ ds) = if leb c.0 d.0 then c ∷ d ∷ ds else d ∷ insert_by_key c ds

unfoldable pub sort_by_key : List Candidate → List Candidate
sort_by_key [] = []
sort_by_key (c ∷ cs) = insert_by_key c (sort_by_key cs)

unfoldable pub remove_all : List Candidate → Jobs → Jobs
remove_all [] jobs = jobs
remove_all ((_, id) ∷ rest) jobs = remove_all rest (remove id jobs)

unfoldable pub pruned : ℕ → Jobs → Jobs
pruned max_jobs jobs =
    if ltb max_jobs (length jobs)
    then remove_all (take (length jobs - max_jobs) (sort_by_key (candidates jobs))) jobs
    else jobs

-- The request ids of the jobs: `filter_map` of `clean_optional`.
unfoldable pub request_ids_of : List BuildJobRecord → List Text
request_ids_of [] = []
request_ids_of (job ∷ jobs) = elim (clean_optional job.request.request_id) [
  | none ↦ request_ids_of jobs
  | some id ↦ id ∷ request_ids_of jobs
]

unfoldable pub prune_jobs : AppState → AppState
prune_jobs state =
    let jobs = pruned state.config.max_jobs state.jobs in
    record state {
      jobs = jobs;
      recent_request_ids = keep (contains (request_ids_of (values jobs))) state.recent_request_ids;
    }
