-- ===== src/Jobs/Run.antt =====
-- src/jobs.rs: `run_job`, cut at its waits into the pieces that other tasks may come between. What
-- the executors do is an argument.
use gha_indie_worker_rs.Prelude.{
  ℕ, ◌+◌, ◌-◌, Option, none, some, [], ◌∷◌, ◌++◌, unwrap_or, Result, ok, err, if◌then◌else◌,
}
use gha_indie_worker_rs.Text.{Text, text, text_eq}
use gha_indie_worker_rs.Message.{Message, message, lit, shown, duration}
use gha_indie_worker_rs.Types.{BuildJobRecord, running, succeeded, failed}
use gha_indie_worker_rs.State.{
  AppState, release_lock, remove_dir_all, with_call, fetch_add, fetch_sub,
}
use gha_indie_worker_rs.Fiducia.{LockGrant, LockOutcome, disabled, acquired, busy, unavailable}
use gha_indie_worker_rs.Validation.Paths.{push_path}
use gha_indie_worker_rs.Validation.Requests.{request_job_kind, run_profile}
use gha_indie_worker_rs.Jobs.Store.{update_job}

-- The clock's readings of one update: for the record, the event and the critical event.
pub record Readings : Type 0 where
  pub at : ℕ
  pub event : ℕ
  pub critical : ℕ

abbrev pub update : AppState → Text → (BuildJobRecord → BuildJobRecord) → Readings → AppState
update state id mutate now = update_job state id mutate now.event now.critical

-- The updates that `run_job` makes to its record.
abbrev pub as_failed : Message → ℕ → BuildJobRecord → BuildJobRecord
as_failed error now job = record job {
  status = failed;
  finished_at_ms = some now;
  error = some error;
}

abbrev pub as_succeeded : ℕ → BuildJobRecord → BuildJobRecord
as_succeeded now job = record job { status = succeeded; finished_at_ms = some now; error = none }

abbrev pub grant_key : Option LockGrant → Option Text
grant_key none = none
grant_key (some grant) = some grant.key

abbrev pub grant_token : Option LockGrant → Option ℕ
grant_token none = none
grant_token (some grant) = some grant.fencing_token

abbrev pub as_running : Option LockGrant → ℕ → BuildJobRecord → BuildJobRecord
as_running grant now job = record job {
  status = running;
  started_at_ms = some now;
  lock_key = grant_key grant;
  fencing_token = grant_token grant;
}

-- The permit of the semaphore: taken where one is left, and given back when it is dropped.
abbrev pub take_permit : AppState → AppState
take_permit state = record state { permits = state.permits - 1 }

abbrev pub drop_permit : AppState → AppState
drop_permit state = record state { permits = state.permits + 1 }

-- The semaphore was closed.
unfoldable pub queue_closed : AppState → Text → Message → Readings → AppState
queue_closed state id error now =
    update state id (as_failed (lit "build queue is closed: " ∷ error) now.at) now

-- The name of the lock of a job; `sha256_hex` is that of src/util.rs, over the sha2 crate.
unfoldable pub lock_key : (sha256_hex : Text → Text) → BuildJobRecord → Text
lock_key sha256_hex job =
    if text_eq (request_job_kind job.request) run_profile
    then text "build-server/profile/"
      ++ (unwrap_or job.request.profile (text "unknown") ++ b'/' ∷ sha256_hex job.request.repo_url)
    else text "build-server/image/" ++ job.request.image

-- How the match on the lock's outcome ends: with a return, or with a grant or none.
pub data Decision : Type 0 where
  stop : Decision
  proceed : Option LockGrant → Decision

abbrev pub count_lock_acquired : AppState → AppState
count_lock_acquired state = record state {
  counters = record state.counters { locks_acquired = fetch_add state.counters.locks_acquired };
}

abbrev pub count_lock_failure : AppState → AppState
count_lock_failure state = record state {
  counters = record state.counters { lock_failures = fetch_add state.counters.lock_failures };
}

abbrev pub count_failed : AppState → AppState
count_failed state = record state {
  counters = record state.counters { failed = fetch_add state.counters.failed };
}

-- The job fails before it starts, and the permit is dropped.
abbrev pub give_up : AppState → Text → Message → Readings → AppState
give_up state id error now =
    drop_permit (update (count_failed (count_lock_failure state)) id (as_failed error now.at) now)

unfoldable pub on_lock : AppState → Text → LockOutcome → Readings → AppState × Decision
on_lock state id disabled now = (state, proceed none)
on_lock state id (acquired grant) now = (count_lock_acquired state, proceed (some grant))
on_lock state id (busy key) now = (
  give_up state id
      (lit "another build holds the fiducia lock for " ∷ shown key ∷ lit "; retry later" ∷ []) now,
  stop,
)
on_lock state id (unavailable error) now =
    if state.config.coordination_required
    then (
      give_up state id (lit "fiducia coordination is required but unavailable: " ∷ error) now,
      stop,
    )
    else (count_lock_failure state, proceed none)

-- The job is marked as running.
unfoldable pub start_job : AppState → Text → Option LockGrant → Readings → AppState
start_job state id grant now =
    update
      (record state {
        counters = record state.counters { running = fetch_add state.counters.running };
      })
      id (as_running grant now.at) now

pub data Executor : Type 0 where
  profile lambda build : Executor

-- Which executor runs a job.
unfoldable pub executor_of : BuildJobRecord → Executor
executor_of job =
    if text_eq (request_job_kind job.request) run_profile
    then profile
    else if text_eq job.executor (text "lambda")
    then lambda
    else build

-- The result of the execution: `none` from the executor means that the deadline passed first.
unfoldable pub job_result :
    (execute : Executor → BuildJobRecord → Option (Result (Unit {0}) Message)) (deadline : ℕ)
    → Option BuildJobRecord
    → Result (Unit {0}) Message
job_result execute deadline none = err (message "job disappeared before execution")
job_result execute deadline (some job) = elim (execute (executor_of job) job) [
  | some result ↦ result
  | none ↦ err (lit "job exceeded overall deadline of " ∷ duration deadline ∷ [])
]

-- `release_lock` and the removal of the cloned repository.
abbrev pub release : AppState → Option LockGrant → AppState
release state none = state
release state (some grant) =
    with_call state (release_lock grant.key grant.holder grant.fencing_token)

abbrev pub clean_up : AppState → Text → AppState
clean_up state id =
    if state.config.keep_workdirs
    then state
    else with_call state
        (remove_dir_all (push_path (push_path state.config.work_root id) (text "repo")))

abbrev pub count_finished : AppState → AppState
count_finished state = record state {
  counters = record state.counters { running = fetch_sub state.counters.running };
}

abbrev pub count_succeeded : AppState → AppState
count_succeeded state = record state {
  counters = record state.counters { succeeded = fetch_add state.counters.succeeded };
}

abbrev pub count_command_failure : AppState → AppState
count_command_failure state = record state {
  counters = record state.counters {
    failed = fetch_add state.counters.failed;
    command_failures = fetch_add state.counters.command_failures;
  };
}

abbrev pub count_result : AppState → Result (Unit {0}) Message → AppState
count_result state (ok _) = count_succeeded state
count_result state (err error) = count_command_failure state

-- The task is not running any more: its permit is dropped, and its result is counted.
unfoldable pub leave_job : AppState → Result (Unit {0}) Message → AppState
leave_job state result = count_result (drop_permit (count_finished state)) result

abbrev pub as_ended : Result (Unit {0}) Message → ℕ → BuildJobRecord → BuildJobRecord
as_ended (ok _) now = as_succeeded now
as_ended (err error) now = as_failed error now

-- The job is marked as succeeded or as failed.
unfoldable pub conclude_job : AppState → Text → Result (Unit {0}) Message → Readings → AppState
conclude_job state id result now = update state id (as_ended result now.at) now
