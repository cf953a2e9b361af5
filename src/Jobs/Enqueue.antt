-- ===== src/Jobs/Enqueue.antt =====
-- src/jobs.rs: `job_id` and `enqueue_build`; src/nats_submit.rs: the NATS mapping of its result.
use gha_indie_worker_rs.Prelude.{
  ℕ, Bool, true, false, Option, none, some, List, [], ◌∷◌, ◌++◌, find, keep, length, leb, not,
  unwrap_or, Result, ok, err, if◌then◌else◌,
}
use gha_indie_worker_rs.Text.{Text, text, text_eq, contains}
use gha_indie_worker_rs.Text.Decimal.{decimal}
use gha_indie_worker_rs.Message.{Message, message, lit, shown, number}
use gha_indie_worker_rs.Types.{
  BuildRequest, BuildJobRecord, BuildStatus, queued, StatusCode, bad_request, conflict,
  service_unavailable, NatsSubmitError, invalid, transient,
}
use gha_indie_worker_rs.State.{AppState, Jobs, fetch_add, with_call, spawn_run_job}
use gha_indie_worker_rs.Validation.Fields.{clean_optional}
use gha_indie_worker_rs.Validation.Paths.{push_path}
use gha_indie_worker_rs.Validation.Requests.{validate_build_request}
use gha_indie_worker_rs.Jobs.Map.{insert, values}
use gha_indie_worker_rs.Jobs.Requests.{requests_match}
use gha_indie_worker_rs.Jobs.Store.{persist, prune_jobs}

-- `now` is `now_ms()`.
unfoldable pub job_id : (now counter : ℕ) → Text
job_id now counter = text "build-" ++ (decimal now ++ b'-' ∷ decimal counter)

abbrev pub Rejection : Type 0
Rejection = StatusCode × Message

-- What a call of `enqueue_build` leaves behind: the state, and its result.
abbrev pub Outcome : Type 0
Outcome = AppState × Result BuildJobRecord Rejection

abbrev pub count_rejected : AppState → AppState
count_rejected state = record state {
  counters = record state.counters { rejected = fetch_add state.counters.rejected };
}

-- Whether a job's request carries this request id.
unfoldable pub has_request_id : Text → BuildJobRecord → Bool
has_request_id request_id job = elim (clean_optional job.request.request_id) [
  | none ↦ false
  | some id ↦ text_eq id request_id
]

abbrev pub conflict_message : Text → Message
conflict_message request_id =
    lit "requestId " ∷ shown request_id ∷ lit " is already bound to a different build request" ∷ []

abbrev pub reattach : AppState → BuildRequest → Text → BuildJobRecord → Outcome
reattach state request request_id existing =
    if requests_match existing.request request
    then (state, ok existing)
    else (count_rejected state, err (conflict, conflict_message request_id))

-- `seen.remove(request_id)`
abbrev pub forget : AppState → Text → AppState
forget state request_id = record state {
  recent_request_ids = keep (λ id. not (text_eq id request_id)) state.recent_request_ids;
}

-- `seen.insert(request_id)` on a set
abbrev pub remember : List Text → Option Text → List Text
remember seen none = seen
remember seen (some request_id) = if contains seen request_id then seen else request_id ∷ seen

abbrev pub is_queued : BuildStatus → Bool
is_queued queued = true
is_queued _ = false

unfoldable pub count_queued : Jobs → ℕ
count_queued jobs = length (keep (λ job. is_queued job.status) (values jobs))

-- The record of a new job.
unfoldable pub new_record :
    AppState → BuildRequest → Text → (id_now created_now : ℕ) → BuildJobRecord
new_record state request source id_now created_now =
    let id = job_id id_now (fetch_add state.counters.submitted) in
    record {
      id = id;
      status = queued;
      request = request;
      source = source;
      executor = unwrap_or request.executor (text "local");
      created_at_ms = created_now;
      started_at_ms = none;
      finished_at_ms = none;
      log_path = push_path (push_path state.config.work_root id) (text "build.log");
      error = none;
      lock_key = none;
      fencing_token = none;
    }

-- The job is inserted and its request id is remembered.
abbrev pub store_job : AppState → BuildRequest → BuildJobRecord → AppState
store_job state request job = record state {
  counters = record state.counters { submitted = fetch_add state.counters.submitted };
  jobs = insert job.id job state.jobs;
  recent_request_ids = remember state.recent_request_ids (clean_optional request.request_id);
}

-- From the choice of the executor to the end: the job is stored, its row is persisted, old jobs are
-- pruned and the task is spawned.
unfoldable pub accept : AppState → BuildRequest → Text → (id_now created_now : ℕ) → Outcome
accept state request source id_now created_now =
    let job = new_record state request source id_now created_now in
    (
      with_call (prune_jobs (persist (store_job state request job) job)) (spawn_run_job job.id),
      ok job,
    )

abbrev pub full_message : (queued_now limit : ℕ) → Message
full_message queued_now limit =
    lit "build queue is full ("
    ∷ number queued_now
    ∷ lit " queued; limit "
    ∷ number limit
    ∷ lit ")"
    ∷ []

-- The backpressure test, and what follows it.
unfoldable pub admit : AppState → BuildRequest → Text → (id_now created_now : ℕ) → Outcome
admit state request source id_now created_now =
    let queued_now = count_queued state.jobs in
    if leb state.config.max_queued queued_now
    then (
      count_rejected state,
      err (service_unavailable, full_message queued_now state.config.max_queued),
    )
    else accept state request source id_now created_now

-- The lookup of a request id that was seen: an early return, or the state to go on from.
abbrev pub with_claim :
    AppState
    → BuildRequest
    → Text
    → (id_now created_now : ℕ) → Text
    → Option BuildJobRecord
    → Outcome
with_claim state request source id_now created_now request_id none =
    admit (forget state request_id) request source id_now created_now
with_claim state request source id_now created_now request_id (some existing) =
    reattach state request request_id existing

unfoldable pub dispatch :
    AppState → BuildRequest → Text → (id_now created_now : ℕ) → Option Text → Outcome
dispatch state request source id_now created_now none =
    admit state request source id_now created_now
dispatch state request source id_now created_now (some request_id) =
    if contains state.recent_request_ids request_id
    then with_claim state request source id_now created_now request_id
        (find (has_request_id request_id) (values state.jobs))
    else admit state request source id_now created_now

-- One call from its start to its end, with nothing in between: what other calls and tasks do to the
-- state between its test of the queue, its insertion and its pruning is not part of it. `id_now` and
-- `created_now` are the clock's readings for the id and for the record.
unfoldable pub enqueue_build : AppState → BuildRequest → Text → (id_now created_now : ℕ) → Outcome
enqueue_build state request source id_now created_now =
    elim (validate_build_request state.config request) [
      | ok _ ↦ dispatch state request source id_now created_now (clean_optional request.request_id)
      | err error ↦ (count_rejected state, err (bad_request, error))
    ]

-- src/nats_submit.rs: `map_enqueue_result`.
unfoldable pub map_enqueue_result :
    {A : Type 0} → Result A Rejection → Result (Unit {0}) NatsSubmitError
map_enqueue_result (ok _) = ok tt
map_enqueue_result (err (service_unavailable, message)) = err (transient message)
map_enqueue_result (err (_, message)) = err (invalid message)
