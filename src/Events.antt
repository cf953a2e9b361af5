-- ===== src/Events.antt =====
-- src/events.rs: the lifecycle events of a job. The JetStream intake loop is not modelled.
use gha_indie_worker_rs.Prelude.{
  ℕ, ◌%◌, ◌^◌, Bool, true, false, Option, none, some, [], ◌∷◌, ◌++◌, unwrap_or, if◌then◌else◌,
}
use gha_indie_worker_rs.Text.{Text, text}
use gha_indie_worker_rs.Message.{Message, lit, shown}
use gha_indie_worker_rs.Types.{BuildJobRecord, BuildStatus, queued, running, succeeded, failed}
use gha_indie_worker_rs.State.{
  AppState, Counters, LifecycleEvent, CriticalEvent, Payload, lifecycle, critical, publish,
  service_name, fetch_add,
}

unfoldable pub status_label : BuildStatus → Text
status_label queued = text "queued"
status_label running = text "running"
status_label succeeded = text "succeeded"
status_label failed = text "failed"

-- `now` is `now_ms()`, cut to 64 bits.
unfoldable pub lifecycle_payload : BuildJobRecord → ℕ → LifecycleEvent
lifecycle_payload job now = record {
  schema_version = text "build-server.event.v1";
  service = service_name;
  job_id = job.id;
  status = status_label job.status;
  job_kind = unwrap_or job.request.job_kind (text "build-image");
  source = job.source;
  executor = job.executor;
  repo_url = job.request.repo_url;
  git_ref = job.request.git_ref;
  image = job.request.image;
  fencing_token = job.fencing_token;
  error = job.error;
  ts_ms = now % 2 ^ 64;
}

abbrev pub error_or_unknown : Option Message → Message
error_or_unknown none = lit "unknown error" ∷ []
error_or_unknown (some error) = error

unfoldable pub critical_payload : BuildJobRecord → ℕ → CriticalEvent
critical_payload job now = record {
  schema_version = text "dd.log.v1";
  level = text "error";
  service = service_name;
  message =
      lit "build job "
      ∷ shown job.id
      ∷ lit " failed for "
      ∷ shown job.request.image
      ∷ lit " ("
      ∷ (error_or_unknown job.error ++ lit ")" ∷ []);
  job_id = job.id;
  ts_ms = now % 2 ^ 64;
}

abbrev pub count_publish : Bool → Counters → Counters
count_publish true c = record c { nats_published = fetch_add c.nats_published }
count_publish false c = record c { nats_publish_failures = fetch_add c.nats_publish_failures }

-- With no client nothing is called.
unfoldable pub publish_event : AppState → Text → Payload → AppState
publish_event state subject payload = elim state.nats [
  | none ↦ state
  | some answer ↦ record state {
    counters = count_publish (answer state.calls) state.counters;
    calls = state.calls ++ publish subject payload ∷ [];
  }
]

abbrev pub is_terminal : BuildStatus → Bool
is_terminal succeeded = true
is_terminal failed = true
is_terminal _ = false

abbrev pub is_failed : BuildStatus → Bool
is_failed failed = true
is_failed _ = false

-- The clock is read for each payload.
unfoldable pub publish_lifecycle : AppState → BuildJobRecord → (now critical_now : ℕ) → AppState
publish_lifecycle state job now critical_now =
    let payload = lifecycle (lifecycle_payload job now) in
    let told = publish_event state state.config.nats_event_subject payload in
    let result =
      if is_terminal job.status
      then publish_event told state.config.nats_result_subject payload
      else told in
    if is_failed job.status
    then publish_event result state.config.nats_critical_subject
        (critical (critical_payload job critical_now))
    else result
