-- ===== src/State.antt =====
-- src/state.rs: the state that the handlers share, with its counters, and the calls that they make
-- to services outside the process, in order.
use gha_indie_worker_rs.Prelude.{ℕ, ◌+◌, ◌-◌, ◌%◌, ◌^◌, Bool, Option, List, [], ◌∷◌, ◌++◌}
use gha_indie_worker_rs.Text.{Text, text}
use gha_indie_worker_rs.Message.{Message}
use gha_indie_worker_rs.Types.{BuildJobRecord}
use gha_indie_worker_rs.Config.{Config}

abbrev pub service_name : Text
service_name = text "dd-build-server"

-- An AtomicU64 wraps around.
abbrev pub fetch_add : ℕ → ℕ
fetch_add n = (n + 1) % 2 ^ 64

abbrev pub fetch_sub : ℕ → ℕ
fetch_sub n = (n + 2 ^ 64 - 1) % 2 ^ 64

pub record Counters : Type 0 where
  pub submitted : ℕ
  pub running : ℕ
  pub succeeded : ℕ
  pub failed : ℕ
  pub rejected : ℕ
  pub command_failures : ℕ
  pub ecr_logins : ℕ
  pub ecr_login_failures : ℕ
  pub locks_acquired : ℕ
  pub lock_failures : ℕ
  pub webhooks_received : ℕ
  pub webhooks_rejected : ℕ
  pub nats_published : ℕ
  pub nats_publish_failures : ℕ
  pub gh_secrets_synced : ℕ
  pub gh_secret_sync_failures : ℕ

-- The payloads of src/events.rs.
pub record LifecycleEvent : Type 0 where
  pub schema_version : Text
  pub service : Text
  pub job_id : Text
  pub status : Text
  pub job_kind : Text
  pub source : Text
  pub executor : Text
  pub repo_url : Text
  pub git_ref : Option Text
  pub image : Text
  pub fencing_token : Option ℕ
  pub error : Option Message
  pub ts_ms : ℕ

pub record CriticalEvent : Type 0 where
  pub schema_version : Text
  pub level : Text
  pub service : Text
  pub message : Message
  pub job_id : Text
  pub ts_ms : ℕ

pub data Payload : Type 0 where
  lifecycle : LifecycleEvent → Payload
  critical : CriticalEvent → Payload

-- A call that leaves the process, or a task that is started: the upsert of a job row, a NATS
-- publish, `tokio::spawn` of `run_job`, the release of a fiducia lock, the removal of a workdir, the
-- row of a GitHub delivery, the end of an idempotency lease.
pub data Call : Type 0 where
  persist_job : BuildJobRecord → Call
  publish : Text → Payload → Call
  spawn_run_job : Text → Call
  release_lock : (key holder : Text) → (fencing_token : ℕ) → Call
  remove_dir_all : Text → Call
  record_webhook_delivery : (delivery_id event repo git_ref action : Text) → Call
  idempotency_finish : (key : Text) → (succeeded : Bool) → Call

abbrev pub Jobs : Type 0
Jobs = List (Text × BuildJobRecord)

-- `nats` is the client's answer to a publish, given the calls that were made before. `permits` is
-- what is left of the semaphore.
pub record AppState : Type 0 where
  pub config : Config
  pub jobs : Jobs
  pub permits : ℕ
  pub counters : Counters
  pub db : Bool
  pub nats : Option (List Call → Bool)
  pub holder : Text
  pub recent_request_ids : List Text
  pub calls : List Call

abbrev pub with_call : AppState → Call → AppState
with_call state call = record state { calls = state.calls ++ call ∷ [] }
