-- ===== src/Types.antt =====
-- src/types.rs: the build request, the job record and its status, the error classes of the NATS
-- intake; and the HTTP status codes that the handlers answer with.
use gha_indie_worker_rs.Prelude.{ℕ, Bool, Option, List}
use gha_indie_worker_rs.Text.{Text}
use gha_indie_worker_rs.Message.{Message}

-- `buildArgs` is a BTreeMap: its entries in the order of their keys.
pub record DeployRequest : Type 0 where
  pub kind : Text
  pub path : Text
  pub namespace : Option Text
  pub rollout : Option Text
  pub rollout_timeout_seconds : Option ℕ

pub record BuildRequest : Type 0 where
  pub schema_version : Option Text
  pub job_kind : Option Text
  pub repo_url : Text
  pub git_ref : Option Text
  pub image : Text
  pub profile : Option Text
  pub context_dir : Option Text
  pub dockerfile : Option Text
  pub build_args : Option (List (Text × Text))
  pub push : Option Bool
  pub deploy : Option DeployRequest
  pub executor : Option Text
  pub request_id : Option Text

pub data BuildStatus : Type 0 where
  queued running succeeded failed : BuildStatus

pub record BuildJobRecord : Type 0 where
  pub id : Text
  pub status : BuildStatus
  pub request : BuildRequest
  pub source : Text
  pub executor : Text
  pub created_at_ms : ℕ
  pub started_at_ms : Option ℕ
  pub finished_at_ms : Option ℕ
  pub log_path : Text
  pub error : Option Message
  pub lock_key : Option Text
  pub fencing_token : Option ℕ

pub data NatsSubmitError : Type 0 where
  invalid transient : Message → NatsSubmitError

-- axum's `StatusCode`, at the codes that the source names.
pub data StatusCode : Type 0 where
  ok accepted bad_request unauthorized not_found conflict : StatusCode
  internal_server_error service_unavailable : StatusCode
