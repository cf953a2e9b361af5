-- ===== src/Tests/Data.antt =====
-- The inputs of the tests.
use gha_indie_worker_rs.Prelude.{ℕ, ◌==◌, true, false, none, some, [], ◌∷◌, ok, if◌then◌else◌}
use gha_indie_worker_rs.Text.{text}
use gha_indie_worker_rs.Json.{Value, str, num, obj, end, field}
use gha_indie_worker_rs.Types.{BuildRequest, DeployRequest}
use gha_indie_worker_rs.Rules.{WebhookRule}
use gha_indie_worker_rs.Config.{Config}
use gha_indie_worker_rs.State.{AppState, Counters}
use gha_indie_worker_rs.Fiducia.{Answer}
use gha_indie_worker_rs.Jobs.Enqueue.{enqueue_build}
use gha_indie_worker_rs.Webhooks.Github.{Services, Headers, Times}

-- A rule that runs a profile on pushes to main.
abbrev pub webhook_rule : WebhookRule
webhook_rule = record {
  repo = text "acme/app";
  branch = some (text "main");
  tags = false;
  events = none;
  image = none;
  profile = some (text "rust-verify");
  context_dir = none;
  dockerfile = none;
  push = false;
  executor = none;
  deploy = none;
}

abbrev pub config : Config
config = record {
  work_root = text "/var/lib/build";
  git_bin = text "git";
  git_http_auth_header = none;
  nerdctl_bin = text "nerdctl";
  kubectl_bin = text "kubectl";
  tar_bin = text "tar";
  containerd_namespace = text "k8s.io";
  allowed_repo_prefixes = text "https://github.com/acme/" ∷ [];
  allowed_image_prefixes = text "registry.local/" ∷ [];
  allowed_namespaces = text "default" ∷ text "staging" ∷ [];
  allowed_profiles = text "rust-verify" ∷ [];
  allowed_profile_repo_prefixes = text "https://github.com/acme/" ∷ [];
  profile_cpus = [];
  profile_memory = [];
  profile_pids_limit = [];
  deploy_enabled = true;
  push_enabled = true;
  ecr_login_enabled = false;
  aws_region = [];
  job_timeout = 1000;
  job_deadline = 2000;
  max_log_bytes = 4096;
  max_jobs = 2;
  max_queued = 2;
  keep_workdirs = false;
  server_auth_secret = none;
  database_url = none;
  fiducia_url = [];
  fiducia_api_key = none;
  coordination_enabled = true;
  coordination_required = false;
  lock_ttl = 60000;
  lock_wait_budget = 2;
  lock_retry_interval = 1;
  idempotency_lease = 60000;
  idempotency_retention = 60000;
  nats_url = [];
  nats_enabled = false;
  nats_intake_enabled = false;
  nats_event_subject = [];
  nats_result_subject = [];
  nats_image_subject = [];
  nats_request_subject = [];
  nats_critical_subject = [];
  github_webhook_secret = some (text "s3cret");
  registry_webhook_secret = none;
  webhook_rules = webhook_rule ∷ [];
  gh_sync_enabled = false;
  gh_sync_token = none;
  gh_sync_rules = [];
  gh_sync_interval = 0;
  lambda_executor_enabled = false;
  lambda_url = [];
  lambda_function_id = none;
  lambda_auth_secret = none;
}

abbrev pub no_counts : Counters
no_counts = record {
  submitted = 0;
  running = 0;
  succeeded = 0;
  failed = 0;
  rejected = 0;
  command_failures = 0;
  ecr_logins = 0;
  ecr_login_failures = 0;
  locks_acquired = 0;
  lock_failures = 0;
  webhooks_received = 0;
  webhooks_rejected = 0;
  nats_published = 0;
  nats_publish_failures = 0;
  gh_secrets_synced = 0;
  gh_secret_sync_failures = 0;
}

abbrev pub initial : AppState
initial = record {
  config = config;
  jobs = [];
  permits = 2;
  counters = no_counts;
  db = true;
  nats = none;
  holder = text "worker-1";
  recent_request_ids = [];
  calls = [];
}

abbrev pub profile_request : BuildRequest
profile_request = record {
  schema_version = some (text "build-server.v1");
  job_kind = some (text "run-profile");
  repo_url = text "https://github.com/acme/app.git";
  git_ref = some (text "main");
  image = [];
  profile = some (text "rust-verify");
  context_dir = none;
  dockerfile = none;
  build_args = none;
  push = none;
  deploy = none;
  executor = none;
  request_id = some (text "r-1");
}

abbrev pub deployment : DeployRequest
deployment = record {
  kind = text "kustomize";
  path = text "deploy/base";
  namespace = some (text "staging");
  rollout = some (text "api");
  rollout_timeout_seconds = none;
}

abbrev pub image_request : BuildRequest
image_request = record {
  schema_version = none;
  job_kind = some (text "build-and-deploy");
  repo_url = text "https://github.com/acme/app.git";
  git_ref = none;
  image = text "registry.local/app:1";
  profile = none;
  context_dir = none;
  dockerfile = none;
  build_args = none;
  push = some true;
  deploy = some deployment;
  executor = none;
  request_id = none;
}

-- The state after the first request.
abbrev pub after_one : AppState
after_one = (enqueue_build initial profile_request (text "http") 7 7).0

-- The service grants the lock in the second round.
abbrev pub answers : ℕ → Answer
answers n =
    if n == 0 then ok (409, obj end) else ok (200, obj (field (text "fencing_token") (num 5) end))

-- A push to main.
abbrev pub push_payload : Value
push_payload = obj (
    field (text "ref") (str (text "refs/heads/main")) (
      field (text "after") (str (text "0123456789abcdef")) (
        field (text "repository") (obj (field (text "full_name") (str (text "Acme/App")) end))
          end)))

-- Services that stand in for hex, HMAC, JSON, Postgres and fiducia.
abbrev pub services : Services
services = record {
  hex_decode = λ t. some t;
  hmac_sha256 = λ secret body. 100 ∷ body;
  from_slice = λ body. ok push_payload;
  fresh = λ id. true;
  claim = λ key. ok (200, obj end);
}

abbrev pub headers : Headers
headers = record {
  signature = some (text "sha256=d");
  event = some (text "push");
  delivery = some (text "d-1");
}

abbrev pub times : Times
times = record { id_now = 8; created_now = 8 }
