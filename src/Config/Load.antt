-- ===== src/Config/Load.antt =====
-- src/config.rs: `config_from_env`. What it takes from other crates is an argument: serde_json's
-- `from_str`, base64, the file system, and the default subjects of dd_nats_subject_defs. Durations are
-- in milliseconds.
pub mod Laws
use gha_indie_worker_rs.Prelude.{
  ℕ, ◌*◌, Bool, true, false, Option, none, some, List, [], ◌∷◌, ◌++◌, unwrap_or, is_ok, Result, ok,
  err, if◌then◌else◌,
}
use gha_indie_worker_rs.Text.{Text, text}
use gha_indie_worker_rs.Message.{Message}
use gha_indie_worker_rs.Rules.{WebhookRule, SyncRule, SyncPolicy}
use gha_indie_worker_rs.Profiles.{names}
use gha_indie_worker_rs.Fiducia.Url.{validate_lock_url}
use gha_indie_worker_rs.GhSecrets.{parse_sync_rules}
use gha_indie_worker_rs.Webhooks.Matching.{parse_webhook_rules}
use gha_indie_worker_rs.Config.{Config}
use gha_indie_worker_rs.Config.Env.{
  Vars, first_env, env_value, env_bool, env_u64, env_usize, parsed, parse_csv, parse_namespaces,
  env_or_file, join_commas,
}

pub record Libraries : Type 0 where
  pub webhook_rules_from_str : Text → Result (List WebhookRule) Message
  pub sync_rules_from_str : Text → Result (List SyncRule) Message
  pub base64_encode : Text → Text
  pub read_to_string : Text → Result Text Message
  pub build_server_events_subject : Text
  pub build_server_images_subject : Text
  pub build_server_requests_subject : Text
  pub build_server_results_subject : Text
  pub runtime_critical_events_subject : Text

-- What does not parse is logged and ignored.
abbrev pub rules_or_none : {A : Type 0} → Result (List A) Message → List A
rules_or_none (ok rules) = rules
rules_or_none (err error) = []

abbrev pub or_ignored : {A : Type 0} → Option Text → (Text → Result (List A) Message) → List A
or_ignored none parse = []
or_ignored (some raw) parse = rules_or_none (parse raw)

unfoldable pub configured_webhook_rules : Libraries → Vars → List WebhookRule
configured_webhook_rules libs var =
    or_ignored
      (env_or_file var libs.read_to_string (text "BUILD_SERVER_WEBHOOK_RULES")
        (text "BUILD_SERVER_WEBHOOK_RULES_PATH"))
      (parse_webhook_rules libs.webhook_rules_from_str)

unfoldable pub gh_sync_policy : Vars → SyncPolicy
gh_sync_policy var = record {
  allowed_owners = parse_csv (env_value var (text "BUILD_SERVER_GH_SYNC_ALLOWED_OWNERS") []);
  allowed_env = parse_csv (env_value var (text "BUILD_SERVER_GH_SYNC_ALLOWED_ENV") []);
}

unfoldable pub configured_sync_rules : Libraries → Vars → List SyncRule
configured_sync_rules libs var =
    or_ignored
      (env_or_file var libs.read_to_string (text "BUILD_SERVER_GH_SYNC_RULES")
        (text "BUILD_SERVER_GH_SYNC_RULES_PATH"))
      (λ raw. parse_sync_rules libs.sync_rules_from_str raw (gh_sync_policy var))

unfoldable pub configured_fiducia_url : Vars → Text
configured_fiducia_url var =
    env_value var (text "FIDUCIA_LOCK_URL")
      (text "http://fiducia-load-balance.fiducia.svc.cluster.local:8088")

unfoldable pub configured_coordination : Vars → Bool
configured_coordination var =
    if env_bool var (text "BUILD_SERVER_COORDINATION_ENABLED") false
    then is_ok (validate_lock_url (configured_fiducia_url var))
    else false

abbrev pub basic_auth : Libraries → Option Text → Option Text
basic_auth libs none = none
basic_auth libs (some token) =
    some (text "AUTHORIZATION: basic " ++ libs.base64_encode (text "x-access-token:" ++ token))

unfoldable pub git_auth_header : Libraries → Vars → Option Text
git_auth_header libs var =
    basic_auth libs (first_env var (text "BUILD_SERVER_GIT_TOKEN" ∷ text "GH_PAT" ∷ []))

unfoldable pub config_from_env : Libraries → Vars → Config
config_from_env libs var = record {
  work_root = env_value var (text "BUILD_SERVER_WORK_ROOT") (text "/var/lib/dd-build-server/jobs");
  git_bin = env_value var (text "BUILD_SERVER_GIT_BIN") (text "git");
  git_http_auth_header = git_auth_header libs var;
  nerdctl_bin = env_value var (text "BUILD_SERVER_NERDCTL_BIN") (text "/usr/local/bin/nerdctl");
  kubectl_bin = env_value var (text "BUILD_SERVER_KUBECTL_BIN") (text "/usr/bin/kubectl");
  tar_bin = env_value var (text "BUILD_SERVER_TAR_BIN") (text "/bin/tar");
  containerd_namespace = env_value var (text "BUILD_SERVER_CONTAINERD_NAMESPACE") (text "k8s.io");
  allowed_repo_prefixes = parse_csv (env_value var (text "BUILD_SERVER_ALLOWED_REPO_PREFIXES") []);
  allowed_image_prefixes =
      parse_csv (env_value var (text "BUILD_SERVER_ALLOWED_IMAGE_PREFIXES") []);
  allowed_namespaces =
      parse_namespaces (env_value var (text "BUILD_SERVER_ALLOWED_NAMESPACES") (text "default"));
  allowed_profiles =
      parse_namespaces (env_value var (text "BUILD_SERVER_ALLOWED_PROFILES") (join_commas names));
  allowed_profile_repo_prefixes = parse_csv (
      env_value var (text "BUILD_SERVER_ALLOWED_PROFILE_REPO_PREFIXES") (
        text
          "https://github.com/ORESoftware/,https://github.com/sonus-auris/,git@github.com:ORESoftware/,git@github.com:sonus-auris/"));
  profile_cpus = env_value var (text "BUILD_SERVER_PROFILE_CPUS") (text "4");
  profile_memory = env_value var (text "BUILD_SERVER_PROFILE_MEMORY") (text "8g");
  profile_pids_limit = env_value var (text "BUILD_SERVER_PROFILE_PIDS_LIMIT") (text "2048");
  deploy_enabled = env_bool var (text "BUILD_SERVER_DEPLOY_ENABLED") true;
  push_enabled = env_bool var (text "BUILD_SERVER_PUSH_ENABLED") false;
  ecr_login_enabled = env_bool var (text "BUILD_SERVER_ECR_LOGIN_ENABLED") true;
  aws_region =
      unwrap_or (first_env var (text "AWS_REGION" ∷ text "AWS_DEFAULT_REGION" ∷ []))
        (text "us-east-1");
  job_timeout = 1000 * env_u64 var (text "BUILD_SERVER_JOB_TIMEOUT_SECONDS") 1800;
  job_deadline = 1000 * env_u64 var (text "BUILD_SERVER_JOB_DEADLINE_SECONDS") 3600;
  max_log_bytes = env_u64 var (text "BUILD_SERVER_MAX_LOG_BYTES") 4194304;
  max_jobs = env_usize var (text "BUILD_SERVER_MAX_JOBS") 200;
  max_queued = env_usize var (text "BUILD_SERVER_MAX_QUEUED") 32;
  keep_workdirs = env_bool var (text "BUILD_SERVER_KEEP_WORKDIRS") false;
  server_auth_secret =
      first_env var (text "BUILD_SERVER_AUTH_SECRET" ∷ text "SERVER_AUTH_SECRET" ∷ []);
  database_url = first_env var (text "BUILD_SERVER_DATABASE_URL" ∷ text "DATABASE_URL" ∷ []);
  fiducia_url = configured_fiducia_url var;
  fiducia_api_key = first_env var (text "FIDUCIA_API_KEY" ∷ []);
  coordination_enabled = configured_coordination var;
  coordination_required = env_bool var (text "BUILD_SERVER_COORDINATION_REQUIRED") false;
  lock_ttl = env_u64 var (text "BUILD_SERVER_LOCK_TTL_MS") 3900000;
  lock_wait_budget = env_u64 var (text "BUILD_SERVER_LOCK_WAIT_MS") 120000;
  lock_retry_interval = env_u64 var (text "BUILD_SERVER_LOCK_RETRY_MS") 3000;
  idempotency_lease = env_u64 var (text "BUILD_SERVER_IDEMPOTENCY_LEASE_MS") 300000;
  idempotency_retention = env_u64 var (text "BUILD_SERVER_IDEMPOTENCY_RETENTION_MS") 604800000;
  nats_url =
      env_value var (text "NATS_URL") (text "nats://dd-nats.messaging.svc.cluster.local:4222");
  nats_enabled = env_bool var (text "BUILD_SERVER_NATS_ENABLED") true;
  nats_intake_enabled = env_bool var (text "BUILD_SERVER_NATS_INTAKE_ENABLED") false;
  nats_event_subject =
      env_value var (text "BUILD_SERVER_NATS_EVENT_SUBJECT") libs.build_server_events_subject;
  nats_result_subject =
      env_value var (text "BUILD_SERVER_NATS_RESULT_SUBJECT") libs.build_server_results_subject;
  nats_image_subject =
      env_value var (text "BUILD_SERVER_NATS_IMAGE_SUBJECT") libs.build_server_images_subject;
  nats_request_subject =
      env_value var (text "BUILD_SERVER_NATS_REQUEST_SUBJECT") libs.build_server_requests_subject;
  nats_critical_subject =
      env_value var (text "NATS_CRITICAL_EVENT_SUBJECT") libs.runtime_critical_events_subject;
  github_webhook_secret = first_env var (text "BUILD_SERVER_GITHUB_WEBHOOK_SECRET" ∷ []);
  registry_webhook_secret = first_env var (text "BUILD_SERVER_REGISTRY_WEBHOOK_SECRET" ∷ []);
  webhook_rules = configured_webhook_rules libs var;
  gh_sync_enabled = env_bool var (text "BUILD_SERVER_GH_SYNC_ENABLED") false;
  gh_sync_token =
      first_env var (text "GH_SECRETS_SYNC_TOKEN" ∷ text "GH_PAT" ∷ text "GITHUB_TOKEN" ∷ []);
  gh_sync_rules = configured_sync_rules libs var;
  gh_sync_interval =
      1000
      * unwrap_or (parsed (first_env var (text "BUILD_SERVER_GH_SYNC_INTERVAL_SECONDS" ∷ []))) 0;
  lambda_executor_enabled = env_bool var (text "BUILD_SERVER_LAMBDA_ENABLED") false;
  lambda_url =
      env_value var (text "BUILD_SERVER_LAMBDA_URL")
        (text "http://dd-gleam-lambda-runner.default.svc.cluster.local:8083");
  lambda_function_id = first_env var (text "BUILD_SERVER_LAMBDA_FUNCTION_ID" ∷ []);
  lambda_auth_secret = first_env var (text "BUILD_SERVER_LAMBDA_AUTH_SECRET" ∷ []);
}
