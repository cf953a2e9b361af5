-- ===== src/Config.antt =====
-- src/config.rs: the configuration record. Durations are in milliseconds, paths are texts, and a
-- HashSet is a list of its members.
pub mod Env
pub mod Load
use gha_indie_worker_rs.Prelude.{ℕ, Bool, Option, List}
use gha_indie_worker_rs.Text.{Text}
use gha_indie_worker_rs.Rules.{WebhookRule, SyncRule}

pub record Config : Type 0 where
  pub work_root : Text
  pub git_bin : Text
  pub git_http_auth_header : Option Text
  pub nerdctl_bin : Text
  pub kubectl_bin : Text
  pub tar_bin : Text
  pub containerd_namespace : Text
  pub allowed_repo_prefixes : List Text
  pub allowed_image_prefixes : List Text
  pub allowed_namespaces : List Text
  pub allowed_profiles : List Text
  pub allowed_profile_repo_prefixes : List Text
  pub profile_cpus : Text
  pub profile_memory : Text
  pub profile_pids_limit : Text
  pub deploy_enabled : Bool
  pub push_enabled : Bool
  pub ecr_login_enabled : Bool
  pub aws_region : Text
  pub job_timeout : ℕ
  pub job_deadline : ℕ
  pub max_log_bytes : ℕ
  pub max_jobs : ℕ
  pub max_queued : ℕ
  pub keep_workdirs : Bool
  pub server_auth_secret : Option Text
  pub database_url : Option Text
  pub fiducia_url : Text
  pub fiducia_api_key : Option Text
  pub coordination_enabled : Bool
  pub coordination_required : Bool
  pub lock_ttl : ℕ
  pub lock_wait_budget : ℕ
  pub lock_retry_interval : ℕ
  pub idempotency_lease : ℕ
  pub idempotency_retention : ℕ
  pub nats_url : Text
  pub nats_enabled : Bool
  pub nats_intake_enabled : Bool
  pub nats_event_subject : Text
  pub nats_result_subject : Text
  pub nats_image_subject : Text
  pub nats_request_subject : Text
  pub nats_critical_subject : Text
  pub github_webhook_secret : Option Text
  pub registry_webhook_secret : Option Text
  pub webhook_rules : List WebhookRule
  pub gh_sync_enabled : Bool
  pub gh_sync_token : Option Text
  pub gh_sync_rules : List SyncRule
  pub gh_sync_interval : ℕ
  pub lambda_executor_enabled : Bool
  pub lambda_url : Text
  pub lambda_function_id : Option Text
  pub lambda_auth_secret : Option Text
