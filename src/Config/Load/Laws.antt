-- ===== src/Config/Load/Laws.antt =====
-- src/config.rs: what holds of every configuration that is read from an environment.
use gha_indie_worker_rs.Prelude.{
  ◌<◌, ◌≡◌, refl, sym, inl, inr, true, false, Option, none, some, List, [], ◌∷◌, is_empty, is_ok,
  All, Bool-cases, arith, Result, ok, err, ◌>>◌, >>-eq-ok, ok-injective,
}
use gha_indie_worker_rs.Text.{Text, text, contains}
use gha_indie_worker_rs.Message.{Message, lit}
use gha_indie_worker_rs.Rules.{WebhookRule}
use gha_indie_worker_rs.Fiducia.Url.{IsLockUrl, validate_lock_url-IsLockUrl}
use gha_indie_worker_rs.GhSecrets.Laws.{IsOpenRule, parse_sync_rules-IsOpenRule}
use gha_indie_worker_rs.Webhooks.Matching.{check_rule, check_rules, parse_webhook_rules}
use gha_indie_worker_rs.Config.{Config}
use gha_indie_worker_rs.Config.Env.{Vars, filled, first_of, first_env, env_bool}
use gha_indie_worker_rs.Config.Env.Laws.{env_u64-lt, env_usize-lt, parse_csv-filled}
use gha_indie_worker_rs.Config.Load.{
  Libraries, rules_or_none, or_ignored, configured_webhook_rules, gh_sync_policy,
  configured_sync_rules, configured_fiducia_url, configured_coordination, config_from_env,
}

rules_or_none-All :
    {A : Type 0} (P : A → Type 0) (r : Result (List A) Message)
    → ((rules : List A) → r ≡ ok rules → All P rules)
    → All P (rules_or_none r)
rules_or_none-All P (ok rules) k = k rules refl
rules_or_none-All P (err e) k = tt

or_ignored-All :
    {A : Type 0} (P : A → Type 0) (raw : Option Text) (parse : Text → Result (List A) Message)
    → ((text : Text) (rules : List A) → parse text ≡ ok rules → All P rules)
    → All P (or_ignored raw parse)
or_ignored-All P none parse h = tt
or_ignored-All P (some raw) parse h = rules_or_none-All P (parse raw) (h raw)

check_rules-All :
    (rules : List WebhookRule)
    → check_rules rules ≡ ok tt
    → All (λ rule. check_rule rule ≡ ok tt) rules
unfolding check_rules
check_rules-All [] h = tt
check_rules-All (rule ∷ rules) h =
    let (_, first, others) = >>-eq-ok _ _ h in (first, check_rules-All rules others)

checked_rules :
    (parsed : Result (List WebhookRule) Message) (rules : List WebhookRule)
    → (elim parsed as (λ _. Result (List WebhookRule) Message) [
      | err error ↦ err (lit "invalid webhook rules JSON: " ∷ error)
      | ok found ↦ (do check_rules found; ok found)
    ])
      ≡ ok rules
    → All (λ rule. check_rule rule ≡ ok tt) rules
checked_rules (err e) rules h = cc
checked_rules (ok found) rules h =
    let (_, checked, same) = >>-eq-ok (check_rules found) (ok found) h in
    rw (sym (ok-injective same)) (check_rules-All found checked)

parse_webhook_rules-All :
    (from_str : Text → Result (List WebhookRule) Message) (raw : Text) (rules : List WebhookRule)
    → parse_webhook_rules from_str raw ≡ ok rules
    → All (λ rule. check_rule rule ≡ ok tt) rules
unfolding parse_webhook_rules
parse_webhook_rules-All from_str raw rules h = checked_rules (from_str raw) rules h

is_ok-eq-true : (r : Result (Unit {0}) Message) → is_ok r ≡ true → r ≡ ok tt
is_ok-eq-true (ok tt) h = refl
is_ok-eq-true (err e) h = cc

configured_coordination-IsLockUrl :
    (var : Vars) → configured_coordination var ≡ true → IsLockUrl (configured_fiducia_url var)
unfolding configured_coordination
configured_coordination-IsLockUrl var h =
    elim (Bool-cases (env_bool var (text "BUILD_SERVER_COORDINATION_ENABLED") false)) [
      | inl wanted ↦
          validate_lock_url-IsLockUrl (configured_fiducia_url var)
            (is_ok-eq-true _ (rw wanted at h))
      | inr unwanted ↦ absurd (not_true (rw unwanted at h))
    ]
  where
    not_true : false ≡ true → ⊥
    not_true e = cc

filled-eq-some :
    (found : Option Text) (value : Text) → filled found ≡ some value → is_empty value ≡ false
filled-eq-some none value h = cc
filled-eq-some (some raw) value h = ground arith

first_of-filled :
    (found rest : Option Text) (value : Text)
    → (found ≡ some value → is_empty value ≡ false)
    → (rest ≡ some value → is_empty value ≡ false)
    → first_of found rest ≡ some value
    → is_empty value ≡ false
first_of-filled none rest value h k e = k e
first_of-filled (some v) rest value h k e = h e

first_env-filled :
    (var : Vars) (keys : List Text) (value : Text)
    → first_env var keys ≡ some value
    → is_empty value ≡ false
unfolding first_env
first_env-filled var [] value h = cc
first_env-filled var (key ∷ keys) value h =
    first_of-filled (filled (var key)) (first_env var keys) value (filled-eq-some (var key) value)
      (first_env-filled var keys value) h

-- A configuration that is safe to run with.
pub record IsSafe (var : Vars) (config : Config) : Type 0 where
  pub sync_rules : All (IsOpenRule (gh_sync_policy var)) config.gh_sync_rules
  pub webhook_rules : All (λ rule. check_rule rule ≡ ok tt) config.webhook_rules
  pub repo_prefixes : contains config.allowed_repo_prefixes [] ≡ false
  pub image_prefixes : contains config.allowed_image_prefixes [] ≡ false
  pub profile_prefixes : contains config.allowed_profile_repo_prefixes [] ≡ false
  pub lock_url : config.coordination_enabled ≡ true → IsLockUrl config.fiducia_url
  pub auth_secret :
      (secret : Text) → config.server_auth_secret ≡ some secret → is_empty secret ≡ false
  pub webhook_secret :
      (secret : Text) → config.github_webhook_secret ≡ some secret → is_empty secret ≡ false
  pub retry_interval : 0 < config.lock_retry_interval
  pub jobs : 0 < config.max_jobs
  pub queue : 0 < config.max_queued
  pub deadline : 0 < config.job_deadline

-- Whatever stands in the environment and whatever the libraries answer, the configuration that is
-- read syncs secrets only by open rules, has only checked webhook rules, allows no empty prefix of
-- repositories or images, coordinates only over an accepted URL, has no empty secret for requests
-- and GitHub webhooks, and has positive bounds on jobs, on the queue, on the deadline and between
-- two rounds for a lock.
pub config_from_env-IsSafe : (libs : Libraries) (var : Vars) → IsSafe var (config_from_env libs var)
unfolding config_from_env configured_sync_rules configured_webhook_rules
config_from_env-IsSafe libs var = record {
  sync_rules = or_ignored-All (IsOpenRule (gh_sync_policy var)) _ _ (λ raw rules e.
      parse_sync_rules-IsOpenRule libs.sync_rules_from_str raw (gh_sync_policy var) rules e);
  webhook_rules =
      or_ignored-All (λ rule. check_rule rule ≡ ok tt) _ _
        (λ raw rules e. parse_webhook_rules-All libs.webhook_rules_from_str raw rules e);
  repo_prefixes = parse_csv-filled _;
  image_prefixes = parse_csv-filled _;
  profile_prefixes = parse_csv-filled _;
  lock_url = λ enabled. configured_coordination-IsLockUrl var enabled;
  auth_secret = λ secret e. first_env-filled var _ secret e;
  webhook_secret = λ secret e. first_env-filled var _ secret e;
  retry_interval = env_u64-lt var _ 3000 (omega arith);
  jobs = env_usize-lt var _ 200 (omega arith);
  queue = env_usize-lt var _ 32 (omega arith);
  deadline =
      omega (arith, env_u64-lt var (text "BUILD_SERVER_JOB_DEADLINE_SECONDS") 3600 (omega arith));
}
