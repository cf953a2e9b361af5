-- ===== src/Tests/Settings.antt =====
-- Tests of the configuration and of the secret sync.
use gha_indie_worker_rs.Prelude.{
  ◌≡◌, refl, true, none, some, List, [], ◌∷◌, All, arith, ok, err, ltb, if◌then◌else◌,
}
use gha_indie_worker_rs.Text.{Text, text, text_eq}
use gha_indie_worker_rs.Text.Decimal.{decimal}
use gha_indie_worker_rs.Message.{message}
use gha_indie_worker_rs.Rules.{SyncRule, SyncPolicy}
use gha_indie_worker_rs.Config.Env.{Vars, env_u64, parse_csv, join_commas}
use gha_indie_worker_rs.Config.Env.Laws.{IsItem, env_u64-decimal, parse_csv-join_commas}
use gha_indie_worker_rs.Config.Load.{Libraries, config_from_env}
use gha_indie_worker_rs.Config.Load.Laws.{IsSafe, config_from_env-IsSafe}
use gha_indie_worker_rs.Webhooks.Matching.{eq_ignore_ascii_case}
use gha_indie_worker_rs.GhSecrets.{
  parse_sync_rules, check_sync_rules, check_sync_rule, check_secrets, env_source_allowed,
  repo_owner, is_repo_char, is_secret_char,
}
use gha_indie_worker_rs.GhSecrets.Laws.{IsOpenRule, parse_sync_rules-IsOpenRule}
use gha_indie_worker_rs.GhSecrets.Sync.{
  PublicKeyResponse, SyncState, SyncServices, sync_value, last_synced_sha256, newest_sha256,
}
use gha_indie_worker_rs.GhSecrets.Sync.Laws.{sync_value-repeated}
use gha_indie_worker_rs.Tests.Validation.{code}
use gha_indie_worker_rs.Tests.Data.{initial}

abbrev sync_rule : SyncRule
sync_rule = record {
  repo = text "acme/app";
  secrets = (text "TOKEN_A", record { from_env = text "GH_SYNC_A" }) ∷ [];
}

abbrev policy : SyncPolicy
policy = record { allowed_owners = text "Acme" ∷ []; allowed_env = [] }

parse_sync_rules-IsOpenRule_example : All (IsOpenRule policy) (sync_rule ∷ [])
unfolding code parse_sync_rules check_sync_rules check_sync_rule check_secrets env_source_allowed
    repo_owner is_repo_char is_secret_char eq_ignore_ascii_case
parse_sync_rules-IsOpenRule_example =
    parse_sync_rules-IsOpenRule (λ raw. ok (sync_rule ∷ [])) (text "[]") policy (sync_rule ∷ [])
      refl

env_u64-decimal_example :
    env_u64 (λ key. some (text " 3600 ")) (text "BUILD_SERVER_LOCK_TTL_SECONDS") 60
    ≡ (if ltb 0 3600 then 3600 else 60)
unfolding code decimal
env_u64-decimal_example =
    env_u64-decimal (λ key. some (text " 3600 ")) (text "BUILD_SERVER_LOCK_TTL_SECONDS")
      (text " 3600 ") 60 3600 refl refl (omega arith)

abbrev items : List Text
items = text "default" ∷ text "staging" ∷ []

items-IsItem : All IsItem items
unfolding code
items-IsItem = ((refl, refl, refl), ((refl, refl, refl), tt))

parse_csv-join_commas_example : parse_csv (join_commas items) ≡ items
parse_csv-join_commas_example = parse_csv-join_commas items items-IsItem

abbrev vars : Vars
vars key = none

abbrev libraries : Libraries
libraries = record {
  webhook_rules_from_str = λ raw. err (message "no JSON");
  sync_rules_from_str = λ raw. err (message "no JSON");
  base64_encode = λ t. t;
  read_to_string = λ path. err (message "no file");
  build_server_events_subject = text "events";
  build_server_images_subject = text "images";
  build_server_requests_subject = text "requests";
  build_server_results_subject = text "results";
  runtime_critical_events_subject = text "critical";
}

config_from_env-IsSafe_example : IsSafe vars (config_from_env libraries vars)
config_from_env-IsSafe_example = config_from_env-IsSafe libraries vars

-- GitHub and Postgres as they answer where all is well; the digest is the text itself.
abbrev key : PublicKeyResponse
key = record { key_id = text "1"; key = text "k" }

abbrev services : SyncServices
services = record {
  var = λ name. some (text "v");
  sha256_hex = λ value. value;
  public_key = λ puts repo. ok key;
  seal = λ k value. ok (text "sealed");
  put = λ puts request. ok tt;
  stores = λ rows row. true;
  answers = λ rows. true;
}

abbrev before_sync : SyncState
before_sync = record { app = initial; runs = []; puts = [] }

abbrev after_sync : SyncState
after_sync = (sync_value services (text "acme/app") key (text "A") (text "v") before_sync).0

sync_value-repeated_example :
    ((sync_value services (text "acme/app") key (text "A") (text "v") after_sync).1.status
      ≡ text "skipped-unchanged")
    × ((sync_value services (text "acme/app") key (text "A") (text "v") after_sync).0.puts
        ≡ after_sync.puts)
    × ((sync_value services (text "acme/app") key (text "A") (text "v") after_sync).0.app
        ≡ after_sync.app)
unfolding sync_value last_synced_sha256 newest_sha256 text_eq
sync_value-repeated_example =
    sync_value-repeated services (λ rows. refl) (λ rows row. refl) (text "acme/app") key key
      (text "A") (text "v") before_sync refl refl
