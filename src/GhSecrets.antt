-- ===== src/GhSecrets.antt =====
-- src/gh_secrets.rs: the rules of the GitHub secret sync. serde_json's `from_str` is an argument.
pub mod Laws
pub mod Sync
use gha_indie_worker_rs.Prelude.{
  ℕ, Bool, true, false, not, ◌&&◌, ◌||◌, Option, none, some, List, [], ◌∷◌, ◌++◌, any, all, ◌==◌,
  is_empty, unwrap_or, Result, ok, err, ◌>>=◌, ◌>>◌, reject, ok_or, if◌then◌else◌,
}
use gha_indie_worker_rs.Text.{
  Text, text, contains, contains_text, contains_char, starts_with, to_ascii_uppercase,
  is_ascii_alphanumeric,
}
use gha_indie_worker_rs.Text.Split.{split_once}
use gha_indie_worker_rs.Message.{Message, message, lit, debug}
use gha_indie_worker_rs.Rules.{SyncRule, SecretSource, SyncPolicy}
use gha_indie_worker_rs.Webhooks.Matching.{eq_ignore_ascii_case}

abbrev pub forbidden_env_substrings : List Text
forbidden_env_substrings =
    text "AWS_SECRET"
    ∷ text "AWS_ACCESS"
    ∷ text "AWS_SESSION"
    ∷ text "FIDUCIA_API_KEY"
    ∷ text "SERVER_AUTH_SECRET"
    ∷ text "DATABASE_URL"
    ∷ text "GH_PAT"
    ∷ text "GITHUB_TOKEN"
    ∷ text "GH_SECRETS_SYNC_TOKEN"
    ∷ text "RUNTIME_CONFIG_SERVER_SECRET"
    ∷ text "WEBHOOK_SECRET"
    ∷ text "PRIVATE_KEY"
    ∷ []

-- The characters of an owner and of a repository's name.
unfoldable pub is_repo_char : ℕ → Bool
is_repo_char ch = is_ascii_alphanumeric ch || ch == b'-' || ch == b'_' || ch == b'.'

abbrev pub clean_owner : Option (Text × Text) → Option Text
clean_owner none = none
clean_owner (some (owner, _)) =
    if not (is_empty owner) && all is_repo_char owner then some owner else none

unfoldable pub repo_owner : Text → Option Text
repo_owner repo = clean_owner (split_once b'/' repo)

abbrev pub protected_message : Text → Message
protected_message from_env =
    lit "gh sync source env "
    ∷ debug from_env
    ∷ lit " is a protected cluster secret and can never be synced"
    ∷ []

unfoldable pub env_source_allowed : Text → SyncPolicy → Result Unit Message
env_source_allowed from_env policy =
    if any (λ needle. contains_text (to_ascii_uppercase from_env) needle) forbidden_env_substrings
    then err (protected_message from_env)
    else if is_empty policy.allowed_env
    then reject (not (starts_with from_env (text "GH_SYNC_"))) (
        lit "gh sync source env "
        ∷ debug from_env
        ∷ lit " must be listed in BUILD_SERVER_GH_SYNC_ALLOWED_ENV or use the GH_SYNC_ prefix"
        ∷ [])
    else reject (not (contains policy.allowed_env from_env)) (
        lit "gh sync source env "
        ∷ debug from_env
        ∷ lit " is not in BUILD_SERVER_GH_SYNC_ALLOWED_ENV"
        ∷ [])

unfoldable pub is_secret_char : ℕ → Bool
is_secret_char ch = is_ascii_alphanumeric ch || ch == b'_'

unfoldable pub check_secrets : SyncPolicy → List (Text × SecretSource) → Result Unit Message
check_secrets policy [] = ok tt
check_secrets policy ((name, source) ∷ secrets) = do
  reject (is_empty name || not (all is_secret_char name))
      (lit "gh secret name " ∷ debug name ∷ lit " is not a valid secret name" ∷ [])
  env_source_allowed source.from_env policy
  check_secrets policy secrets

-- `rule.repo.split_once('/').unwrap_or_default()`, its second part.
abbrev pub repo_name : Option (Text × Text) → Text
repo_name none = []
repo_name (some (_, name)) = name

abbrev pub repo_message : SyncRule → Message
repo_message rule =
    lit "gh sync rule repo " ∷ debug rule.repo ∷ lit " must be a valid owner/name" ∷ []

-- One round of the loop over the rules.
unfoldable pub check_sync_rule : SyncPolicy → SyncRule → Result Unit Message
check_sync_rule policy rule = do
  owner ← ok_or (repo_owner rule.repo) (repo_message rule)
  let name = repo_name (split_once b'/' rule.repo)
  reject (not (not (is_empty name) && not (contains_char name b'/') && all is_repo_char name))
      (repo_message rule)
  reject (is_empty policy.allowed_owners) (
      message
        "gh secret sync is enabled but BUILD_SERVER_GH_SYNC_ALLOWED_OWNERS is empty; refusing all rules")
  reject (not (any (λ allowed. eq_ignore_ascii_case allowed owner) policy.allowed_owners)) (
      lit "gh sync rule owner "
      ∷ debug owner
      ∷ lit " is not in BUILD_SERVER_GH_SYNC_ALLOWED_OWNERS"
      ∷ [])
  check_secrets policy rule.secrets

unfoldable pub check_sync_rules : SyncPolicy → List SyncRule → Result Unit Message
check_sync_rules policy [] = ok tt
check_sync_rules policy (rule ∷ rules) =
    check_sync_rule policy rule >> check_sync_rules policy rules

unfoldable pub parse_sync_rules :
    (from_str : Text → Result (List SyncRule) Message)
    → Text
    → SyncPolicy
    → Result (List SyncRule) Message
parse_sync_rules from_str raw policy = elim (from_str raw) [
  | err error ↦ err (lit "invalid gh secret sync rules JSON: " ∷ error)
  | ok rules ↦ (do check_sync_rules policy rules; ok rules)
]
