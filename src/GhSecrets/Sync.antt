-- ===== src/GhSecrets/Sync.antt =====
-- src/gh_secrets.rs: one pass of the sync, with the rows of src/db.rs that it reads and writes. GitHub,
-- the sealed box, SHA-256 and the environment are arguments.
pub mod Laws
use gha_indie_worker_rs.Prelude.{
  ℕ, ◌+◌, Bool, true, false, ◌&&◌, ◌||◌, Option, none, some, List, [], ◌∷◌, ◌++◌, is_empty, Result,
  ok, err, if◌then◌else◌,
}
use gha_indie_worker_rs.Text.{Text, text, text_eq}
use gha_indie_worker_rs.Message.{Message, message, lit, shown}
use gha_indie_worker_rs.Rules.{SyncRule, SecretSource}
use gha_indie_worker_rs.Config.{Config}
use gha_indie_worker_rs.State.{AppState, Counters, fetch_add}

pub record PublicKeyResponse : Type 0 where
  pub key_id : Text
  pub key : Text

pub record SyncOutcome : Type 0 where
  pub repo : Text
  pub secret : Text
  pub status : Text
  pub detail : Option Message

-- A row of the table of runs.
pub record SyncRun : Type 0 where
  pub repo : Text
  pub secret_name : Text
  pub value_sha256 : Text
  pub status : Text
  pub detail : Option Message

-- A value that was sent to GitHub.
pub record Put : Type 0 where
  pub repo : Text
  pub secret : Text
  pub key_id : Text
  pub encrypted_value : Text

-- `runs` are the rows, the newest first; `puts` are the requests so far.
pub record SyncState : Type 0 where
  pub app : AppState
  pub runs : List SyncRun
  pub puts : List Put

-- `stores` and `answers` say whether Postgres takes a row and answers a query.
pub record SyncServices : Type 0 where
  pub var : Text → Option Text
  pub sha256_hex : Text → Text
  pub public_key : List Put → Text → Result PublicKeyResponse Message
  pub seal : (key value : Text) → Result Text Message
  pub put : List Put → Put → Result (Unit {0}) Message
  pub stores : List SyncRun → SyncRun → Bool
  pub answers : List SyncRun → Bool

abbrev pub is_current : Text → Text → SyncRun → Bool
is_current repo name row =
    text_eq row.repo repo
    && text_eq row.secret_name name
    && (text_eq row.status (text "synced") || text_eq row.status (text "skipped-unchanged"))

unfoldable pub newest_sha256 : Text → Text → List SyncRun → Option Text
newest_sha256 repo name [] = none
newest_sha256 repo name (row ∷ rows) =
    if is_current repo name row then some row.value_sha256 else newest_sha256 repo name rows

abbrev pub same_text : Option Text → Text → Bool
same_text none t = false
same_text (some s) t = text_eq s t

-- The value of a variable, where it is set and not empty.
abbrev pub filled_value : Option Text → Option Text
filled_value none = none
filled_value (some value) = if is_empty value then none else some value

abbrev pub count_synced : SyncState → SyncState
count_synced s = record s {
  app = record s.app {
    counters = record s.app.counters {
      gh_secrets_synced = fetch_add s.app.counters.gh_secrets_synced;
    };
  };
}

abbrev pub count_sync_failure : SyncState → SyncState
count_sync_failure s = record s {
  app = record s.app {
    counters = record s.app.counters {
      gh_secret_sync_failures = fetch_add s.app.counters.gh_secret_sync_failures;
    };
  };
}

module _ (services : SyncServices) where
  unfoldable pub last_synced_sha256 : Text → Text → List SyncRun → Option Text
  last_synced_sha256 repo name rows =
      if services.answers rows then newest_sha256 repo name rows else none

  -- `db::record_secret_sync`, where there is a database.
  unfoldable pub record_secret_sync : SyncRun → SyncState → SyncState
  record_secret_sync row s =
      if s.app.db && services.stores s.runs row then record s { runs = row ∷ s.runs } else s

  abbrev pub unset_detail : SecretSource → Message
  unset_detail source = lit "source env " ∷ shown source.from_env ∷ lit " is unset or empty" ∷ []

  -- The value is sealed and sent.
  abbrev pub put_sealed :
      Text
      → Text
      → (key_id : Text) → Result Text Message
      → SyncState
      → SyncState × Result (Unit {0}) Message
  put_sealed repo name key_id (err error) s = (s, err error)
  put_sealed repo name key_id (ok encrypted) s =
      let request : Put = record {
        repo = repo;
        secret = name;
        key_id = key_id;
        encrypted_value = encrypted;
      } in
      (record s { puts = s.puts ++ request ∷ [] }, services.put s.puts request)

  abbrev pub counted : SyncState × Result (Unit {0}) Message → SyncState × Text × Option Message
  counted (s, ok _) = (count_synced s, text "synced", none)
  counted (s, err error) = (count_sync_failure s, text "failed", some error)

  abbrev pub recorded :
      Text
      → Text
      → (value_sha256 : Text) → SyncState × Text × Option Message
      → SyncState × SyncOutcome
  recorded repo name value_sha256 (s, status, detail) = (
    record_secret_sync
        (record {
          repo = repo;
          secret_name = name;
          value_sha256 = value_sha256;
          status = status;
          detail = detail;
        })
        s,
    record { repo = repo; secret = name; status = status; detail = detail },
  )

  -- One round of the loop over the secrets, for a value that is set.
  unfoldable pub sync_value :
      Text → PublicKeyResponse → Text → (value : Text) → SyncState → SyncState × SyncOutcome
  sync_value repo key name value s =
      let value_sha256 = services.sha256_hex value in
      if s.app.db && same_text (last_synced_sha256 repo name s.runs) value_sha256
      then recorded repo name value_sha256 (s, text "skipped-unchanged", none)
      else recorded repo name value_sha256
          (counted (put_sealed repo name key.key_id (services.seal key.key value) s))

  abbrev pub sync_found :
      Text
      → PublicKeyResponse
      → Text
      → SecretSource
      → Option Text
      → SyncState
      → SyncState × SyncOutcome
  sync_found repo key name source none s =
      recorded repo name (text "-") (s, text "failed", some (unset_detail source))
  sync_found repo key name source (some value) s = sync_value repo key name value s

  unfoldable pub sync_secret :
      Text → PublicKeyResponse → Text → SecretSource → SyncState → SyncState × SyncOutcome
  sync_secret repo key name source s =
      sync_found repo key name source (filled_value (services.var source.from_env)) s

  unfoldable pub sync_secrets_of :
      Text
      → PublicKeyResponse
      → List (Text × SecretSource)
      → SyncState
      → SyncState × List SyncOutcome
  sync_secrets_of repo key [] s = (s, [])
  sync_secrets_of repo key ((name, source) ∷ secrets) s =
      let (s1, outcome) = sync_secret repo key name source s in
      let (s2, outcomes) = sync_secrets_of repo key secrets s1 in (s2, outcome ∷ outcomes)

  -- What is reported where the repository's key could not be fetched.
  abbrev pub all_failed : Text → Message → List (Text × SecretSource) → List SyncOutcome
  all_failed repo error [] = []
  all_failed repo error ((name, _) ∷ secrets) =
      record { repo = repo; secret = name; status = text "failed"; detail = some error }
      ∷ all_failed repo error secrets

  abbrev pub sync_with_key :
      SyncRule → Result PublicKeyResponse Message → SyncState → SyncState × List SyncOutcome
  sync_with_key rule (err error) s = (count_sync_failure s, all_failed rule.repo error rule.secrets)
  sync_with_key rule (ok key) s = sync_secrets_of rule.repo key rule.secrets s

  unfoldable pub sync_rules : List SyncRule → SyncState → SyncState × List SyncOutcome
  sync_rules [] s = (s, [])
  sync_rules (rule ∷ rules) s =
      let (s1, outcomes) = sync_with_key rule (services.public_key s.puts rule.repo) s in
      let (s2, more) = sync_rules rules s1 in (s2, outcomes ++ more)

  abbrev pub no_token : SyncOutcome
  no_token = record {
    repo = text "-";
    secret = text "-";
    status = text "failed";
    detail = some (message "no GitHub token configured (GH_SECRETS_SYNC_TOKEN/GH_PAT)");
  }

  abbrev pub sync_with_token : Option Text → SyncState → SyncState × List SyncOutcome
  sync_with_token none s = (s, no_token ∷ [])
  sync_with_token (some token) s = sync_rules s.app.config.gh_sync_rules s

  unfoldable pub sync_all : SyncState → SyncState × List SyncOutcome
  sync_all s = sync_with_token s.app.config.gh_sync_token s
