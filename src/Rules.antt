-- ===== src/Rules.antt =====
-- The records that the configuration holds for webhooks (src/webhooks.rs) and for the GitHub
-- secret sync (src/gh_secrets.rs).
use gha_indie_worker_rs.Prelude.{Bool, Option, List}
use gha_indie_worker_rs.Text.{Text}
use gha_indie_worker_rs.Types.{DeployRequest}

pub record WebhookRule : Type 0 where
  pub repo : Text
  pub branch : Option Text
  pub tags : Bool
  pub events : Option (List Text)
  pub image : Option Text
  pub profile : Option Text
  pub context_dir : Option Text
  pub dockerfile : Option Text
  pub push : Bool
  pub executor : Option Text
  pub deploy : Option DeployRequest

pub record SecretSource : Type 0 where
  pub from_env : Text

-- `secrets` is a BTreeMap: its entries in the order of their keys.
pub record SyncRule : Type 0 where
  pub repo : Text
  pub secrets : List (Text × SecretSource)

pub record SyncPolicy : Type 0 where
  pub allowed_owners : List Text
  pub allowed_env : List Text
