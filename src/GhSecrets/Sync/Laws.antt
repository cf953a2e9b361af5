-- ===== src/GhSecrets/Sync/Laws.antt =====
-- src/gh_secrets.rs: a pass reports each secret once, and a second pass sends nothing that has not
-- changed.
use gha_indie_worker_rs.Prelude.{
  ◌≡◌, refl, ap, ◌∙◌, inl, inr, true, false, ◌&&◌, ◌||◌, Option, none, some, List, [], ◌∷◌, ◌++◌,
  Bool-cases, Result, ok, err,
}
use gha_indie_worker_rs.Text.{Text, text, text_eq}
use gha_indie_worker_rs.Text.Laws.{text_eq_refl}
use gha_indie_worker_rs.Message.{Message}
use gha_indie_worker_rs.Rules.{SyncRule, SecretSource}
use gha_indie_worker_rs.GhSecrets.Sync.{
  PublicKeyResponse, SyncOutcome, SyncRun, SyncState, SyncServices, newest_sha256, same_text,
  last_synced_sha256, record_secret_sync, sync_value, sync_secret, sync_secrets_of, sync_with_key,
  sync_rules, all_failed, filled_value, counted, recorded, put_sealed, sync_found,
}

-- A secret by its repository and its name.
abbrev pub about : SyncOutcome → Text × Text
about outcome = (outcome.repo, outcome.secret)

abbrev pub about_all : List SyncOutcome → List (Text × Text)
about_all [] = []
about_all (o ∷ os) = about o ∷ about_all os

abbrev pub secrets_in : Text → List (Text × SecretSource) → List (Text × Text)
secrets_in repo [] = []
secrets_in repo ((name, _) ∷ secrets) = (repo, name) ∷ secrets_in repo secrets

abbrev pub secrets_of : List SyncRule → List (Text × Text)
secrets_of [] = []
secrets_of (rule ∷ rules) = secrets_in rule.repo rule.secrets ++ secrets_of rules

about_all-append : (xs ys : List SyncOutcome) → about_all (xs ++ ys) ≡ about_all xs ++ about_all ys
about_all-append [] ys = refl
about_all-append (x ∷ xs) ys = ap (λ (t : List (Text × Text)). about x ∷ t) (about_all-append xs ys)

module _ (services : SyncServices) where
  about-sync_value :
      (repo : Text) (key : PublicKeyResponse) (name value : Text) (s : SyncState)
      → about (sync_value services repo key name value s).1 ≡ (repo, name)
  unfolding sync_value
  about-sync_value repo key name value s =
      elim (Bool-cases (
        s.app.db
        && same_text (last_synced_sha256 services repo name s.runs) (services.sha256_hex value))) [
          | inl same ↦ rw same refl
          | inr fresh ↦ rw fresh refl
        ]

  about-sync_secret :
      (repo : Text) (key : PublicKeyResponse) (name : Text) (source : SecretSource) (s : SyncState)
      → about (sync_secret services repo key name source s).1 ≡ (repo, name)
  unfolding sync_secret
  about-sync_secret repo key name source s = go (filled_value (services.var source.from_env))
    where
      go :
          (found : Option Text)
          → about (sync_found services repo key name source found s).1 ≡ (repo, name)
      go none = refl
      go (some value) = about-sync_value repo key name value s

  about-sync_secrets_of :
      (repo : Text) (key : PublicKeyResponse) (secrets : List (Text × SecretSource)) (s : SyncState)
      → about_all (sync_secrets_of services repo key secrets s).1 ≡ secrets_in repo secrets
  unfolding sync_secrets_of
  about-sync_secrets_of repo key [] s = refl
  about-sync_secrets_of repo key ((name, source) ∷ secrets) s =
      rw
        (
          about-sync_secret repo key name source s,
          about-sync_secrets_of repo key secrets (sync_secret services repo key name source s).0,
        )
        refl

  about-all_failed :
      (repo : Text) (error : Message) (secrets : List (Text × SecretSource))
      → about_all (all_failed services repo error secrets) ≡ secrets_in repo secrets
  about-all_failed repo error [] = refl
  about-all_failed repo error ((name, _) ∷ secrets) =
      ap (λ (t : List (Text × Text)). (repo, name) ∷ t) (about-all_failed repo error secrets)

  about-sync_with_key :
      (rule : SyncRule) (found : Result PublicKeyResponse Message) (s : SyncState)
      → about_all (sync_with_key services rule found s).1 ≡ secrets_in rule.repo rule.secrets
  about-sync_with_key rule (err error) s = about-all_failed rule.repo error rule.secrets
  about-sync_with_key rule (ok key) s = about-sync_secrets_of rule.repo key rule.secrets s

  -- A pass over the rules reports each secret of each rule once, in the order of the rules, whatever
  -- the services answer.
  pub about-sync_rules :
      (rules : List SyncRule) (s : SyncState)
      → about_all (sync_rules services rules s).1 ≡ secrets_of rules
  unfolding sync_rules
  about-sync_rules [] s = refl
  about-sync_rules (rule ∷ rules) s =
      let found = services.public_key s.puts rule.repo in
      about_all-append (sync_with_key services rule found s).1
        (sync_rules services rules (sync_with_key services rule found s).0).1
      ∙ ap
          (λ (t : List (Text × Text)).
            t ++ about_all (sync_rules services rules (sync_with_key services rule found s).0).1)
          (about-sync_with_key rule found s)
      ∙ ap (λ (t : List (Text × Text)). secrets_in rule.repo rule.secrets ++ t)
          (about-sync_rules rules (sync_with_key services rule found s).0)

  -- The newest row of a secret is of this value, in a database that is there.
  record IsKnown (repo name value_sha256 : Text) (s : SyncState) : Type 0 where
    on : s.app.db ≡ true
    newest : newest_sha256 repo name s.runs ≡ some value_sha256

  module _ (answers : (rows : List SyncRun) → services.answers rows ≡ true)
      (stores : (rows : List SyncRun) (row : SyncRun) → services.stores rows row ≡ true) where
    recorded-IsKnown :
        (repo name value_sha256 : Text) (s : SyncState) (status : Text) (detail : Option Message)
        → s.app.db ≡ true
        → (text_eq status (text "synced") || text_eq status (text "skipped-unchanged")) ≡ true
        → IsKnown repo name value_sha256
            (recorded services repo name value_sha256 (s, status, detail)).0
    unfolding record_secret_sync newest_sha256
    recorded-IsKnown repo name value_sha256 s status detail on good =
        simp (on, stores s.runs)
          (record { on = on; newest = rw (text_eq_refl repo, text_eq_refl name, good) refl })

    counted-IsKnown :
        (repo name value_sha256 : Text) (o : SyncState × Result (Unit {0}) Message)
        → o.0.app.db ≡ true
        → text_eq
            (recorded services repo name value_sha256 (counted services o)).1.status
            (text "failed")
          ≡ false
        → IsKnown repo name value_sha256
            (recorded services repo name value_sha256 (counted services o)).0
    unfolding text_eq
    counted-IsKnown repo name value_sha256 (s, ok _) on good =
        recorded-IsKnown repo name value_sha256 _ (text "synced") none on refl
    counted-IsKnown repo name value_sha256 (s, err e) on good = cc

    put_sealed-on :
        (repo name key_id : Text) (sealed : Result Text Message) (s : SyncState)
        → s.app.db ≡ true
        → (put_sealed services repo name key_id sealed s).0.app.db ≡ true
    put_sealed-on repo name key_id (ok encrypted) s on = on
    put_sealed-on repo name key_id (err e) s on = on

    sync_value-IsKnown :
        (repo : Text) (key : PublicKeyResponse) (name value : Text) (s : SyncState)
        → s.app.db ≡ true
        → text_eq (sync_value services repo key name value s).1.status (text "failed") ≡ false
        → IsKnown repo name
            (services.sha256_hex value)
            (sync_value services repo key name value s).0
    unfolding sync_value text_eq
    sync_value-IsKnown repo key name value s on good =
        elim (Bool-cases (
          s.app.db
          && same_text (last_synced_sha256 services repo name s.runs)
              (services.sha256_hex value))) [
                | inl same ↦ rw same (
                    recorded-IsKnown repo name (services.sha256_hex value) s
                      (text "skipped-unchanged") none on refl)
                | inr fresh ↦ rw fresh (
                    counted-IsKnown repo name (services.sha256_hex value)
                      (put_sealed services repo name key.key_id (services.seal key.key value) s)
                      (put_sealed-on repo name key.key_id (services.seal key.key value) s on)
                      (rw fresh at good))
              ]

    -- A secret whose value is known is skipped: nothing is sent and nothing is counted.
    known-skips :
        (repo : Text) (key : PublicKeyResponse) (name value : Text) (s : SyncState)
        → IsKnown repo name (services.sha256_hex value) s
        → ((sync_value services repo key name value s).1.status ≡ text "skipped-unchanged")
          × ((sync_value services repo key name value s).0.puts ≡ s.puts)
          × ((sync_value services repo key name value s).0.app ≡ s.app)
    unfolding sync_value last_synced_sha256 record_secret_sync
    known-skips repo key name value s known =
        let same : (s.app.db
              && same_text (last_synced_sha256 services repo name s.runs)
                  (services.sha256_hex value))
            ≡ true =
          rw (known.on, answers s.runs, known.newest) (text_eq_refl (services.sha256_hex value)) in
        rw (same, known.on, stores s.runs) (refl, refl, refl)

    -- With a database that stores rows and answers queries, once a value was synced, or skipped
    -- because it was, a second pass over the same secret and value skips it: nothing is sent to
    -- GitHub again and no counter changes, whatever key the repository then has.
    pub sync_value-repeated :
        (repo : Text) (key later_key : PublicKeyResponse) (name value : Text) (s : SyncState)
        → s.app.db ≡ true
        → text_eq (sync_value services repo key name value s).1.status (text "failed") ≡ false
        → ((sync_value services repo later_key name value
              (sync_value services repo key name value s).0).1.status
            ≡ text "skipped-unchanged")
          × ((sync_value services repo later_key name value
                (sync_value services repo key name value s).0).0.puts
              ≡ (sync_value services repo key name value s).0.puts)
          × ((sync_value services repo later_key name value
                (sync_value services repo key name value s).0).0.app
              ≡ (sync_value services repo key name value s).0.app)
    sync_value-repeated repo key later_key name value s on good =
        known-skips repo later_key name value (sync_value services repo key name value s).0
          (sync_value-IsKnown repo key name value s on good)
