-- ===== src/GhSecrets/Laws.antt =====
-- src/gh_secrets.rs: what the rules that are accepted allow to be synced.
use gha_indie_worker_rs.Prelude.{
  ◌≡◌, refl, ◌∙◌, sym, ap, ◌⊎◌, inl, inr, Bool, true, false, not, ◌&&◌, ◌||◌, Option, none, some,
  List, [], ◌∷◌, ◌++◌, any, all, is_empty, All, Result, ok, err, ◌>>◌, reject-eq-ok, ok_or-eq-ok,
  >>-eq-ok, >>=-eq-ok, Bool-cases, arith, ok-injective,
}
use gha_indie_worker_rs.Text.{Text, text, contains, contains_text, starts_with, to_ascii_uppercase}
use gha_indie_worker_rs.Text.Split.{split_once, split_once-eq-some}
use gha_indie_worker_rs.Message.{Message, lit}
use gha_indie_worker_rs.Rules.{SyncRule, SecretSource, SyncPolicy}
use gha_indie_worker_rs.Webhooks.Matching.{eq_ignore_ascii_case}
use gha_indie_worker_rs.GhSecrets.{
  forbidden_env_substrings, is_repo_char, clean_owner, repo_owner, env_source_allowed,
  is_secret_char, check_secrets, repo_name, check_sync_rule, check_sync_rules, parse_sync_rules,
}

-- A source that may be synced: no protected name is in it, and it is listed, or, where nothing is
-- listed, it has the prefix.
pub record IsOpenSource (policy : SyncPolicy) (from_env : Text) : Type 0 where
  pub unprotected :
      any (λ needle. contains_text (to_ascii_uppercase from_env) needle) forbidden_env_substrings
      ≡ false
  pub listed :
      (contains policy.allowed_env from_env ≡ true)
      ⊎ ((policy.allowed_env ≡ []) × (starts_with from_env (text "GH_SYNC_") ≡ true))

-- A rule whose repository is an owner that is allowed and a name, and whose secrets all are open.
pub record IsOpenRule (policy : SyncPolicy) (rule : SyncRule) : Type 0 where
  pub owner : Text
  pub name : Text
  pub repo : rule.repo ≡ owner ++ b'/' ∷ name
  pub owner_chars : all is_repo_char owner ≡ true
  pub name_chars : all is_repo_char name ≡ true
  pub owner_allowed :
      any (λ allowed. eq_ignore_ascii_case allowed owner) policy.allowed_owners ≡ true
  pub secrets :
      All
        (λ secret. (all is_secret_char secret.0 ≡ true) × IsOpenSource policy secret.1.from_env)
        rule.secrets

not-false : (b : Bool) → not b ≡ false → b ≡ true
not-false true h = refl
not-false false h = cc

is_empty-eq-true : {A : Type 0} (xs : List A) → is_empty xs ≡ true → xs ≡ []
is_empty-eq-true [] h = refl
is_empty-eq-true (x ∷ xs) h = cc

err_not_ok : {e : Message} → ◌≡◌ {A = Result (Unit {0}) Message} (err e) (ok tt) → ⊥
err_not_ok h = cc

env_source_allowed-IsOpenSource :
    (from_env : Text) (policy : SyncPolicy)
    → env_source_allowed from_env policy ≡ ok tt
    → IsOpenSource policy from_env
unfolding env_source_allowed
env_source_allowed-IsOpenSource from_env policy h =
    elim (Bool-cases (
      any (λ needle. contains_text (to_ascii_uppercase from_env) needle)
        forbidden_env_substrings)) [
          | inl protected ↦ absurd (err_not_ok (rw protected at h))
          | inr free ↦ record {
            unprotected = free;
            listed = elim (Bool-cases (is_empty policy.allowed_env)) [
              | inl nothing ↦ inr (
                is_empty-eq-true policy.allowed_env nothing,
                not-false _ (reject-eq-ok _ _ (rw (free, nothing) at h)),
              )
              | inr some_listed ↦ inl (not-false _ (reject-eq-ok _ _ (rw (free, some_listed) at h)))
            ];
          }
        ]

not-or : (a b : Bool) → (a || not b) ≡ false → b ≡ true
not-or true b h = cc
not-or false b h = not-false b h

check_secrets-IsOpenSource :
    (policy : SyncPolicy) (secrets : List (Text × SecretSource))
    → check_secrets policy secrets ≡ ok tt
    → All
        (λ secret. (all is_secret_char secret.0 ≡ true) × IsOpenSource policy secret.1.from_env)
        secrets
unfolding check_secrets
check_secrets-IsOpenSource policy [] h = tt
check_secrets-IsOpenSource policy ((name, source) ∷ secrets) h =
    let (_, named, h1) = >>-eq-ok _ _ h in
    let (_, open_source, h2) = >>-eq-ok _ _ h1 in
    (
      (
        not-or (is_empty name) _ (reject-eq-ok _ _ named),
        env_source_allowed-IsOpenSource source.from_env policy open_source,
      ),
      check_secrets-IsOpenSource policy secrets h2,
    )

clean_owner-eq-some :
    (found : Option (Text × Text)) (owner : Text)
    → clean_owner found ≡ some owner
    → (name : Text) × (found ≡ some (owner, name)) × (all is_repo_char owner ≡ true)
clean_owner-eq-some none owner h = cc
clean_owner-eq-some (some (o, name)) owner h =
    elim (Bool-cases (not (is_empty o) && all is_repo_char o)) [
      | inl clean ↦ (name, cc, ground (arith, clean, rw clean at h))
      | inr dirty ↦ absurd (ground (arith, rw dirty at h))
    ]

and-right : (a b : Bool) → (a && b) ≡ true → b ≡ true
and-right true b h = h
and-right false b h = cc

check_sync_rule-IsOpenRule :
    (policy : SyncPolicy) (rule : SyncRule)
    → check_sync_rule policy rule ≡ ok tt
    → IsOpenRule policy rule
unfolding check_sync_rule repo_owner
check_sync_rule-IsOpenRule policy rule h =
    let (owner, found, h1) = >>=-eq-ok _ _ h in
    let (_, named, h2) = >>-eq-ok _ _ h1 in
    let (_, _, h3) = >>-eq-ok _ _ h2 in
    let (_, allowed, h4) = >>-eq-ok _ _ h3 in
    let (name, parts, owner_chars) =
      clean_owner-eq-some (split_once b'/' rule.repo) owner (ok_or-eq-ok _ _ found) in
    record {
      owner = owner;
      name = name;
      repo = (split_once-eq-some b'/' rule.repo owner name parts).0;
      owner_chars = owner_chars;
      name_chars =
          ap (λ found. all is_repo_char (repo_name found)) (sym parts)
          ∙ and-right _ _ (not-false _ (reject-eq-ok _ _ named));
      owner_allowed = not-false _ (reject-eq-ok _ _ allowed);
      secrets = check_secrets-IsOpenSource policy rule.secrets h4;
    }

check_sync_rules-IsOpenRule :
    (policy : SyncPolicy) (rules : List SyncRule)
    → check_sync_rules policy rules ≡ ok tt
    → All (IsOpenRule policy) rules
unfolding check_sync_rules
check_sync_rules-IsOpenRule policy [] h = tt
check_sync_rules-IsOpenRule policy (rule ∷ rules) h =
    let (_, first, others) = >>-eq-ok _ _ h in
    (check_sync_rule-IsOpenRule policy rule first, check_sync_rules-IsOpenRule policy rules others)

checked-IsOpenRule :
    (parsed : Result (List SyncRule) Message) (policy : SyncPolicy) (rules : List SyncRule)
    → (elim parsed as (λ _. Result (List SyncRule) Message) [
      | err error ↦ err (lit "invalid gh secret sync rules JSON: " ∷ error)
      | ok found ↦ (do check_sync_rules policy found; ok found)
    ])
      ≡ ok rules
    → All (IsOpenRule policy) rules
checked-IsOpenRule (err e) policy rules h = cc
checked-IsOpenRule (ok found) policy rules h =
    let (_, checked, same) = >>-eq-ok (check_sync_rules policy found) (ok found) h in
    rw (sym (ok-injective same)) (check_sync_rules-IsOpenRule policy found checked)

-- Rules that are accepted, whatever the JSON parser gives, are for repositories of allowed owners
-- with plain names; every secret has a plain name, and its source holds no protected name and is
-- listed or, where nothing is listed, has the prefix of the sync. An empty list of owners accepts
-- no rule.
pub parse_sync_rules-IsOpenRule :
    (from_str : Text → Result (List SyncRule) Message) (raw : Text) (policy : SyncPolicy)
    (rules : List SyncRule)
    → parse_sync_rules from_str raw policy ≡ ok rules
    → All (IsOpenRule policy) rules
unfolding parse_sync_rules
parse_sync_rules-IsOpenRule from_str raw policy rules h =
    checked-IsOpenRule (from_str raw) policy rules h
