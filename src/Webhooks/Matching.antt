-- ===== src/Webhooks/Matching.antt =====
-- src/webhooks.rs: the checks of the rules, their match against a delivery, and the build request
-- that a rule makes of it.
pub mod Laws
use gha_indie_worker_rs.Prelude.{
  ℕ, zero, suc, ◌-◌, Bool, true, false, not, ◌&&◌, ◌||◌, Option, none, some, List, [], ◌∷◌, ◌++◌,
  any, all, length, take, leb, is_some, unwrap_or, Result, ok, err, ◌>>=◌, ◌>>◌, reject,
  if◌then◌else◌,
}
use gha_indie_worker_rs.Text.{
  Text, text, text_eq, contains, len, starts_with, strip_prefix, is_ascii_hexdigit,
  to_ascii_uppercase,
}
use gha_indie_worker_rs.Json.{bool_eq}
use gha_indie_worker_rs.Message.{Message, lit, debug}
use gha_indie_worker_rs.Types.{BuildRequest}
use gha_indie_worker_rs.Rules.{WebhookRule}

-- The two tests that `parse_rules` makes of a rule; the parsing is that of serde_json.
unfoldable pub check_rule : WebhookRule → Result Unit Message
check_rule rule = do
  reject (bool_eq (is_some rule.image) (is_some rule.profile)) (
      lit "webhook rule for "
      ∷ debug rule.repo
      ∷ lit " must set exactly one of image or profile"
      ∷ [])
  reject (is_some rule.profile && (rule.push || is_some rule.deploy || is_some rule.dockerfile)) (
      lit "profile webhook rule for "
      ∷ debug rule.repo
      ∷ lit " cannot push, deploy, or set dockerfile"
      ∷ [])

unfoldable pub check_rules : List WebhookRule → Result Unit Message
check_rules [] = ok tt
check_rules (rule ∷ rules) = check_rule rule >> check_rules rules

-- `parse_rules`, where `from_str` is serde_json's.
unfoldable pub parse_webhook_rules :
    (from_str : Text → Result (List WebhookRule) Message) → Text → Result (List WebhookRule) Message
parse_webhook_rules from_str raw = elim (from_str raw) [
  | err error ↦ err (lit "invalid webhook rules JSON: " ∷ error)
  | ok rules ↦ (do check_rules rules; ok rules)
]

-- `s.replace(p, r)` for a pattern that is not empty; the number is how much of a match is left to
-- pass over.
unfoldable pub replace_from : ℕ → Text → Text → Text → Text
replace_from skip [] p r = []
replace_from (suc skip) (c ∷ s) p r = replace_from skip s p r
replace_from zero (c ∷ s) p r =
    let matched = replace_from (length p - 1) s p r in
    let other = replace_from zero s p r in if starts_with (c ∷ s) p then r ++ matched else c ∷ other

abbrev pub replace : Text → Text → Text → Text
replace s p r = replace_from zero s p r

unfoldable pub substitute_image : (template sha git_ref : Text) → Text
substitute_image template sha git_ref =
    replace (replace (replace template (text "{sha}") sha) (text "{shortSha}") (take 12 sha))
      (text "{ref}") git_ref

unfoldable pub valid_commit_sha : Text → Bool
valid_commit_sha sha = leb 7 (len sha) && leb (len sha) 64 && all is_ascii_hexdigit sha

unfoldable pub branch_from_ref : Text → Option Text
branch_from_ref git_ref = strip_prefix git_ref (text "refs/heads/")

unfoldable pub eq_ignore_ascii_case : Text → Text → Bool
eq_ignore_ascii_case a b = text_eq (to_ascii_uppercase a) (to_ascii_uppercase b)

-- A rule without a branch takes any.
unfoldable pub wants_branch : Option Text → Text → Bool
wants_branch none branch = true
wants_branch (some want) branch = text_eq want branch

unfoldable pub matches_ref : WebhookRule → Text → Bool
matches_ref rule git_ref = elim (branch_from_ref git_ref) [
  | some branch ↦ wants_branch rule.branch branch
  | none ↦
      if starts_with git_ref (text "refs/tags/")
      then rule.tags
      else wants_branch rule.branch git_ref
]

unfoldable pub rule_matches : WebhookRule → (event repo git_ref : Text) → Bool
rule_matches rule event repo git_ref =
    if not (eq_ignore_ascii_case rule.repo repo)
    then false
    else if not (contains (unwrap_or rule.events (text "push" ∷ [])) event)
    then false
    else matches_ref rule git_ref

unfoldable pub rule_job_kind : WebhookRule → Text
rule_job_kind rule =
    if is_some rule.profile
    then text "run-profile"
    else if is_some rule.deploy
    then text "build-and-deploy"
    else text "build-image"

unfoldable pub rule_image : Option Text → (sha branch : Text) → Text
rule_image none sha branch = []
rule_image (some image) sha branch = substitute_image image sha branch

unfoldable pub build_request_from_rule : WebhookRule → (repo git_ref sha : Text) → BuildRequest
build_request_from_rule rule repo git_ref sha =
    let branch = unwrap_or (branch_from_ref git_ref) git_ref in
    record {
      schema_version = some (text "build-server.v1");
      job_kind = some (rule_job_kind rule);
      repo_url = text "https://github.com/" ++ (repo ++ text ".git");
      git_ref = some branch;
      image = rule_image rule.image sha branch;
      profile = rule.profile;
      context_dir = rule.context_dir;
      dockerfile = rule.dockerfile;
      build_args = none;
      push = some rule.push;
      deploy = rule.deploy;
      executor = rule.executor;
      request_id = none;
    }
