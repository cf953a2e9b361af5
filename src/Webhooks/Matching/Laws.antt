-- ===== src/Webhooks/Matching/Laws.antt =====
-- src/webhooks.rs: which deliveries a rule takes, and what the request that it makes looks like.
use gha_indie_worker_rs.Prelude.{
  ◌≡◌, refl, sym, ap, ◌∙◌, inl, inr, true, false, Option, none, some, [], ◌∷◌, ◌++◌, arith,
  Bool-cases, unwrap_or, ok,
}
use gha_indie_worker_rs.Text.{Text, text, contains, starts_with, strip_prefix}
use gha_indie_worker_rs.Text.Laws.{text_eq_iff, strip_prefix-eq-some}
use gha_indie_worker_rs.Rules.{WebhookRule}
use gha_indie_worker_rs.Validation.Requests.{run_profile}
use gha_indie_worker_rs.Webhooks.Matching.{
  check_rule, rule_matches, matches_ref, branch_from_ref, wants_branch, build_request_from_rule,
  rule_job_kind, rule_image, eq_ignore_ascii_case,
}

-- The refs that a rule for a branch takes.
pub data TakesRef (rule : WebhookRule) (want git_ref : Text) : Type 0 where
  head : git_ref ≡ text "refs/heads/" ++ want → TakesRef rule want git_ref
  bare : git_ref ≡ want → TakesRef rule want git_ref
  tag :
      rule.tags ≡ true → starts_with git_ref (text "refs/tags/") ≡ true → TakesRef rule want git_ref

same_branch :
    (branch : Option Text) (want b : Text)
    → branch ≡ some want
    → wants_branch branch b ≡ true
    → b ≡ want
unfolding wants_branch
same_branch none want b e h = cc
same_branch (some w) want b e h =
    let same : w ≡ want = ground arith in sym ((text_eq_iff w b).0 h) ∙ same

branch_from_ref-eq-some : (r b : Text) → branch_from_ref r ≡ some b → r ≡ text "refs/heads/" ++ b
unfolding branch_from_ref
branch_from_ref-eq-some r b k = strip_prefix-eq-some r (text "refs/heads/") b k

matches_ref-TakesRef :
    (rule : WebhookRule) (want git_ref : Text) (found : Option Text)
    → rule.branch ≡ some want
    → branch_from_ref git_ref ≡ found
    → matches_ref rule git_ref ≡ true
    → TakesRef rule want git_ref
unfolding matches_ref branch_from_ref strip_prefix
matches_ref-TakesRef rule want git_ref (some b) e f h = head (
    branch_from_ref-eq-some git_ref b f
    ∙ ap (λ x. text "refs/heads/" ++ x) (same_branch rule.branch want b e (rw f at h)))
matches_ref-TakesRef rule want git_ref none e f h =
    elim (Bool-cases (starts_with git_ref (text "refs/tags/"))) [
      | inl tagged ↦ tag (rw (f, tagged) at h) tagged
      | inr other ↦ bare (same_branch rule.branch want git_ref e (rw (f, other) at h))
    ]

-- A rule for a branch takes a delivery only of the event and the repository that it names, and only
-- of that branch, written in full or bare, or of a tag where the rule takes tags.
pub rule_matches_sound :
    (rule : WebhookRule) (event repo git_ref want : Text)
    → rule.branch ≡ some want
    → rule_matches rule event repo git_ref ≡ true
    → (eq_ignore_ascii_case rule.repo repo ≡ true)
      × (contains (unwrap_or rule.events (text "push" ∷ [])) event ≡ true)
      × TakesRef rule want git_ref
unfolding rule_matches
rule_matches_sound rule event repo git_ref want e h =
    elim (Bool-cases (eq_ignore_ascii_case rule.repo repo)) [
      | inl r ↦ elim (Bool-cases (contains (unwrap_or rule.events (text "push" ∷ [])) event)) [
        | inl v ↦ (
          r,
          v,
          matches_ref-TakesRef rule want git_ref (branch_from_ref git_ref) e refl (rw (r, v) at h),
        )
        | inr v ↦ absurd (false_ne_true (rw (r, v) at h))
      ]
      | inr r ↦ absurd (false_ne_true (rw r at h))
    ]
  where
    false_ne_true : false ≡ true → ⊥
    false_ne_true k = cc

-- A rule that `parse_rules` lets through and that names a profile makes a request that the check of
-- profile jobs has nothing against: of kind run-profile, with no image, push, deployment, build
-- arguments or Dockerfile.
pub build_request_from_rule-profile :
    (rule : WebhookRule) (repo git_ref sha p : Text)
    → check_rule rule ≡ ok tt
    → rule.profile ≡ some p
    → let request = build_request_from_rule rule repo git_ref sha in
      (request.job_kind ≡ some run_profile)
      × (request.image ≡ [])
      × (request.push ≡ some false)
      × (request.deploy ≡ none)
      × (request.build_args ≡ none)
      × (request.dockerfile ≡ none)
unfolding check_rule build_request_from_rule rule_job_kind rule_image
build_request_from_rule-profile rule repo git_ref sha p h e =
    (ground arith, ground arith, ground arith, ground arith, refl, ground arith)
