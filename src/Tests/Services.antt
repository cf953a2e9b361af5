-- ===== src/Tests/Services.antt =====
-- Tests of the lock loop, the webhooks and the hosted CI observations.
use gha_indie_worker_rs.Prelude.{
  ℕ, ◌+◌, ◌<◌, ◌≡◌, refl, ◌↔◌, ◌⊎◌, arith, true, false, none, some, [], ◌∷◌, is_some, unwrap_or,
}
use gha_indie_worker_rs.Text.{
  text, text_eq, contains, starts_with, strip_prefix, to_ascii_uppercase, is_ascii_lowercase,
}
use gha_indie_worker_rs.Json.{get}
use gha_indie_worker_rs.Fiducia.{
  LockGrant, LockOutcome, acquire_lock, acquire_loop, acquire_round, fencing_token_of,
  explicitly_not_acquired,
}
use gha_indie_worker_rs.Fiducia.Acquire.{
  Sleeps, IsGranted, acquire_lock_total, acquire_lock-IsGranted,
}
use gha_indie_worker_rs.HostedCi.{
  HostedJobObservation, classify, completed, success, failure, quota_exceeded, stepful_success,
  zero_step_runner_admission_failure, is_failure_like,
}
use gha_indie_worker_rs.HostedCi.Laws.{
  classify-eq-stepful_success_iff, classify-eq-admission_failure_iff,
}
use gha_indie_worker_rs.Validation.Requests.{run_profile}
use gha_indie_worker_rs.Webhooks.Matching.{
  check_rule, rule_matches, matches_ref, branch_from_ref, wants_branch, eq_ignore_ascii_case,
  build_request_from_rule,
}
use gha_indie_worker_rs.Webhooks.Matching.Laws.{
  TakesRef, rule_matches_sound, build_request_from_rule-profile,
}
use gha_indie_worker_rs.Webhooks.Github.{github_webhook}
use gha_indie_worker_rs.Webhooks.Github.Laws.{
  IsQuiet, IsSigned, IsTriggered, github_webhook-IsTriggered,
}
use gha_indie_worker_rs.Tests.Data.{
  config, answers, webhook_rule, services, initial, headers, times,
}

unfoldable code : Unit {0}
unfolding text_eq contains starts_with strip_prefix to_ascii_uppercase is_ascii_lowercase get
    acquire_lock acquire_loop acquire_round fencing_token_of explicitly_not_acquired check_rule
    rule_matches matches_ref branch_from_ref wants_branch eq_ignore_ascii_case
code = tt

-- A clock that goes on by one millisecond in each round.
abbrev clock : ℕ → ℕ
clock n = 100 + n

clock-Sleeps : Sleeps clock 100 config.lock_retry_interval
clock-Sleeps = record { first = omega arith; later = λ n. omega arith }

acquire_lock_total_example :
    (outcome : LockOutcome) × (acquire_lock config (text "k") (text "w") answers 100 clock 3
      ≡ some outcome)
acquire_lock_total_example =
    acquire_lock_total config (text "k") (text "w") answers 100 clock 3 clock-Sleeps (omega arith)
      (omega arith)

abbrev grant : LockGrant
grant = record { key = text "k"; holder = text "w"; fencing_token = 5 }

acquire_lock-IsGranted_example : IsGranted (text "k") (text "w") answers grant
unfolding code
acquire_lock-IsGranted_example =
    acquire_lock-IsGranted config (text "k") (text "w") answers 100 clock 3 grant refl

abbrev green : HostedJobObservation
green = record {
  status = completed;
  conclusion = some success;
  step_count = some 3;
  admission_hint = none;
}

abbrev starved : HostedJobObservation
starved = record {
  status = completed;
  conclusion = some failure;
  step_count = none;
  admission_hint = some quota_exceeded;
}

classify-eq-stepful_success_iff_example : (classify green ≡ stepful_success) ↔ (
    (green.status ≡ completed)
    × (green.conclusion ≡ some success)
    × (0 < unwrap_or green.step_count 0))
classify-eq-stepful_success_iff_example = classify-eq-stepful_success_iff green

classify-eq-admission_failure_iff_example :
    (classify starved ≡ zero_step_runner_admission_failure) ↔ (
      (starved.status ≡ completed)
      × (is_failure_like starved.conclusion ≡ true)
      × (is_some starved.admission_hint ≡ true)
      × (unwrap_or starved.step_count 0 ≡ 0))
classify-eq-admission_failure_iff_example = classify-eq-admission_failure_iff starved

rule_matches_sound_example :
    (eq_ignore_ascii_case webhook_rule.repo (text "Acme/App") ≡ true)
    × (contains (unwrap_or webhook_rule.events (text "push" ∷ [])) (text "push") ≡ true)
    × TakesRef webhook_rule (text "main") (text "refs/heads/main")
unfolding code
rule_matches_sound_example =
    rule_matches_sound webhook_rule (text "push") (text "Acme/App") (text "refs/heads/main")
      (text "main") refl refl

build_request_from_rule-profile_example :
    let request =
      build_request_from_rule webhook_rule
        (text "acme/app")
        (text "refs/heads/main")
        (text "0123456789abcdef") in
    (request.job_kind ≡ some run_profile)
    × (request.image ≡ [])
    × (request.push ≡ some false)
    × (request.deploy ≡ none)
    × (request.build_args ≡ none)
    × (request.dockerfile ≡ none)
unfolding code
build_request_from_rule-profile_example =
    build_request_from_rule-profile webhook_rule (text "acme/app") (text "refs/heads/main")
      (text "0123456789abcdef") (text "rust-verify") refl refl

github_webhook-IsTriggered_example :
    IsQuiet initial (github_webhook services initial headers [] times)
    ⊎ (IsSigned services initial headers []
        × IsTriggered initial.config.webhook_rules services headers [])
github_webhook-IsTriggered_example = github_webhook-IsTriggered services initial headers [] times
