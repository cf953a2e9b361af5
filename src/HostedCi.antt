-- ===== src/HostedCi.antt =====
-- src/hosted_ci.rs: the classification of GitHub-hosted CI observations.
pub mod Laws
use gha_indie_worker_rs.Prelude.{
  ℕ, Bool, true, false, not, ◌&&◌, Option, none, some, ltb, is_some, unwrap_or, if◌then◌else◌,
}

pub data HostedJobStatus : Type 0 where
  queued in_progress completed : HostedJobStatus

pub data HostedJobConclusion : Type 0 where
  success failure cancelled timed_out neutral skipped action_required : HostedJobConclusion

pub data RunnerAdmissionHint : Type 0 where
  budget_exhausted quota_exceeded no_eligible_runner : RunnerAdmissionHint
  runner_provisioning_failure runner_service_unavailable : RunnerAdmissionHint

pub record HostedJobObservation : Type 0 where
  pub status : HostedJobStatus
  pub conclusion : Option HostedJobConclusion
  pub step_count : Option ℕ
  pub admission_hint : Option RunnerAdmissionHint

pub data HostedRunClassification : Type 0 where
  non_terminal stepful_success stepful_failure : HostedRunClassification
  zero_step_runner_admission_failure zero_step_unknown : HostedRunClassification
  cancelled : HostedRunClassification

-- The derived `==` at the two constants that `classify` compares with.
abbrev pub is_completed : HostedJobStatus → Bool
is_completed completed = true
is_completed _ = false

abbrev pub is_cancelled : Option HostedJobConclusion → Bool
is_cancelled (some cancelled) = true
is_cancelled _ = false

abbrev pub is_success : Option HostedJobConclusion → Bool
is_success (some success) = true
is_success _ = false

unfoldable pub is_failure_like : Option HostedJobConclusion → Bool
is_failure_like (some failure) = true
is_failure_like (some timed_out) = true
is_failure_like (some action_required) = true
is_failure_like _ = false

unfoldable pub classify : HostedJobObservation → HostedRunClassification
classify o =
    if not (is_completed o.status)
    then non_terminal
    else if is_cancelled o.conclusion
    then cancelled
    else if ltb 0 (unwrap_or o.step_count 0)
    then (if is_success o.conclusion then stepful_success else stepful_failure)
    else if is_failure_like o.conclusion && is_some o.admission_hint
    then zero_step_runner_admission_failure
    else zero_step_unknown
