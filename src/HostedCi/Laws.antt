-- ===== src/HostedCi/Laws.antt =====
-- src/hosted_ci.rs: what each classification is evidence of.
use gha_indie_worker_rs.Prelude.{◌<◌, ◌≡◌, ◌↔◌, some, unwrap_or, arith, true, is_some}
use gha_indie_worker_rs.HostedCi.{
  completed, success, HostedJobObservation, stepful_success, zero_step_runner_admission_failure,
  is_failure_like, classify,
}

-- An observation is classified as a success exactly when the job is completed, its conclusion is
-- success, and at least one step was materialised.
pub classify-eq-stepful_success_iff :
    (o : HostedJobObservation)
    → (classify o ≡ stepful_success)
      ↔ ((o.status ≡ completed) × (o.conclusion ≡ some success) × (0 < unwrap_or o.step_count 0))
unfolding classify
classify-eq-stepful_success_iff o = (λ h. ground arith, λ h. ground arith)

-- A runner admission failure is reported exactly for a completed job with no step, a failure-like
-- conclusion and a machine-readable admission hint.
pub classify-eq-admission_failure_iff :
    (o : HostedJobObservation)
    → (classify o ≡ zero_step_runner_admission_failure) ↔ (
        (o.status ≡ completed)
        × (is_failure_like o.conclusion ≡ true)
        × (is_some o.admission_hint ≡ true)
        × (unwrap_or o.step_count 0 ≡ 0))
unfolding classify is_failure_like
classify-eq-admission_failure_iff o = (λ h. ground arith, λ h. ground arith)
