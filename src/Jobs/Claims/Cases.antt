-- ===== src/Jobs/Claims/Cases.antt =====
-- src/jobs.rs: what `enqueue_build` does, case by case, in a consistent state.
use gha_indie_worker_rs.Prelude.{
  ℕ, ◌≤◌, ◌<◌, ◌≡◌, refl, ◌≢◌, true, false, Option, none, some, find, leb, arith, Bool-cases, inl,
  inr, Result, ok, err,
}
use gha_indie_worker_rs.Text.{Text, contains}
use gha_indie_worker_rs.Text.Laws.{text_eq_iff}
use gha_indie_worker_rs.Types.{
  BuildRequest, BuildJobRecord, bad_request, conflict, service_unavailable,
}
use gha_indie_worker_rs.State.{AppState}
use gha_indie_worker_rs.Validation.Fields.{clean_optional}
use gha_indie_worker_rs.Validation.Requests.{validate_build_request}
use gha_indie_worker_rs.Message.{Message}
use gha_indie_worker_rs.Jobs.Requests.{requests_match}
use gha_indie_worker_rs.Jobs.Map.{values}
use gha_indie_worker_rs.Jobs.Enqueue.{
  has_request_id, accept, admit, dispatch, enqueue_build, with_claim, count_rejected,
  conflict_message, full_message, Outcome, count_queued,
}
use gha_indie_worker_rs.Jobs.Claims.Holders.{find-eq-none_count}
use gha_indie_worker_rs.Jobs.Requests.Laws.{requests_match_iff}
use gha_indie_worker_rs.Jobs.Claims.Invariant.{IsConsistent}
use gha_indie_worker_rs.Jobs.Claims.Admission.{IsUnclaimed}

-- The cases of a call of `enqueue_build`, each with its condition and its outcome.
pub data Enqueued (s : AppState) (request : BuildRequest) (source : Text) (id_now created_now : ℕ)
    (o : Outcome) : Type 0 where
  refused :
      (e : Message)
      → validate_build_request s.config request ≡ err e
      → o ≡ (count_rejected s, err (bad_request, e))
      → Enqueued s request source id_now created_now o
  reattached :
      (r : Text) (job : BuildJobRecord)
      → validate_build_request s.config request ≡ ok tt
      → clean_optional request.request_id ≡ some r
      → find (has_request_id r) (values s.jobs) ≡ some job
      → job.request ≡ request
      → o ≡ (s, ok job)
      → Enqueued s request source id_now created_now o
  conflicting :
      (r : Text) (job : BuildJobRecord)
      → validate_build_request s.config request ≡ ok tt
      → clean_optional request.request_id ≡ some r
      → find (has_request_id r) (values s.jobs) ≡ some job
      → job.request ≢ request
      → o ≡ (count_rejected s, err (conflict, conflict_message r))
      → Enqueued s request source id_now created_now o
  full :
      validate_build_request s.config request ≡ ok tt
      → IsUnclaimed s request
      → s.config.max_queued ≤ count_queued s.jobs
      → o ≡ (
        count_rejected s,
        err (service_unavailable, full_message (count_queued s.jobs) s.config.max_queued),
      )
      → Enqueued s request source id_now created_now o
  accepted :
      validate_build_request s.config request ≡ ok tt
      → IsUnclaimed s request
      → count_queued s.jobs < s.config.max_queued
      → o ≡ accept s request source id_now created_now
      → Enqueued s request source id_now created_now o

-- In a consistent state a claimed id has a job, so the stale-claim branch is not taken.
claimed_has_job :
    (s : AppState) (r : Text)
    → IsConsistent s
    → contains s.recent_request_ids r ≡ true
    → find (has_request_id r) (values s.jobs) ≢ none
claimed_has_job s r h c e = ground (arith, h.held r, find-eq-none_count r s.jobs)

IsUnclaimed-of :
    (s : AppState) (request : BuildRequest) (i : Text)
    → clean_optional request.request_id ≡ some i
    → contains s.recent_request_ids i ≡ false
    → IsUnclaimed s request
IsUnclaimed-of s request i e free r c = ground (arith, text_eq_iff i r)

module _ (s : AppState) (request : BuildRequest) (source : Text) (id_now created_now : ℕ)
    (h : IsConsistent s) (valid : validate_build_request s.config request ≡ ok tt) where
  admit_cases :
      IsUnclaimed s request
      → Enqueued s request source id_now created_now (admit s request source id_now created_now)
  unfolding admit
  admit_cases unclaimed = elim (Bool-cases (leb s.config.max_queued (count_queued s.jobs))) [
    | inl over ↦ full valid unclaimed (ground arith) (rw over refl)
    | inr room ↦ accepted valid unclaimed (ground arith) (rw room refl)
  ]

  claim_cases :
      (r : Text) (found : Option BuildJobRecord)
      → clean_optional request.request_id ≡ some r
      → find (has_request_id r) (values s.jobs) ≡ found
      → found ≢ none
      → Enqueued s request source id_now created_now
          (with_claim s request source id_now created_now r found)
  claim_cases r none e f absent = absurd (absent refl)
  claim_cases r (some job) e f _ = elim (Bool-cases (requests_match job.request request)) [
    | inl same ↦
        reattached r job valid e f ((requests_match_iff job.request request).0 same) (rw same refl)
    | inr other ↦
        conflicting r job valid e f (λ eq. ground (arith, requests_match_iff job.request request))
          (rw other refl)
  ]

  dispatch_cases :
      (id : Option Text)
      → clean_optional request.request_id ≡ id
      → Enqueued s request source id_now created_now
          (dispatch s request source id_now created_now id)
  unfolding dispatch
  dispatch_cases none e = admit_cases (λ r c. ground arith)
  dispatch_cases (some i) e = elim (Bool-cases (contains s.recent_request_ids i)) [
    | inl seen ↦ rw seen (
        claim_cases i (find (has_request_id i) (values s.jobs)) e refl (claimed_has_job s i h seen))
    | inr free ↦ rw free (admit_cases (IsUnclaimed-of s request i e free))
  ]

module _ (s : AppState) (request : BuildRequest) (source : Text) (id_now created_now : ℕ)
    (h : IsConsistent s) where
  checked_cases :
      (checked : Result (Unit {0}) Message)
      → validate_build_request s.config request ≡ checked
      → Enqueued s request source id_now created_now (elim checked as (λ _. Outcome) [
        | ok _ ↦ dispatch s request source id_now created_now (clean_optional request.request_id)
        | err error ↦ (count_rejected s, err (bad_request, error))
      ])
  checked_cases (ok _) valid =
      dispatch_cases s request source id_now created_now h valid (clean_optional request.request_id)
        refl
  checked_cases (err e) bad = refused e bad refl

  -- In a consistent state a call of `enqueue_build` is one of five cases: the request is invalid; it
  -- is identical to that of the job that holds its request id, and that job is returned with the
  -- state unchanged; it differs from it, and is a conflict; the queue is full; or it is accepted.
  -- What is refused changes nothing but the counter of rejected requests.
  pub enqueue_build_cases :
      Enqueued s request source id_now created_now
        (enqueue_build s request source id_now created_now)
  unfolding enqueue_build
  enqueue_build_cases = checked_cases (validate_build_request s.config request) refl
