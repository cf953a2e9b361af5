-- ===== src/Jobs/System/Gauges.antt =====
-- src/jobs.rs: `enqueue_build` takes no permit and leaves the counter of running jobs alone.
use gha_indie_worker_rs.Prelude.{
  ℕ, ◌≡◌, refl, Option, none, some, find, leb, Bool-cases, inl, inr, Result, ok, err,
}
use gha_indie_worker_rs.Text.{Text, contains}
use gha_indie_worker_rs.Message.{Message}
use gha_indie_worker_rs.Types.{BuildRequest, BuildJobRecord, bad_request}
use gha_indie_worker_rs.State.{AppState}
use gha_indie_worker_rs.Validation.Fields.{clean_optional}
use gha_indie_worker_rs.Validation.Requests.{validate_build_request}
use gha_indie_worker_rs.Jobs.Map.{values}
use gha_indie_worker_rs.Jobs.Requests.{requests_match}
use gha_indie_worker_rs.Jobs.Store.{prune_jobs}
use gha_indie_worker_rs.Jobs.Enqueue.{
  Outcome, enqueue_build, accept, admit, dispatch, with_claim, has_request_id, count_rejected,
  count_queued,
}

-- Two states with the same permits and the same counter of running jobs.
abbrev pub Gauges : AppState → AppState → Type 0
Gauges s t = (t.permits ≡ s.permits) × (t.counters.running ≡ s.counters.running)

Gauges-accept :
    (s : AppState) (request : BuildRequest) (source : Text) (id_now created_now : ℕ)
    → Gauges s (accept s request source id_now created_now).0
unfolding accept prune_jobs
Gauges-accept s request source id_now created_now = elim (Bool-cases s.db) [
  | inl on ↦ rw on (refl, refl)
  | inr off ↦ rw off (refl, refl)
]

Gauges-admit :
    (s : AppState) (request : BuildRequest) (source : Text) (id_now created_now : ℕ)
    → Gauges s (admit s request source id_now created_now).0
unfolding admit
Gauges-admit s request source id_now created_now =
    elim (Bool-cases (leb s.config.max_queued (count_queued s.jobs))) [
      | inl over ↦ rw over (refl, refl)
      | inr room ↦ rw room (Gauges-accept s request source id_now created_now)
    ]

Gauges-with_claim :
    (s : AppState) (request : BuildRequest) (source : Text) (id_now created_now : ℕ) (r : Text)
    (found : Option BuildJobRecord)
    → Gauges s (with_claim s request source id_now created_now r found).0
Gauges-with_claim s request source id_now created_now r none =
    Gauges-admit _ request source id_now created_now
Gauges-with_claim s request source id_now created_now r (some job) =
    elim (Bool-cases (requests_match job.request request)) [
      | inl same ↦ rw same (refl, refl)
      | inr other ↦ rw other (refl, refl)
    ]

Gauges-dispatch :
    (s : AppState) (request : BuildRequest) (source : Text) (id_now created_now : ℕ)
    (id : Option Text)
    → Gauges s (dispatch s request source id_now created_now id).0
unfolding dispatch
Gauges-dispatch s request source id_now created_now none =
    Gauges-admit s request source id_now created_now
Gauges-dispatch s request source id_now created_now (some r) =
    elim (Bool-cases (contains s.recent_request_ids r)) [
      | inl seen ↦ rw seen (
          Gauges-with_claim s request source id_now created_now r
            (find (has_request_id r) (values s.jobs)))
      | inr free ↦ rw free (Gauges-admit s request source id_now created_now)
    ]

Gauges-checked :
    (s : AppState) (request : BuildRequest) (source : Text) (id_now created_now : ℕ)
    (checked : Result (Unit {0}) Message)
    → Gauges s
        (elim checked as (λ _. Outcome) [
          | ok _ ↦ dispatch s request source id_now created_now (clean_optional request.request_id)
          | err error ↦ (count_rejected s, err (bad_request, error))
        ]).0
Gauges-checked s request source id_now created_now (ok _) =
    Gauges-dispatch s request source id_now created_now (clean_optional request.request_id)
Gauges-checked s request source id_now created_now (err e) = (refl, refl)

pub Gauges-enqueue_build :
    (s : AppState) (request : BuildRequest) (source : Text) (id_now created_now : ℕ)
    → Gauges s (enqueue_build s request source id_now created_now).0
unfolding enqueue_build
Gauges-enqueue_build s request source id_now created_now =
    Gauges-checked s request source id_now created_now (validate_build_request s.config request)
