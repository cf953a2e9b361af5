-- ===== src/Http/Laws.antt =====
-- src/http.rs: what a caller without the secret gets.
use gha_indie_worker_rs.Prelude.{
  ℕ, ◌≡◌, refl, ◌⊎◌, inl, inr, true, Option, none, some, List, Bool-cases, err,
}
use gha_indie_worker_rs.Text.{Text}
use gha_indie_worker_rs.Types.{BuildRequest, unauthorized, service_unavailable}
use gha_indie_worker_rs.State.{AppState}
use gha_indie_worker_rs.Jobs.Enqueue.{count_rejected}
use gha_indie_worker_rs.GhSecrets.Sync.{SyncRun, SyncState, SyncServices}
use gha_indie_worker_rs.Http.{
  AuthHeaders, Backend, Body, Response, error_body, unauthorized_body, request_is_authorized,
  check_secret, require_auth, guarded_by, submit_build, sync_secrets, sync_secrets_status,
  list_builds, get_build, get_build_logs, get_build_artifacts,
}

-- The call presents the configured secret, by its digest.
abbrev pub IsAuthorized : (Text → Text) → AuthHeaders → Option Text → Type 0
IsAuthorized digest headers none = ⊥
IsAuthorized digest headers (some secret) = request_is_authorized digest headers secret ≡ true

abbrev pub IsErrorBody : Body → Type 0
IsErrorBody (error_body _) = Unit
IsErrorBody (unauthorized_body _ _) = Unit
IsErrorBody _ = ⊥

-- A refusal: 401 or 503 with an error.
abbrev pub IsRefusal : Response → Type 0
IsRefusal (status, body) =
    ((status ≡ unauthorized) ⊎ (status ≡ service_unavailable)) × IsErrorBody body

refusal :
    (digest : Text → Text) (headers : AuthHeaders) (secret : Option Text)
    → (IsAuthorized digest headers secret → ⊥)
    → (refused : Response) × (check_secret digest headers secret ≡ err refused) × IsRefusal refused
refusal digest headers none h = (_, refl, (inr refl, tt))
refusal digest headers (some secret) h =
    elim (Bool-cases (request_is_authorized digest headers secret)) [
      | inl good ↦ absurd (h good)
      | inr bad ↦ rw bad (_, refl, (inl refl, tt))
    ]

-- A call that was refused: the counter of rejected requests goes up, and nothing else changes.
abbrev pub IsRejected : AppState → AppState × Response → Type 0
IsRejected state (after, response) = (after ≡ count_rejected state) × IsRefusal response

module _ (backend : Backend) (headers : AuthHeaders) (state : AppState)
    (stranger : IsAuthorized backend.digest headers state.config.server_auth_secret → ⊥) where
  guarded_by-IsRejected :
      (answer : AppState × Response)
      → IsRejected state (guarded_by (require_auth backend.digest headers state) state answer)
  unfolding require_auth
  guarded_by-IsRejected answer =
      let (refused, e, r) =
        refusal backend.digest headers state.config.server_auth_secret stranger in
      rw e (refl, r)

  -- A call whose headers do not present the configured secret, or where none is configured, is
  -- refused by every handler of the jobs with 401 or 503, and changes nothing but the counter of
  -- rejected requests: nothing is queued, and no job, log or archive is shown.
  pub handlers-IsRejected :
      (request : BuildRequest) (id_now created_now : ℕ) (runs : List SyncRun) (job_id : Text)
      → IsRejected state (submit_build backend headers state request id_now created_now)
        × IsRejected state (list_builds backend headers state)
        × IsRejected state (get_build backend headers state job_id)
        × IsRejected state (get_build_logs backend headers state job_id)
        × IsRejected state (get_build_artifacts backend headers state job_id)
        × IsRejected state (sync_secrets_status backend headers runs state)
  unfolding submit_build list_builds get_build get_build_logs get_build_artifacts
      sync_secrets_status
  handlers-IsRejected request id_now created_now runs job_id = (
    guarded_by-IsRejected _,
    guarded_by-IsRejected _,
    guarded_by-IsRejected _,
    guarded_by-IsRejected _,
    guarded_by-IsRejected _,
    guarded_by-IsRejected _,
  )

-- Such a call does not start a sync of secrets either: nothing is sent, and nothing is recorded.
pub sync_secrets-IsRejected :
    (backend : Backend) (headers : AuthHeaders) (services : SyncServices) (s : SyncState)
    → (IsAuthorized backend.digest headers s.app.config.server_auth_secret → ⊥)
    → ((sync_secrets backend headers services s).0 ≡ record s { app = count_rejected s.app })
      × IsRefusal (sync_secrets backend headers services s).1
unfolding sync_secrets require_auth
sync_secrets-IsRejected backend headers services s stranger =
    let (refused, e, r) = refusal backend.digest headers s.app.config.server_auth_secret stranger in
    rw e (refl, r)
