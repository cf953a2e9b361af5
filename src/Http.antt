-- ===== src/Http.antt =====
-- src/http.rs: the handlers. The files, the database rows of earlier processes and SHA-256 are
-- arguments; bodies are the values that are rendered as JSON.
pub mod Laws
pub mod Listing
use gha_indie_worker_rs.Prelude.{
  ℕ, Bool, true, false, not, ◌&&◌, ◌||◌, Option, none, some, List, [], ◌∷◌, ◌++◌, map, keep, leb,
  unwrap_or, is_some, Result, ok, err, if◌then◌else◌,
}
use gha_indie_worker_rs.Text.{Text, text, text_eq, contains}
use gha_indie_worker_rs.Message.{Message, message, lit}
use gha_indie_worker_rs.Types.{
  BuildRequest, BuildJobRecord, StatusCode, accepted, unauthorized, not_found,
  internal_server_error, service_unavailable,
}
use gha_indie_worker_rs.Config.{Config}
use gha_indie_worker_rs.State.{AppState, fetch_add}
use gha_indie_worker_rs.Jobs.Map.{lookup, values}
use gha_indie_worker_rs.Jobs.Enqueue.{enqueue_build, count_rejected, count_queued}
use gha_indie_worker_rs.Validation.Paths.{push_path}
use gha_indie_worker_rs.GhSecrets.Sync.{SyncOutcome, SyncRun, SyncState, SyncServices, sync_all}

-- A header's value: `none` where it is not text.
pub record AuthHeaders : Type 0 where
  pub x_server_auth : Option (Option Text)
  pub x_build_server_auth : Option (Option Text)
  pub x_agent_auth : Option (Option Text)

-- A row of a job from an earlier process.
pub record PersistedJob : Type 0 where
  pub id : Text
  pub status : Text
  pub job_kind : Text
  pub source : Text
  pub executor : Text
  pub repo_url : Text
  pub git_ref : Option Text
  pub image : Option Text
  pub error : Option Text

pub data Listed : Type 0 where
  live : BuildJobRecord → Listed
  persisted : PersistedJob → Listed

pub data Body : Type 0 where
  error_body : Message → Body
  unauthorized_body : (error err_message : Message) → Body
  job_body : BuildJobRecord → Body
  jobs_body : List Listed → Body
  text_body : Text → Body
  archive_body : (file_name contents : Text) → Body
  outcomes_body : List SyncOutcome → Body
  runs_body : List SyncRun → Body
  ready_body : Bool → Body

abbrev pub Response : Type 0
Response = StatusCode × Body

-- What opening or reading a file gives.
pub data FileResult : Type 0 where
  file : Text → FileResult
  no_file : FileResult
  file_error : Message → FileResult

pub record Backend : Type 0 where
  pub digest : Text → Text
  pub read_file : Text → FileResult
  pub recent_jobs : List PersistedJob
  pub path_exists : Text → Bool
  pub executable_available : Text → Bool

abbrev pub or_next : {A : Type 0} → Option A → Option A → Option A
or_next none next = next
or_next (some a) next = some a

abbrev pub digest_matches : (Text → Text) → Text → Option (Option Text) → Bool
digest_matches digest secret none = false
digest_matches digest secret (some none) = false
digest_matches digest secret (some (some value)) = text_eq (digest value) (digest secret)

unfoldable pub request_is_authorized : (digest : Text → Text) → AuthHeaders → Text → Bool
request_is_authorized digest headers secret =
    digest_matches digest secret
      (or_next headers.x_server_auth (or_next headers.x_build_server_auth headers.x_agent_auth))

abbrev pub check_secret :
    (digest : Text → Text) → AuthHeaders → Option Text → Result (Unit {0}) Response
check_secret digest headers none =
    err (service_unavailable, error_body (message "SERVER_AUTH_SECRET is not configured"))
check_secret digest headers (some secret) =
    if request_is_authorized digest headers secret
    then ok tt
    else err (
      unauthorized,
      unauthorized_body (message "unauthorized")
          (message "missing required build server auth header"),
    )

unfoldable pub require_auth :
    (digest : Text → Text) → AuthHeaders → AppState → Result (Unit {0}) Response
require_auth digest headers state = check_secret digest headers state.config.server_auth_secret

-- A handler behind `require_auth`, which counts what it refuses.
abbrev pub guarded_by :
    Result (Unit {0}) Response → AppState → AppState × Response → AppState × Response
guarded_by (err refused) state answer = (count_rejected state, refused)
guarded_by (ok _) state answer = answer

abbrev pub not_found_body : Message → Response
not_found_body error = (not_found, error_body error)

-- `sort_by_key` on the creation time in reverse: stable, as an insertion sort.
unfoldable pub insert_newest : BuildJobRecord → List BuildJobRecord → List BuildJobRecord
insert_newest job [] = job ∷ []
insert_newest job (next ∷ jobs) =
    if leb next.created_at_ms job.created_at_ms
    then job ∷ next ∷ jobs
    else next ∷ insert_newest job jobs

unfoldable pub newest_first : List BuildJobRecord → List BuildJobRecord
newest_first [] = []
newest_first (job ∷ jobs) = insert_newest job (newest_first jobs)

abbrev pub ids_of : List BuildJobRecord → List Text
ids_of [] = []
ids_of (job ∷ jobs) = job.id ∷ ids_of jobs

-- The jobs of the map, the newest first, and then, with a database, the rows of jobs that are not
-- in the map.
unfoldable pub listed_jobs : Backend → AppState → List Listed
listed_jobs backend state =
    let jobs = newest_first (values state.jobs) in
    if state.db
    then map live jobs
      ++ map persisted (keep (λ row. not (contains (ids_of jobs) row.id)) backend.recent_jobs)
    else map live jobs

module _ (backend : Backend) (headers : AuthHeaders) where
  abbrev pub guarded : AppState → AppState × Response → AppState × Response
  guarded state answer = guarded_by (require_auth backend.digest headers state) state answer

  abbrev pub submitted :
      AppState × Result BuildJobRecord (StatusCode × Message) → AppState × Response
  submitted (state, ok job) = (state, (accepted, job_body job))
  submitted (state, err (status, error)) = (state, (status, error_body error))

  unfoldable pub submit_build :
      AppState → BuildRequest → (id_now created_now : ℕ) → AppState × Response
  submit_build state request id_now created_now =
      guarded state (submitted (enqueue_build state request (text "http") id_now created_now))

  -- One pass of the sync, with the rows and the requests to GitHub so far.
  abbrev pub synced : SyncState × List SyncOutcome → SyncState × Response
  synced (s, outcomes) = (s, (StatusCode.ok, outcomes_body outcomes))

  abbrev pub guarded_sync :
      Result (Unit {0}) Response → SyncState → SyncState × Response → SyncState × Response
  guarded_sync (err refused) s answer = (record s { app = count_rejected s.app }, refused)
  guarded_sync (ok _) s answer = answer

  unfoldable pub sync_secrets : SyncServices → SyncState → SyncState × Response
  sync_secrets services s = guarded_sync (require_auth backend.digest headers s.app) s (
      if s.app.config.gh_sync_enabled then synced (sync_all services s) else (
        s,
        (
          service_unavailable,
          error_body (message "gh secret sync is disabled by BUILD_SERVER_GH_SYNC_ENABLED=false"),
        ),
      ))

  unfoldable pub sync_secrets_status : (runs : List SyncRun) → AppState → AppState × Response
  sync_secrets_status runs state =
      guarded state (state, (StatusCode.ok, runs_body (if state.db then runs else [])))

  unfoldable pub list_builds : AppState → AppState × Response
  list_builds state = guarded state (state, (StatusCode.ok, jobs_body (listed_jobs backend state)))

  abbrev pub found_job : Option BuildJobRecord → (BuildJobRecord → Response) → Response
  found_job none answer = not_found_body (message "build job not found")
  found_job (some job) answer = answer job

  unfoldable pub get_build : AppState → (job_id : Text) → AppState × Response
  get_build state job_id =
      guarded state
        (state, found_job (lookup job_id state.jobs) (λ job. (StatusCode.ok, job_body job)))

  abbrev pub log_response : FileResult → Response
  log_response (file body) = (StatusCode.ok, text_body body)
  log_response no_file = not_found_body (message "build log not found")
  log_response (file_error error) =
      (internal_server_error, error_body (lit "failed to read build log: " ∷ error))

  unfoldable pub get_build_logs : AppState → (job_id : Text) → AppState × Response
  get_build_logs state job_id = guarded state (
    state,
    found_job (lookup job_id state.jobs) (λ job. log_response (backend.read_file job.log_path)),
  )

  abbrev pub artifact_response : (job_id : Text) → FileResult → Response
  artifact_response job_id (file contents) =
      (StatusCode.ok, archive_body (job_id ++ text "-artifacts.tar.gz") contents)
  artifact_response job_id no_file = not_found_body (message "build artifacts not found")
  artifact_response job_id (file_error error) =
      (internal_server_error, error_body (lit "failed to open build artifacts: " ∷ error))

  unfoldable pub get_build_artifacts : AppState → (job_id : Text) → AppState × Response
  get_build_artifacts state job_id = guarded state (
    state,
    found_job (lookup job_id state.jobs) (λ job. artifact_response job_id (
        backend.read_file
          (push_path (push_path state.config.work_root job_id) (text "artifacts.tar.gz")))),
  )

unfoldable pub build_dependencies_ready : Backend → Config → Bool
build_dependencies_ready backend config =
    is_some config.server_auth_secret
    && backend.path_exists config.work_root
    && backend.executable_available config.git_bin
    && backend.executable_available config.nerdctl_bin
    && backend.executable_available config.tar_bin
    && (not config.deploy_enabled || backend.executable_available config.kubectl_bin)

unfoldable pub readyz : Backend → AppState → Response
readyz backend state =
    let ready = build_dependencies_ready backend state.config in
    (if ready then StatusCode.ok else service_unavailable, ready_body ready)
