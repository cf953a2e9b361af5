-- ===== src/Tests/Http.antt =====
-- Tests of the handlers.
use gha_indie_worker_rs.Prelude.{true, none, some, [], ◌∷◌, ◌≡◌, if◌then◌else◌}
use mathlib.Core.List.{Perm}
use gha_indie_worker_rs.Text.{Text, text}
use gha_indie_worker_rs.State.{AppState}
use gha_indie_worker_rs.Tests.Validation.{code}
use gha_indie_worker_rs.Jobs.Map.{values}
use gha_indie_worker_rs.Http.{
  AuthHeaders, Backend, PersistedJob, request_is_authorized, no_file, submit_build,
  sync_secrets_status, list_builds, get_build, get_build_logs, get_build_artifacts, listed_jobs,
}
use gha_indie_worker_rs.Http.Laws.{IsAuthorized, IsRejected, handlers-IsRejected}
use gha_indie_worker_rs.Http.Listing.{
  live_jobs, persisted_rows, unknown_rows, IsNewestFirst, listed_jobs-IsNewestFirst,
}
use gha_indie_worker_rs.Tests.Data.{initial, profile_request, after_one}

-- A row of the database.
abbrev row : Text → PersistedJob
row id = record {
  id = id;
  status = text "succeeded";
  job_kind = text "run-profile";
  source = text "http";
  executor = text "local";
  repo_url = text "https://github.com/acme/app.git";
  git_ref = none;
  image = none;
  error = none;
}

abbrev backend : Backend
backend = record {
  digest = λ t. t;
  read_file = λ path. no_file;
  recent_jobs = row (text "build-1-1") ∷ row (text "build-7-1") ∷ [];
  path_exists = λ path. true;
  executable_available = λ name. true;
}

abbrev headers : AuthHeaders
headers = record {
  x_server_auth = some (some (text "guess"));
  x_build_server_auth = none;
  x_agent_auth = none;
}

-- A server with a secret, which the headers do not present.
abbrev secured : AppState
secured = record initial {
  config = record initial.config { server_auth_secret = some (text "secret") };
}

wrong_guess : IsAuthorized backend.digest headers (some (text "secret")) → ⊥
unfolding code request_is_authorized
wrong_guess h = cc

handlers-IsRejected_example :
    IsRejected secured (submit_build backend headers secured profile_request 7 7)
    × IsRejected secured (list_builds backend headers secured)
    × IsRejected secured (get_build backend headers secured (text "build-7-1"))
    × IsRejected secured (get_build_logs backend headers secured (text "build-7-1"))
    × IsRejected secured (get_build_artifacts backend headers secured (text "build-7-1"))
    × IsRejected secured (sync_secrets_status backend headers [] secured)
handlers-IsRejected_example =
    handlers-IsRejected backend headers secured wrong_guess profile_request 7 7 []
      (text "build-7-1")

listed_jobs-IsNewestFirst_example :
    Perm (live_jobs (listed_jobs backend after_one)) (values after_one.jobs)
    × IsNewestFirst (live_jobs (listed_jobs backend after_one))
    × (persisted_rows (listed_jobs backend after_one)
        ≡ (if after_one.db then unknown_rows after_one backend.recent_jobs else []))
listed_jobs-IsNewestFirst_example = listed_jobs-IsNewestFirst backend after_one
