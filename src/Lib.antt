-- ===== src/Lib.antt =====
-- The build server of this repository, as a library of its core logic.
--
-- The server takes build requests over HTTP, from webhooks and from NATS, validates them
-- (src/validation.rs), admits them to a bounded queue with one job for each request id
-- (src/jobs.rs: enqueue_build), runs each job as a task under a semaphore and a lock of the fiducia
-- service (src/jobs.rs: run_job; src/fiducia.rs), and reports the life of a job as events
-- (src/events.rs). The files:
--
-- Prelude, Text, Json and Message hold what the parts share: tests on numbers, lists, Rust's
-- Result; str and String as lists of scalar values with their length in UTF-8; JSON values; the
-- pieces of a formatted message. Types, Rules, Config and State are the records of src/types.rs,
-- src/webhooks.rs, src/gh_secrets.rs, src/config.rs and src/state.rs. State.AppState holds the job
-- map, the permits of the semaphore, the counters, the claimed request ids and, in order, the calls
-- that leave the process. JSON values have no arrays and no negative or fractional numbers: the
-- code that is modelled reads none of these, and takes each as it takes null.
--
-- Validation is src/validation.rs (Fields, Paths, Rollout, Requests), with the profiles of
-- src/profiles.rs in Profiles and the ECR references of src/ecr.rs in Ecr.
-- Jobs is src/jobs.rs: Map and Store (update_job, prune_jobs), Requests (requests_match), Enqueue
-- (enqueue_build, and map_enqueue_result of src/nats_submit.rs), Nats (submit_from_nats of
-- src/nats_submit.rs and of src/jobs.rs), Run (run_job, cut where it waits),
-- System (all tasks together, as a step relation; Lifecycle, Agree, Refines, Follows and Runs follow
-- each job along a run, Work, Progress and Drain the tasks to their ends), Claims (the invariant of the request
-- ids), Execute (resolve_repo_path, clone_repository, execute_profile; Build is execute_build and
-- login_to_ecr of src/ecr.rs). Exec is src/exec.rs: Display (command lines in the log), Log
-- (append_log on the bytes of the file), Host (the actions of an execution in order, with the answers
-- of the host as an argument), Run (run_logged_command), Keeps (a logic for executions).
-- Fiducia is src/fiducia.rs: the policy for the URL (Url), the lock loop and the idempotency claim.
-- Events is src/events.rs. Config.Env holds the readers of environment variables of src/config.rs, and
-- Config.Load config_from_env. GhSecrets is src/gh_secrets.rs: the rules, and in Sync a pass of the
-- sync with its rows of src/db.rs. Http is src/http.rs: the authorization and the handlers.
-- Webhooks is src/webhooks.rs: Matching (rules) and Github (github_webhook). HostedCi is
-- src/hosted_ci.rs. Tests applies the theorems to inputs.
--
-- Code outside the repository is an argument: the clock's readings, the answers of fiducia, NATS
-- and Postgres, hex, HMAC and the JSON parser (Webhooks.Github.Services), and the execution of a job.
-- In System, enqueue_build is one atomic step, which the source does not guarantee: it lets go of the
-- job map between the backpressure test and the insertion, and of the lock on the request ids before
-- it persists the job and prunes, and what others do in between is not modelled. run_job is cut at its
-- waits for the permit, the lock service, the execution, the release of the lock, the removal of the
-- clone and the update of the record; an update with the calls that it makes is one step. A HashMap is
-- an association list whose order stands for the order in which the map happens to be read. The loop
-- of acquire_lock runs on fuel: a fuel above the wait budget in milliseconds is enough.
--
-- The commands of an execution, the paths of the file system and the ECR token are answers of the
-- host, each of which may depend on all actions before it. The path of the log is that of the job, so an
-- action of logging holds the text alone. The loop of trim_start_matches runs on the length of its text.
--
-- Not modelled: the Lambda executor (src/lambda_exec.rs), the upsert and the listing of job rows
-- (src/db.rs, src/entity), the periodic loop of the secret sync (src/gh_secrets.rs), the routes, the
-- description, health and metrics pages (src/http.rs), registry notifications (src/webhooks.rs), the
-- request and signature for an ECR token (src/ecr.rs), the NATS intake loop (src/events.rs), and
-- start-up (src/main.rs): calls of services, or constants.
pub mod Prelude
pub mod Text
pub mod Json
pub mod Message
pub mod Types
pub mod Rules
pub mod Config
pub mod Profiles
pub mod State
pub mod Events
pub mod GhSecrets
pub mod HostedCi
pub mod Http
pub mod Ecr
pub mod Validation
pub mod Exec
pub mod Fiducia
pub mod Jobs
pub mod Webhooks
pub mod Tests
