-- ===== src/Jobs/System.antt =====
-- src/jobs.rs: the server as a system of tasks. Each accepted job has a task that runs `run_job`;
-- submissions and the pieces of the tasks come in any order.
pub mod Store
pub mod Permits
pub mod Gauges
pub mod Steps
pub mod Consistent
pub mod Tasks
pub mod Lifecycle
pub mod Agree
pub mod Refines
pub mod Follows
pub mod Runs
pub mod Work
pub mod Progress
pub mod Drain
use gha_indie_worker_rs.Prelude.{
  ℕ, zero, suc, ◌+◌, ◌<◌, ◌≡◌, Bool, true, false, Option, none, some, List, [], ◌∷◌, ◌++◌, length,
  drop, Result, if◌then◌else◌,
}
use gha_indie_worker_rs.Text.{Text, text_eq}
use gha_indie_worker_rs.Message.{Message}
use gha_indie_worker_rs.Types.{BuildRequest, BuildJobRecord}
use gha_indie_worker_rs.State.{AppState, Call, spawn_run_job}
use gha_indie_worker_rs.Fiducia.{LockGrant, LockOutcome}
use gha_indie_worker_rs.Jobs.Enqueue.{enqueue_build}
use gha_indie_worker_rs.Jobs.Run.{
  Readings, take_permit, queue_closed, on_lock, Decision, stop, proceed, start_job, release,
  clean_up, leave_job, conclude_job,
}

-- Where a task stands: before its permit, before the lock's outcome, before the start of the job,
-- in the execution, before the removal of the clone, before it drops its permit, before the update
-- with its result, or at its end.
pub data Phase : Type 0 where
  waiting locking : Phase
  starting executing : Option LockGrant → Phase
  cleaning leaving concluding : Result (Unit {0}) Message → Phase
  finished : Phase

abbrev pub Tasks : Type 0
Tasks = List (Text × Phase)

pub record System : Type 0 where
  pub app : AppState
  pub tasks : Tasks

unfoldable pub phase_of : Text → Tasks → Option Phase
phase_of id [] = none
phase_of id ((k, p) ∷ tasks) = if text_eq k id then some p else phase_of id tasks

unfoldable pub set_phase : Text → Phase → Tasks → Tasks
set_phase id p [] = []
set_phase id p ((k, q) ∷ tasks) =
    if text_eq k id then (k, p) ∷ tasks else (k, q) ∷ set_phase id p tasks

-- The tasks that a list of calls starts.
unfoldable pub spawned : List Call → Tasks
spawned [] = []
spawned (spawn_run_job id ∷ calls) = (id, waiting) ∷ spawned calls
spawned (_ ∷ calls) = spawned calls

abbrev pub after_lock : Decision → Phase
after_lock stop = finished
after_lock (proceed grant) = starting grant

-- One step; a whole call of `enqueue_build` is one. The lock's outcome and the result of the execution
-- are any. A job that is not in the map takes no lock, which leaves behind what the outcome `disabled`
-- does.
pub data Step (s : System) : System → Type 0 where
  submit :
      (request : BuildRequest) (source : Text) (id_now created_now : ℕ)
      → (app : AppState) → app ≡ (enqueue_build s.app request source id_now created_now).0
      → Step s
          (record { app = app; tasks = s.tasks ++ spawned (drop (length s.app.calls) app.calls) })
  permit :
      (id : Text)
      → phase_of id s.tasks ≡ some waiting
      → 0 < s.app.permits
      → Step s (record { app = take_permit s.app; tasks = set_phase id locking s.tasks })
  closed :
      (id : Text) (error : Message) (now : Readings)
      → phase_of id s.tasks ≡ some waiting
      → Step s
          (record { app = queue_closed s.app id error now; tasks = set_phase id finished s.tasks })
  lock :
      (id : Text) (outcome : LockOutcome) (now : Readings)
      → phase_of id s.tasks ≡ some locking
      → Step s (record {
        app = (on_lock s.app id outcome now).0;
        tasks = set_phase id (after_lock (on_lock s.app id outcome now).1) s.tasks;
      })
  start :
      (id : Text) (grant : Option LockGrant) (now : Readings)
      → phase_of id s.tasks ≡ some (starting grant)
      → Step s (record {
        app = start_job s.app id grant now;
        tasks = set_phase id (executing grant) s.tasks;
      })
  finish :
      (id : Text) (grant : Option LockGrant) (result : Result (Unit {0}) Message)
      → phase_of id s.tasks ≡ some (executing grant)
      → Step s
          (record { app = release s.app grant; tasks = set_phase id (cleaning result) s.tasks })
  clean :
      (id : Text) (result : Result (Unit {0}) Message)
      → phase_of id s.tasks ≡ some (cleaning result)
      → Step s (record { app = clean_up s.app id; tasks = set_phase id (leaving result) s.tasks })
  leave :
      (id : Text) (result : Result (Unit {0}) Message)
      → phase_of id s.tasks ≡ some (leaving result)
      → Step s (record {
        app = leave_job s.app result;
        tasks = set_phase id (concluding result) s.tasks;
      })
  conclude :
      (id : Text) (result : Result (Unit {0}) Message) (now : Readings)
      → phase_of id s.tasks ≡ some (concluding result)
      → Step s
          (record { app = conclude_job s.app id result now; tasks = set_phase id finished s.tasks })

pub data Reach (s : System) : System → Type 0 where
  here : Reach s s
  next : {t u : System} → Reach s t → Step t u → Reach s u
