-- ===== src/Jobs/System/Refines.antt =====
-- src/jobs.rs: the server refines the life of its jobs. Each step of the system takes each job id one
-- step along its life, and keeps the tasks and the job map in agreement.
use gha_indie_worker_rs.Prelude.{
  ◌+◌, ◌≤◌, ◌≡◌, refl, Bool, true, false, Option, none, some, arith, Result, ok, err, if◌then◌else◌,
}
use gha_indie_worker_rs.Text.{Text}
use gha_indie_worker_rs.Message.{Message}
use gha_indie_worker_rs.Types.{BuildStatus, BuildJobRecord, queued, running, succeeded, failed}
use gha_indie_worker_rs.State.{AppState}
use gha_indie_worker_rs.Fiducia.{LockGrant, LockOutcome, disabled, acquired, busy, unavailable}
use gha_indie_worker_rs.Jobs.Map.{lookup}
use gha_indie_worker_rs.Jobs.Claims.Invariant.{IsConsistent}
use gha_indie_worker_rs.Jobs.Claims.Ids.{IsOld}
use gha_indie_worker_rs.Jobs.Run.{
  Readings, Decision, stop, proceed, on_lock, conclude_job, leave_job, as_ended, as_failed,
  as_succeeded, update, release, clean_up, count_failed, count_lock_failure, give_up,
}
use gha_indie_worker_rs.Jobs.System.{
  Phase, locking, starting, concluding, finished, System, phase_of, set_phase, after_lock,
}
use gha_indie_worker_rs.Jobs.System.Store.{SameCore-update_job, modified}
use gha_indie_worker_rs.Jobs.System.Tasks.{
  DistinctTasks, DistinctTasks-set_phase, TasksBelow, TasksBelow-set_phase,
}
use gha_indie_worker_rs.Jobs.System.Lifecycle.{
  status_of, only_active, Lifecycle, unchanged, failed_early, succeeded_after, failed_after,
}
use gha_indie_worker_rs.Jobs.System.Agree.{
  Agree, Lives, absent-modified, Agree-set_phase, Agree-modified, Lives-modified, phase_status,
}

-- What holds of the system between two steps.
pub record IsLive (s : System) : Type 0 where
  pub consistent : IsConsistent s.app
  pub below : TasksBelow s.app.counters.submitted s.tasks
  pub distinct : DistinctTasks s.tasks
  pub agree : Agree s.tasks s.app.jobs

-- An update of the job of a task, and beyond that nothing that the tasks depend on.
pub record IsUpdate (s t : AppState) (id : Text) (mutate : BuildJobRecord → BuildJobRecord)
    : Type 0 where
  pub jobs : t.jobs ≡ modified id mutate s.jobs
  pub submitted : t.counters.submitted ≡ s.counters.submitted

pub update-IsUpdate :
    (s : AppState) (id : Text) (mutate : BuildJobRecord → BuildJobRecord) (now : Readings)
    → IsUpdate s (update s id mutate now) id mutate
update-IsUpdate s id mutate now =
    let core = SameCore-update_job s id mutate now.event now.critical in
    record { jobs = core.jobs; submitted = core.submitted }

-- The job map and the counter of submissions as they were.
abbrev pub Untouched : AppState → AppState → Type 0
Untouched s t = (t.jobs ≡ s.jobs) × (t.counters.submitted ≡ s.counters.submitted)

pub Untouched-release : (s : AppState) (grant : Option LockGrant) → Untouched s (release s grant)
Untouched-release s none = (refl, refl)
Untouched-release s (some grant) = (refl, refl)

Untouched-if :
    (b : Bool) (s t u : AppState) → Untouched s t → Untouched s u → Untouched s (if b then t else u)
Untouched-if true s t u h k = h
Untouched-if false s t u h k = k

pub Untouched-clean_up : (s : AppState) (id : Text) → Untouched s (clean_up s id)
Untouched-clean_up s id = Untouched-if s.config.keep_workdirs s s _ (refl, refl) (refl, refl)

pub Untouched-leave_job :
    (s : AppState) (result : Result (Unit {0}) Message) → Untouched s (leave_job s result)
unfolding leave_job
Untouched-leave_job s (ok _) = (refl, refl)
Untouched-leave_job s (err error) = (refl, refl)

conclude_job-IsUpdate :
    (s : AppState) (id : Text) (result : Result (Unit {0}) Message) (now : Readings)
    → IsUpdate s (conclude_job s id result now) id (as_ended result now.at)
unfolding conclude_job
conclude_job-IsUpdate s id result now = update-IsUpdate s id (as_ended result now.at) now

-- After the lock, the task goes on with the job as it was, or it ends with the job failed.
pub data AfterLock (s : AppState) (id : Text) (now : Readings) (o : AppState × Decision)
    : Type 0 where
  goes_on :
      (grant : Option LockGrant) → o.1 ≡ proceed grant → Untouched s o.0 → AfterLock s id now o
  ends :
      (error : Message)
      → o.1 ≡ stop
      → IsUpdate s o.0 id (as_failed error now.at)
      → AfterLock s id now o

AfterLock-if :
    (b : Bool) (s : AppState) (id : Text) (now : Readings) (x y : AppState × Decision)
    → AfterLock s id now x
    → AfterLock s id now y
    → AfterLock s id now (if b then x else y)
AfterLock-if true s id now x y h k = h
AfterLock-if false s id now x y h k = k

give_up-IsUpdate :
    (s : AppState) (id : Text) (error : Message) (now : Readings)
    → IsUpdate s (give_up s id error now) id (as_failed error now.at)
give_up-IsUpdate s id error now =
    let h = update-IsUpdate (count_failed (count_lock_failure s)) id (as_failed error now.at) now in
    record { jobs = h.jobs; submitted = h.submitted }

pub on_lock-AfterLock :
    (s : AppState) (id : Text) (outcome : LockOutcome) (now : Readings)
    → AfterLock s id now (on_lock s id outcome now)
unfolding on_lock
on_lock-AfterLock s id disabled now = goes_on none refl (refl, refl)
on_lock-AfterLock s id (acquired grant) now = goes_on (some grant) refl (refl, refl)
on_lock-AfterLock s id (busy key) now = ends _ refl (give_up-IsUpdate s id _ now)
on_lock-AfterLock s id (unavailable error) now =
    AfterLock-if s.config.coordination_required s id now _ _
      (ends _ refl (give_up-IsUpdate s id _ now)) (goes_on none refl (refl, refl))

-- What a step has to keep, beyond the invariant of the claims.
pub record IsFollowed (s t : System) : Type 0 where
  pub below : TasksBelow t.app.counters.submitted t.tasks
  pub distinct : DistinctTasks t.tasks
  pub agree : Agree t.tasks t.app.jobs
  pub lives : Lives s.app.jobs t.app.jobs
  pub stays_absent :
      (id : Text)
      → IsOld s.app.counters.submitted id
      → lookup id s.app.jobs ≡ none
      → lookup id t.app.jobs ≡ none
  pub grown : s.app.counters.submitted ≤ t.app.counters.submitted
  pub counted : t.app.counters.submitted ≤ s.app.counters.submitted + 1

module _ (s : System) (h : IsLive s) (id : Text) (old new : Phase)
    (e : phase_of id s.tasks ≡ some old) where
  -- A task goes on and its job stays as it was.
  pub goes-IsFollowed :
      (app : AppState)
      → Untouched s.app app
      → phase_status (some new) ≡ phase_status (some old)
      → IsFollowed s (record { app = app; tasks = set_phase id new s.tasks })
  goes-IsFollowed app (jobs, submitted) same = record {
    below = rw submitted (TasksBelow-set_phase s.app.counters.submitted id new s.tasks h.below);
    distinct = DistinctTasks-set_phase id new s.tasks h.distinct;
    agree = rw jobs (Agree-set_phase s.tasks s.app.jobs id old new h.agree e same);
    lives = λ j. rw jobs (unchanged (status_of (lookup j s.app.jobs)));
    stays_absent = λ j _ absent. rw jobs absent;
    grown = rw submitted (omega arith);
    counted = rw submitted (omega arith);
  }

  -- A task goes on and updates its job.
  pub updates-IsFollowed :
      (app : AppState) (mutate : BuildJobRecord → BuildJobRecord) (before after : BuildStatus)
      → IsUpdate s.app app id mutate
      → phase_status (some old) ≡ some before
      → ((job : BuildJobRecord) → (mutate job).status ≡ after)
      → phase_status (some new) ≡ only_active after
      → Lifecycle (some before) (some after)
      → IsFollowed s (record { app = app; tasks = set_phase id new s.tasks })
  updates-IsFollowed app mutate before after u was becomes now life = record {
    below = rw u.submitted (TasksBelow-set_phase s.app.counters.submitted id new s.tasks h.below);
    distinct = DistinctTasks-set_phase id new s.tasks h.distinct;
    agree = rw u.jobs (
        Agree-modified s.tasks s.app.jobs id old new mutate before after h.agree e was becomes now);
    lives = rw u.jobs (
        Lives-modified s.tasks s.app.jobs id old new mutate before after h.agree e was becomes
          life);
    stays_absent = λ j _ absent. rw u.jobs (
        absent-modified s.tasks s.app.jobs id old new mutate before after h.agree e was becomes j
          absent);
    grown = rw u.submitted (omega arith);
    counted = rw u.submitted (omega arith);
  }

pub lock-IsFollowed :
    (s : System) (id : Text) (now : Readings) (o : AppState × Decision)
    → IsLive s
    → phase_of id s.tasks ≡ some locking
    → AfterLock s.app id now o
    → IsFollowed s (record { app = o.0; tasks = set_phase id (after_lock o.1) s.tasks })
lock-IsFollowed s id now o h e (goes_on grant d u) =
    rw d (goes-IsFollowed s h id locking (starting grant) e o.0 u refl)
lock-IsFollowed s id now o h e (ends error d u) = rw d (
    updates-IsFollowed s h id locking finished e o.0 (as_failed error now.at) queued failed u refl
      (λ job. refl) refl failed_early)

pub conclude-IsFollowed :
    (s : System) (id : Text) (result : Result (Unit {0}) Message) (now : Readings)
    → IsLive s
    → phase_of id s.tasks ≡ some (concluding result)
    → IsFollowed s
        (record { app = conclude_job s.app id result now; tasks = set_phase id finished s.tasks })
conclude-IsFollowed s id (ok u) now h e =
    updates-IsFollowed s h id (concluding (ok u)) finished e _ (as_succeeded now.at) running
      succeeded (conclude_job-IsUpdate s.app id (ok u) now) refl (λ job. refl) refl succeeded_after
conclude-IsFollowed s id (err error) now h e =
    updates-IsFollowed s h id (concluding (err error)) finished e _ (as_failed error now.at) running
      failed (conclude_job-IsUpdate s.app id (err error) now) refl (λ job. refl) refl failed_after
