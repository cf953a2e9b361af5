-- ===== src/Jobs/System/Runs.antt =====
-- src/jobs.rs: runs of the server, and the jobs along them.
use gha_indie_worker_rs.Prelude.{
  ℕ, suc, ◌+◌, ◌^◌, ◌≤◌, ◌<◌, ◌≡◌, refl, ap, inl, inr, ◌++◌, Option, none, some, arith, length,
  drop,
}
use gha_indie_worker_rs.Text.{Text}
use gha_indie_worker_rs.Fiducia.{LockGrant}
use gha_indie_worker_rs.Types.{
  BuildStatus, BuildJobRecord, BuildRequest, queued, running, succeeded, failed,
}
use gha_indie_worker_rs.Jobs.Map.{lookup}
use gha_indie_worker_rs.Jobs.Enqueue.{Outcome, enqueue_build}
use gha_indie_worker_rs.Jobs.Claims.Cases.{
  Enqueued, refused, reattached, conflicting, full, accepted, enqueue_build_cases,
}
use gha_indie_worker_rs.Jobs.Claims.Ids.{IsOld, IsOld-mono, lookup-IsOld}
use gha_indie_worker_rs.Jobs.Run.{as_running, take_permit, on_lock, release, clean_up, leave_job}
use gha_indie_worker_rs.Jobs.System.{
  waiting, locking, starting, executing, cleaning, leaving, concluding, finished, System, phase_of,
  spawned, Step, submit, permit, closed, lock, start, finish, clean, leave, conclude, Reach, here,
  next,
}
use gha_indie_worker_rs.Jobs.System.Consistent.{Step-IsConsistent}
use gha_indie_worker_rs.Jobs.System.Lifecycle.{
  status_of, Later, Later-trans, Lifecycle-Later, started, failed_early,
}
use gha_indie_worker_rs.Jobs.System.Agree.{job_of_task}
use gha_indie_worker_rs.Jobs.System.Refines.{
  IsLive, IsFollowed, on_lock-AfterLock, goes-IsFollowed, updates-IsFollowed, lock-IsFollowed,
  Untouched-release, Untouched-clean_up, Untouched-leave_job, conclude-IsFollowed,
}
use gha_indie_worker_rs.Jobs.System.Follows.{
  queue_closed-IsUpdate, start_job-IsUpdate, idle-IsFollowed, accept-IsFollowed,
}

-- The system after a submission with this outcome.
abbrev submitted_to : System → Outcome → System
submitted_to s o = record {
  app = o.0;
  tasks = s.tasks ++ spawned (drop (length s.app.calls) o.0.calls);
}

Enqueued-IsFollowed :
    (s : System) (request : BuildRequest) (source : Text) (id_now created_now : ℕ) (o : Outcome)
    → IsLive s
    → s.app.counters.submitted + 1 < 2 ^ 64
    → Enqueued s.app request source id_now created_now o
    → IsFollowed s (submitted_to s o)
Enqueued-IsFollowed s request source id_now created_now o h small (refused e _ out) =
    rw out (idle-IsFollowed s _ h (refl, refl) refl)
Enqueued-IsFollowed s request source id_now created_now o h small (reattached r job _ _ _ _ out) =
    rw out (idle-IsFollowed s _ h (refl, refl) refl)
Enqueued-IsFollowed s request source id_now created_now o h small (conflicting r job _ _ _ _ out) =
    rw out (idle-IsFollowed s _ h (refl, refl) refl)
Enqueued-IsFollowed s request source id_now created_now o h small (full _ _ _ out) =
    rw out (idle-IsFollowed s _ h (refl, refl) refl)
Enqueued-IsFollowed s request source id_now created_now o h small (accepted _ _ _ out) =
    rw out (accept-IsFollowed s h small request source id_now created_now)

Step-IsFollowed :
    (s t : System) → IsLive s → s.app.counters.submitted + 1 < 2 ^ 64 → Step s t → IsFollowed s t
Step-IsFollowed s t h small (submit request source id_now created_now app e) = rw e (
    Enqueued-IsFollowed s request source id_now created_now
      (enqueue_build s.app request source id_now created_now) h small
      (enqueue_build_cases s.app request source id_now created_now h.consistent))
Step-IsFollowed s t h small (permit id e free) =
    goes-IsFollowed s h id waiting locking e (take_permit s.app) (refl, refl) refl
Step-IsFollowed s t h small (closed id error now e) =
    updates-IsFollowed s h id waiting finished e _ _ queued failed
      (queue_closed-IsUpdate s.app id error now) refl (λ job. refl) refl failed_early
Step-IsFollowed s t h small (lock id outcome now e) =
    lock-IsFollowed s id now (on_lock s.app id outcome now) h e
      (on_lock-AfterLock s.app id outcome now)
Step-IsFollowed s t h small (start id grant now e) =
    updates-IsFollowed s h id (starting grant) (executing grant) e _ (as_running grant now.at)
      queued running (start_job-IsUpdate s.app id grant now) refl (λ job. refl) refl started
Step-IsFollowed s t h small (finish id grant result e) =
    goes-IsFollowed s h id (executing grant) (cleaning result) e (release s.app grant)
      (Untouched-release s.app grant) refl
Step-IsFollowed s t h small (clean id result e) =
    goes-IsFollowed s h id (cleaning result) (leaving result) e (clean_up s.app id)
      (Untouched-clean_up s.app id) refl
Step-IsFollowed s t h small (leave id result e) =
    goes-IsFollowed s h id (leaving result) (concluding result) e (leave_job s.app result)
      (Untouched-leave_job s.app result) refl
Step-IsFollowed s t h small (conclude id result now e) = conclude-IsFollowed s id result now h e

Step-IsLive :
    (s t : System) → IsLive s → s.app.counters.submitted + 1 < 2 ^ 64 → Step s t → IsLive t
Step-IsLive s t h small step =
    let f = Step-IsFollowed s t h small step in
    record {
      consistent = Step-IsConsistent s t h.consistent small step;
      below = f.below;
      distinct = f.distinct;
      agree = f.agree;
    }

-- The steps of a run.
unfoldable pub steps : {s t : System} → Reach s t → ℕ
steps here = 0
steps (next run step) = suc (steps run)

-- What a run from `s` to `t` does to the jobs: one that `s` retains has the same status in `t` or has
-- come further; and an id that was used before `s` and has no job in `s` has none in `t`.
pub record Life (s t : System) : Type 0 where
  pub retained :
      (id : Text) (job : BuildJobRecord)
      → lookup id s.app.jobs ≡ some job
      → Later (some job.status) (status_of (lookup id t.app.jobs))
  pub forgotten :
      (id : Text)
      → IsOld s.app.counters.submitted id
      → lookup id s.app.jobs ≡ none
      → lookup id t.app.jobs ≡ none

-- What a run from `s` to `t` has kept, in `n` steps.
record IsLived (s t : System) (n : ℕ) : Type 0 where
  live : IsLive t
  lived :
      (id : Text)
      → IsOld s.app.counters.submitted id
      → Later (status_of (lookup id s.app.jobs)) (status_of (lookup id t.app.jobs))
  grown : s.app.counters.submitted ≤ t.app.counters.submitted
  counted : t.app.counters.submitted ≤ s.app.counters.submitted + n

status_of-eq-none : (found : Option BuildJobRecord) → status_of found ≡ none → found ≡ none
status_of-eq-none none h = refl
status_of-eq-none (some job) h = cc

IsFollowed-Later :
    (s t : System) (id : Text)
    → IsFollowed s t
    → IsOld s.app.counters.submitted id
    → Later (status_of (lookup id s.app.jobs)) (status_of (lookup id t.app.jobs))
IsFollowed-Later s t id f old =
    Lifecycle-Later _ _ (f.lives id)
      (λ e. ap status_of (f.stays_absent id old (status_of-eq-none _ e)))

run-IsLived :
    (s t : System)
    → IsLive s
    → (run : Reach s t) → s.app.counters.submitted + steps run < 2 ^ 64
    → IsLived s t (steps run)
unfolding steps
run-IsLived s t h here small = record {
  live = h;
  lived = λ id _. inr refl;
  grown = omega arith;
  counted = omega arith;
}
run-IsLived s t h (next {t = u} run step) small =
    let sofar = run-IsLived s u h run (omega arith) in
    let f = Step-IsFollowed u t sofar.live (omega (arith, sofar.counted)) step in
    record {
      live = Step-IsLive u t sofar.live (omega (arith, sofar.counted)) step;
      lived = λ id old.
          Later-trans _ _ _ (sofar.lived id old)
            (IsFollowed-Later u t id f (IsOld-mono _ _ id sofar.grown old));
      grown = omega (arith, f.grown, sofar.grown);
      counted = omega (arith, f.counted, sofar.counted);
    }

absent-Later : (found : Option BuildJobRecord) → Later none (status_of found) → found ≡ none
absent-Later none h = refl
absent-Later (some job) h = absurd (further job.status h)
  where
    further : (status : BuildStatus) → Later none (some status) → ⊥
    further queued (inl lt) = omega arith
    further running (inl lt) = omega arith
    further succeeded (inl lt) = omega arith
    further failed (inl lt) = omega arith
    further status (inr e) = cc

-- In a run from a state with the invariants of the claims and of the tasks, where the counter of
-- submissions does not wrap around, the invariants hold at the end. Each job that is retained at the
-- start has at the end its status, or is further on in its life: from queued to running, to its end
-- as succeeded or failed, and to being forgotten; so it never goes back, and its end is not revised.
-- An id that was used before the run, and has no job at its start, has none at its end.
pub Reach-Life :
    (s t : System)
    → IsLive s
    → (run : Reach s t) → s.app.counters.submitted + steps run < 2 ^ 64
    → IsLive t × Life s t
Reach-Life s t h run small =
    let r = run-IsLived s t h run small in
    (
      r.live,
      record {
        retained = λ id job e. rw e at (
            r.lived id
              (lookup-IsOld s.app.counters.submitted id job s.app.jobs h.consistent.fresh e));
        forgotten = λ id old e. absent-Later (lookup id t.app.jobs) (rw e at (r.lived id old));
      },
    )

-- In such a run, a task whose job executes finds its job in the map, as running: pruning has not
-- taken it.
pub executing_has_job :
    (s t : System) (id : Text) (grant : Option LockGrant)
    → IsLive s
    → (run : Reach s t) → s.app.counters.submitted + steps run < 2 ^ 64
    → phase_of id t.tasks ≡ some (executing grant)
    → (job : BuildJobRecord) × (lookup id t.app.jobs ≡ some job) × (job.status ≡ running)
executing_has_job s t id grant h run small e =
    job_of_task t.tasks t.app.jobs id (executing grant) running
      (run-IsLived s t h run small).live.agree e refl
