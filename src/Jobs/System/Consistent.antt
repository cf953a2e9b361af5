-- ===== src/Jobs/System/Consistent.antt =====
-- src/jobs.rs: each step of the system keeps the invariant of the claims.
use gha_indie_worker_rs.Prelude.{
  ◌+◌, ◌^◌, ◌<◌, ◌≡◌, refl, ◌∙◌, Bool, true, false, Option, none, some, Result, ok, err,
  if◌then◌else◌,
}
use gha_indie_worker_rs.Text.{Text}
use gha_indie_worker_rs.Message.{Message}
use gha_indie_worker_rs.Types.{BuildJobRecord}
use gha_indie_worker_rs.State.{AppState, fetch_add}
use gha_indie_worker_rs.Fiducia.{LockGrant, LockOutcome, disabled, acquired, busy, unavailable}
use gha_indie_worker_rs.Jobs.Map.{lookup}
use gha_indie_worker_rs.Jobs.Map.Laws.{AllEntries-insert, AllEntries-lookup, Distinct-insert}
use gha_indie_worker_rs.Jobs.Enqueue.{has_request_id}
use gha_indie_worker_rs.Jobs.Claims.Holders.{count_holders-insert_same}
use gha_indie_worker_rs.Jobs.Claims.Invariant.{IsConsistent}
use gha_indie_worker_rs.Jobs.Claims.Enqueue.{enqueue_build-IsConsistent}
use gha_indie_worker_rs.Jobs.Run.{
  Readings, Decision, take_permit, queue_closed, on_lock, start_job, as_failed, leave_job,
  conclude_job, as_running, as_succeeded, update, release, clean_up, count_failed,
  count_lock_failure, count_lock_acquired, give_up,
}
use gha_indie_worker_rs.Jobs.System.{
  System, Step, submit, permit, closed, lock, start, finish, clean, leave, conclude,
}
use gha_indie_worker_rs.Jobs.System.Store.{SameCore-update_job, put_updated, modified}

-- The parts of the state that the invariant reads.
record SameClaims (s t : AppState) : Type 0 where
  jobs : t.jobs ≡ s.jobs
  claims : t.recent_request_ids ≡ s.recent_request_ids
  submitted : t.counters.submitted ≡ s.counters.submitted

SameClaims-IsConsistent : (s t : AppState) → SameClaims s t → IsConsistent s → IsConsistent t
SameClaims-IsConsistent s t e h = record {
  held = λ r. rw (e.jobs, e.claims) (h.held r);
  fresh = rw (e.jobs, e.submitted) h.fresh;
  keyed = rw e.jobs h.keyed;
  distinct = rw e.jobs h.distinct;
}

-- An update that keeps the id and the request of a job.
abbrev Keeps : (BuildJobRecord → BuildJobRecord) → Type 0
Keeps mutate =
    (job : BuildJobRecord) → ((mutate job).id ≡ job.id) × ((mutate job).request ≡ job.request)

same_request :
    (r : Text) (a b : BuildJobRecord)
    → a.request ≡ b.request
    → has_request_id r a ≡ has_request_id r b
unfolding has_request_id
same_request r a b e = rw e refl

put_updated-IsConsistent :
    (s : AppState) (id : Text) (mutate : BuildJobRecord → BuildJobRecord)
    (found : Option BuildJobRecord)
    → Keeps mutate
    → lookup id s.jobs ≡ found
    → IsConsistent s
    → IsConsistent (record s { jobs = put_updated id mutate found s.jobs })
put_updated-IsConsistent s id mutate none k e h = record {
  held = h.held;
  fresh = h.fresh;
  keyed = h.keyed;
  distinct = h.distinct;
}
put_updated-IsConsistent s id mutate (some job) k e h = record {
  held = λ r.
      count_holders-insert_same r id (mutate job) job s.jobs e
        (same_request r (mutate job) job (k job).1)
      ∙ h.held r;
  fresh =
      AllEntries-insert _ id (mutate job) s.jobs (AllEntries-lookup _ id s.jobs h.fresh e) h.fresh;
  keyed =
      AllEntries-insert (λ key j. j.id ≡ key) id (mutate job) s.jobs
        ((k job).0 ∙ AllEntries-lookup (λ key j. j.id ≡ key) id s.jobs h.keyed e) h.keyed;
  distinct = Distinct-insert id (mutate job) s.jobs h.distinct;
}

update-IsConsistent :
    (s : AppState) (id : Text) (mutate : BuildJobRecord → BuildJobRecord) (now : Readings)
    → Keeps mutate
    → IsConsistent s
    → IsConsistent (update s id mutate now)
update-IsConsistent s id mutate now k h =
    let core = SameCore-update_job s id mutate now.event now.critical in
    SameClaims-IsConsistent (record s { jobs = modified id mutate s.jobs }) (update s id mutate now)
      (record { jobs = core.jobs; claims = core.claims; submitted = core.submitted })
      (put_updated-IsConsistent s id mutate (lookup id s.jobs) k refl h)

release-SameClaims : (s : AppState) (grant : Option LockGrant) → SameClaims s (release s grant)
release-SameClaims s none = record { jobs = refl; claims = refl; submitted = refl }
release-SameClaims s (some grant) = record { jobs = refl; claims = refl; submitted = refl }

-- A state with the same claims by definition.
same_claims :
    (s t : AppState)
    → t.jobs ≡ s.jobs
    → t.recent_request_ids ≡ s.recent_request_ids
    → t.counters.submitted ≡ s.counters.submitted
    → IsConsistent s
    → IsConsistent t
same_claims s t j c n = SameClaims-IsConsistent s t (record { jobs = j; claims = c; submitted = n })

IsConsistent-if :
    (b : Bool) (s t : AppState)
    → IsConsistent s
    → IsConsistent t
    → IsConsistent (if b then s else t)
IsConsistent-if true s t h k = h
IsConsistent-if false s t h k = k

IsConsistent-decided :
    (b : Bool) (x y : AppState × Decision)
    → IsConsistent x.0
    → IsConsistent y.0
    → IsConsistent (if b then x else y).0
IsConsistent-decided true x y h k = h
IsConsistent-decided false x y h k = k

clean_up-IsConsistent : (s : AppState) (id : Text) → IsConsistent s → IsConsistent (clean_up s id)
clean_up-IsConsistent s id h =
    IsConsistent-if s.config.keep_workdirs s _ h (same_claims s _ refl refl refl h)

conclude_job-IsConsistent :
    (s : AppState) (id : Text) (result : Result (Unit {0}) Message) (now : Readings)
    → IsConsistent s
    → IsConsistent (conclude_job s id result now)
unfolding conclude_job
conclude_job-IsConsistent s id (ok _) now h =
    update-IsConsistent s id (as_succeeded now.at) now (λ job. (refl, refl)) h
conclude_job-IsConsistent s id (err e) now h =
    update-IsConsistent s id (as_failed e now.at) now (λ job. (refl, refl)) h

leave_job-IsConsistent :
    (s : AppState) (result : Result (Unit {0}) Message)
    → IsConsistent s
    → IsConsistent (leave_job s result)
unfolding leave_job
leave_job-IsConsistent s (ok _) h = same_claims s _ refl refl refl h
leave_job-IsConsistent s (err error) h = same_claims s _ refl refl refl h

give_up-IsConsistent :
    (s : AppState) (id : Text) (error : Message) (now : Readings)
    → IsConsistent s
    → IsConsistent (give_up s id error now)
give_up-IsConsistent s id error now h =
    let failed = count_failed (count_lock_failure s) in
    same_claims (update failed id (as_failed error now.at) now) (give_up s id error now) refl refl
      refl
      (update-IsConsistent failed id (as_failed error now.at) now (λ job. (refl, refl))
        (same_claims s failed refl refl refl h))

on_lock-IsConsistent :
    (s : AppState) (id : Text) (outcome : LockOutcome) (now : Readings)
    → IsConsistent s
    → IsConsistent (on_lock s id outcome now).0
unfolding on_lock
on_lock-IsConsistent s id disabled now h = h
on_lock-IsConsistent s id (acquired grant) now h =
    same_claims s (count_lock_acquired s) refl refl refl h
on_lock-IsConsistent s id (busy key) now h = give_up-IsConsistent s id _ now h
on_lock-IsConsistent s id (unavailable error) now h =
    IsConsistent-decided s.config.coordination_required _ _ (give_up-IsConsistent s id _ now h)
      (same_claims s (count_lock_failure s) refl refl refl h)

queue_closed-IsConsistent :
    (s : AppState) (id : Text) (error : Message) (now : Readings)
    → IsConsistent s
    → IsConsistent (queue_closed s id error now)
unfolding queue_closed
queue_closed-IsConsistent s id error now h =
    update-IsConsistent s id (as_failed _ now.at) now (λ job. (refl, refl)) h

start_job-IsConsistent :
    (s : AppState) (id : Text) (grant : Option LockGrant) (now : Readings)
    → IsConsistent s
    → IsConsistent (start_job s id grant now)
unfolding start_job
start_job-IsConsistent s id grant now h =
    let counted = record s {
      counters = record s.counters { running = fetch_add s.counters.running };
    } in
    update-IsConsistent counted id (as_running grant now.at) now (λ job. (refl, refl))
      (same_claims s counted refl refl refl h)

-- Each step of the system, of a submission or of a job's task, from a consistent state where the
-- counter of submissions does not wrap around, leaves a consistent state: no task disturbs the
-- claims of the request ids.
pub Step-IsConsistent :
    (s t : System)
    → IsConsistent s.app
    → s.app.counters.submitted + 1 < 2 ^ 64
    → Step s t
    → IsConsistent t.app
Step-IsConsistent s t h small (submit request source id_now created_now app e) =
    rw e (enqueue_build-IsConsistent s.app request source id_now created_now h small)
Step-IsConsistent s t h small (permit id e free) =
    same_claims s.app (take_permit s.app) refl refl refl h
Step-IsConsistent s t h small (closed id error now e) =
    queue_closed-IsConsistent s.app id error now h
Step-IsConsistent s t h small (lock id outcome now e) = on_lock-IsConsistent s.app id outcome now h
Step-IsConsistent s t h small (start id grant now e) = start_job-IsConsistent s.app id grant now h
Step-IsConsistent s t h small (finish id grant result e) =
    SameClaims-IsConsistent s.app (release s.app grant) (release-SameClaims s.app grant) h
Step-IsConsistent s t h small (clean id result e) = clean_up-IsConsistent s.app id h
Step-IsConsistent s t h small (leave id result e) = leave_job-IsConsistent s.app result h
Step-IsConsistent s t h small (conclude id result now e) =
    conclude_job-IsConsistent s.app id result now h
