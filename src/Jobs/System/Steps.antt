-- ===== src/Jobs/System/Steps.antt =====
-- src/jobs.rs: each step of the system keeps the balance of permits, and what follows for every run.
use gha_indie_worker_rs.Prelude.{
  ℕ, ◌+◌, ◌^◌, ◌≤◌, ◌<◌, ◌≡◌, refl, ap, ◌∙◌, Bool, true, false, Option, none, some, length, drop,
  arith, Bool-cases, inl, inr, Result, ok, err, if◌then◌else◌,
}
use gha_indie_worker_rs.Text.{Text}
use gha_indie_worker_rs.Message.{Message}
use gha_indie_worker_rs.Types.{BuildJobRecord}
use gha_indie_worker_rs.State.{AppState, fetch_add, fetch_sub}
use gha_indie_worker_rs.Fiducia.{LockGrant, LockOutcome, disabled, acquired, busy, unavailable}
use gha_indie_worker_rs.Jobs.Claims.Invariant.{one_if}
use gha_indie_worker_rs.Jobs.Run.{
  Readings, queue_closed, on_lock, start_job, as_failed, as_running, as_ended, update, conclude_job,
  leave_job, release, clean_up,
}
use gha_indie_worker_rs.Jobs.System.{
  Phase, waiting, locking, starting, executing, cleaning, leaving, concluding, finished, System,
  phase_of, set_phase, spawned, after_lock, Step, submit, permit, closed, lock, start, finish,
  clean, leave, conclude, Reach, here, next,
}
use gha_indie_worker_rs.Jobs.System.Gauges.{Gauges, Gauges-enqueue_build}
use gha_indie_worker_rs.Jobs.System.Store.{SameCore-update_job}
use gha_indie_worker_rs.Jobs.System.Permits.{
  holds_permit, is_executing, count_tasks-append, count_tasks-spawned, count_tasks-set_phase,
  count_tasks-executing-le, IsBalanced,
}

Gauges-update :
    (s : AppState) (id : Text) (mutate : BuildJobRecord → BuildJobRecord) (now : Readings)
    → Gauges s (update s id mutate now)
Gauges-update s id mutate now =
    let same = SameCore-update_job s id mutate now.event now.critical in
    (same.permits, same.running)

Gauges-if : (b : Bool) (s t u : AppState) → Gauges s t → Gauges s u → Gauges s (if b then t else u)
Gauges-if true s t u h k = h
Gauges-if false s t u h k = k

Gauges-release : (s : AppState) (grant : Option LockGrant) → Gauges s (release s grant)
Gauges-release s none = (refl, refl)
Gauges-release s (some grant) = (refl, refl)

Gauges-clean_up : (s : AppState) (id : Text) → Gauges s (clean_up s id)
Gauges-clean_up s id = Gauges-if s.config.keep_workdirs s s _ (refl, refl) (refl, refl)

conclude_job-Gauges :
    (s : AppState) (id : Text) (result : Result (Unit {0}) Message) (now : Readings)
    → Gauges s (conclude_job s id result now)
unfolding conclude_job
conclude_job-Gauges s id result now = Gauges-update s id (as_ended result now.at) now

-- A task that leaves gives its permit back and takes one from the counter of running jobs.
leave_job-gauges :
    (s : AppState) (result : Result (Unit {0}) Message)
    → ((leave_job s result).permits ≡ s.permits + 1)
      × ((leave_job s result).counters.running ≡ fetch_sub s.counters.running)
unfolding leave_job
leave_job-gauges s (ok _) = (refl, refl)
leave_job-gauges s (err error) = (refl, refl)

start_job-gauges :
    (s : AppState) (id : Text) (grant : Option LockGrant) (now : Readings)
    → ((start_job s id grant now).permits ≡ s.permits)
      × ((start_job s id grant now).counters.running ≡ fetch_add s.counters.running)
unfolding start_job
start_job-gauges s id grant now = Gauges-update _ id (as_running grant now.at) now

queue_closed-Gauges :
    (s : AppState) (id : Text) (error : Message) (now : Readings)
    → Gauges s (queue_closed s id error now)
unfolding queue_closed
queue_closed-Gauges s id error now = Gauges-update s id _ now

-- The lock's outcome: the permit is dropped exactly where the task ends.
on_lock-gauges :
    (s : AppState) (id : Text) (outcome : LockOutcome) (now : Readings)
    → ((on_lock s id outcome now).0.permits
          + one_if (holds_permit (after_lock (on_lock s id outcome now).1))
        ≡ s.permits + 1)
      × ((on_lock s id outcome now).0.counters.running ≡ s.counters.running)
      × (is_executing (after_lock (on_lock s id outcome now).1) ≡ false)
unfolding on_lock
on_lock-gauges s id disabled now = (refl, refl, refl)
on_lock-gauges s id (acquired grant) now = (refl, refl, refl)
on_lock-gauges s id (busy key) now =
    let (a, b) = Gauges-update _ id (as_failed _ now.at) now in (omega (arith, a), b, refl)
on_lock-gauges s id (unavailable error) now = elim (Bool-cases s.config.coordination_required) [
  | inl required ↦
      rw required
        (let (a, b) = Gauges-update _ id (as_failed _ now.at) now in (omega (arith, a), b, refl))
  | inr optional ↦ rw optional (refl, refl, refl)
]

-- The balance for a task that goes from one phase to another.
rebalance :
    (n : ℕ) (s : System) (app : AppState) (id : Text) (old new : Phase)
    → IsBalanced n s
    → phase_of id s.tasks ≡ some old
    → app.permits + one_if (holds_permit new) ≡ s.app.permits + one_if (holds_permit old)
    → app.counters.running + one_if (is_executing old)
      ≡ s.app.counters.running + one_if (is_executing new)
    → IsBalanced n (record { app = app; tasks = set_phase id new s.tasks })
rebalance n s app id old new h e p r = record {
  permits = omega (arith, h.permits, p, count_tasks-set_phase holds_permit id old new s.tasks e);
  running = omega (arith, h.running, r, count_tasks-set_phase is_executing id old new s.tasks e);
}

-- Of `n` permits, fewer than 2^64, some step keeps the balance.
module _ (n : ℕ) (small : n < 2 ^ 64) where
  running-below : (s : System) → IsBalanced n s → s.app.counters.running ≤ n
  running-below s h = omega (arith, h.permits, h.running, count_tasks-executing-le s.tasks)

  pub Step-IsBalanced : (s t : System) → IsBalanced n s → Step s t → IsBalanced n t
  Step-IsBalanced s t h (submit request source id_now created_now app e) =
      let (p, r) = Gauges-enqueue_build s.app request source id_now created_now in
      let p' : app.permits ≡ s.app.permits = ap (λ a. a.permits) e ∙ p in
      let r' : app.counters.running ≡ s.app.counters.running = ap (λ a. a.counters.running) e ∙ r in
      let calls = drop (length s.app.calls) app.calls in
      record {
        permits = omega (
          arith,
          h.permits,
          p',
          count_tasks-append holds_permit s.tasks (spawned calls),
          count_tasks-spawned holds_permit calls refl,
        );
        running = omega (
          arith,
          h.running,
          r',
          count_tasks-append is_executing s.tasks (spawned calls),
          count_tasks-spawned is_executing calls refl,
        );
      }
  Step-IsBalanced s t h (permit id e free) =
      rebalance n s _ id waiting locking h e (omega arith) refl
  Step-IsBalanced s t h (closed id error now e) =
      let (p, r) = queue_closed-Gauges s.app id error now in
      rebalance n s _ id waiting finished h e (omega (arith, p)) (omega (arith, r))
  Step-IsBalanced s t h (lock id outcome now e) =
      let (p, r, x) = on_lock-gauges s.app id outcome now in
      rebalance n s _ id locking _ h e p (rw x (omega (arith, r)))
  Step-IsBalanced s t h (start id grant now e) =
      let (p, r) = start_job-gauges s.app id grant now in
      let balanced =
        count_tasks-set_phase is_executing id (starting grant) (executing grant) s.tasks e in
      let below = count_tasks-executing-le (set_phase id (executing grant) s.tasks) in
      let held =
        count_tasks-set_phase holds_permit id (starting grant) (executing grant) s.tasks e in
      rebalance n s _ id (starting grant) (executing grant) h e (omega (arith, p))
        (omega (arith, r, balanced, below, held, h.permits, h.running))
  Step-IsBalanced s t h (finish id grant result e) =
      let (p, r) = Gauges-release s.app grant in
      rebalance n s _ id (executing grant) (cleaning result) h e (omega (arith, p))
        (omega (arith, r))
  Step-IsBalanced s t h (clean id result e) =
      let (p, r) = Gauges-clean_up s.app id in
      rebalance n s _ id (cleaning result) (leaving result) h e (omega (arith, p))
        (omega (arith, r))
  Step-IsBalanced s t h (leave id result e) =
      let (p, r) = leave_job-gauges s.app result in
      let balanced =
        count_tasks-set_phase is_executing id (leaving result) (concluding result) s.tasks e in
      rebalance n s _ id (leaving result) (concluding result) h e (omega (arith, p))
        (omega (arith, r, balanced, h.permits, h.running, running-below s h))
  Step-IsBalanced s t h (conclude id result now e) =
      let (p, r) = conclude_job-Gauges s.app id result now in
      rebalance n s _ id (concluding result) finished h e (omega (arith, p)) (omega (arith, r))

  -- In every run of the system from a state with `n` permits in all, fewer than 2^64, the permits
  -- that are left and those that tasks hold make up `n`, and the counter of running jobs is the
  -- number of tasks that run: from the start of the job until the permit is dropped.
  pub Reach-IsBalanced : (s t : System) → IsBalanced n s → Reach s t → IsBalanced n t
  Reach-IsBalanced s t h here = h
  Reach-IsBalanced s t h (next {t = u} run step) =
      Step-IsBalanced u t (Reach-IsBalanced s u h run) step

  -- From a state with `n` permits in all, fewer than 2^64, no run has more than `n` jobs running.
  pub Reach-running-le : (s t : System) → IsBalanced n s → Reach s t → t.app.counters.running ≤ n
  Reach-running-le s t h run = running-below t (Reach-IsBalanced s t h run)
