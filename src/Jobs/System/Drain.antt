-- ===== src/Jobs/System/Drain.antt =====
-- src/jobs.rs: the tasks come to their ends.
use gha_indie_worker_rs.Prelude.{
  ℕ, zero, suc, ◌^◌, ◌≤◌, ◌<◌, ◌≡◌, refl, ltb, inl, inr, Bool, false, [], ◌∷◌, arith, All,
  Bool-cases,
}
use gha_indie_worker_rs.Jobs.System.{Phase, finished, Tasks, System, Step, Reach, here, next}
use gha_indie_worker_rs.Jobs.System.Permits.{holds_permit, is_executing, count_tasks, IsBalanced}
use gha_indie_worker_rs.Jobs.System.Steps.{Step-IsBalanced}
use gha_indie_worker_rs.Jobs.System.Tasks.{DistinctTasks}
use gha_indie_worker_rs.Jobs.System.Work.{work, work-eq-zero}
use gha_indie_worker_rs.Jobs.System.Progress.{Answers, IsAnswered, progress}

abbrev pub IsAnsweredRun : Answers → {s t : System} → Reach s t → Type 0
IsAnsweredRun a here = Unit
IsAnsweredRun a (next run step) = IsAnsweredRun a run × IsAnswered a step

abbrev prepend : {s t u : System} → Step s t → Reach t u → Reach s u
prepend step here = next here step
prepend step (next run last) = next (prepend step run) last

prepend-IsAnswered :
    (a : Answers) {s t u : System} (step : Step s t) (run : Reach t u)
    → IsAnswered a step
    → IsAnsweredRun a run
    → IsAnsweredRun a (prepend step run)
prepend-IsAnswered a step here h k = (tt, h)
prepend-IsAnswered a step (next run last) h (k, l) = (prepend-IsAnswered a step run h k, l)

-- A run that gets all tasks to their ends.
pub record IsDrained (a : Answers) (n : ℕ) (s : System) : Type 0 where
  pub to : System
  pub run : Reach s to
  pub answered : IsAnsweredRun a run
  pub done : All (λ task. task.1 ≡ finished) to.tasks
  pub permits : to.app.permits ≡ n
  pub running : to.app.counters.running ≡ 0

count_tasks-done :
    (q : Phase → Bool) (tasks : Tasks)
    → q finished ≡ false
    → All (λ task. task.1 ≡ finished) tasks
    → count_tasks q tasks ≡ 0
unfolding count_tasks
count_tasks-done q [] h _ = refl
count_tasks-done q ((k, p) ∷ tasks) h (e, d) =
    rw (e, h) (omega (arith, count_tasks-done q tasks h d))

drain_in :
    (fuel : ℕ) (a : Answers) (n : ℕ) (s : System)
    → 0 < n
    → n < 2 ^ 64
    → IsBalanced n s
    → DistinctTasks s.tasks
    → work s.tasks ≤ fuel
    → IsDrained a n s
drain_in zero a n s some_permits small h d le =
    let done = work-eq-zero s.tasks (omega arith) in
    record {
      to = s;
      run = here;
      answered = tt;
      done = done;
      permits = omega (arith, h.permits, count_tasks-done holds_permit s.tasks refl done);
      running = omega (arith, h.running, count_tasks-done is_executing s.tasks refl done);
    }
drain_in (suc fuel) a n s some_permits small h d le = elim (Bool-cases (ltb 0 (work s.tasks))) [
  | inr idle ↦ drain_in fuel a n s some_permits small h d (ground arith)
  | inl left ↦
      let p = progress a n s some_permits h d (ground arith) in
      let rest =
        drain_in fuel a n p.to some_permits small (Step-IsBalanced n small s p.to h p.step)
          p.distinct (omega (arith, p.less)) in
      record {
        to = rest.to;
        run = prepend p.step rest.run;
        answered = prepend-IsAnswered a p.step rest.run p.answered rest.answered;
        done = rest.done;
        permits = rest.permits;
        running = rest.running;
      }
]

-- From a state with `n` permits in all, at least one and fewer than 2^64, and distinct tasks, and
-- whatever the lock service, the executions and the clocks at the updates of each job answer, some run
-- in which no request comes in and the queue of permits stays open takes these answers and gets every
-- task to its end. Then all permits are back and the counter of running jobs is 0.
pub Reach-IsDrained :
    (a : Answers) (n : ℕ) (s : System)
    → 0 < n
    → n < 2 ^ 64
    → IsBalanced n s
    → DistinctTasks s.tasks
    → IsDrained a n s
Reach-IsDrained a n s some_permits small h d =
    drain_in (work s.tasks) a n s some_permits small h d (omega arith)
