-- ===== src/Jobs/System/Progress.antt =====
-- src/jobs.rs: with the answers of the environment, some task can always go on.
use gha_indie_worker_rs.Prelude.{
  ℕ, ◌≤◌, ◌<◌, ◌≡◌, refl, ap, ◌∙◌, ltb, inl, inr, Bool, true, false, some, arith, Result,
  Bool-cases,
}
use gha_indie_worker_rs.Text.{Text}
use gha_indie_worker_rs.Message.{Message}
use gha_indie_worker_rs.Fiducia.{LockOutcome}
use gha_indie_worker_rs.Jobs.Run.{Readings}
use gha_indie_worker_rs.Jobs.Claims.Invariant.{one_if}
use gha_indie_worker_rs.Jobs.System.{
  Phase, submit, closed, waiting, locking, starting, executing, cleaning, leaving, concluding,
  finished, Tasks, System, phase_of, Step, permit, lock, start, finish, clean, leave, conclude,
}
use gha_indie_worker_rs.Jobs.System.Permits.{
  holds_permit, count_tasks, IsBalanced, count_tasks-set_phase, count_tasks-le,
}
use gha_indie_worker_rs.Jobs.System.Tasks.{DistinctTasks, DistinctTasks-set_phase}
use gha_indie_worker_rs.Jobs.System.Work.{
  work, Found, count_tasks-Found, work-Found, is_open, TaskStep-work,
}

-- What the waits of the tasks answer: the lock service, the execution, and the clocks at the update of
-- a job that fails at its lock, at its start and at its end.
pub record Answers : Type 0 where
  pub lock_of : Text → LockOutcome
  pub result_of : Text → Result (Unit {0}) Message
  pub locked_at : Text → Readings
  pub started_at : Text → Readings
  pub ended_at : Text → Readings

-- A step of a task with the environment's answers, where the queue of permits stays open.
abbrev pub IsAnswered : Answers → {s t : System} → Step s t → Type 0
IsAnswered a (submit _ _ _ _ _ _) = ⊥
IsAnswered a (permit _ _ _) = Unit
IsAnswered a (closed _ _ _ _) = ⊥
IsAnswered a (lock id outcome now _) = (outcome ≡ a.lock_of id) × (now ≡ a.locked_at id)
IsAnswered a (start id _ now _) = now ≡ a.started_at id
IsAnswered a (finish id _ result _) = result ≡ a.result_of id
IsAnswered a (clean _ _ _) = Unit
IsAnswered a (leave _ _ _) = Unit
IsAnswered a (conclude id _ now _) = now ≡ a.ended_at id

pub record Progress (a : Answers) (s : System) : Type 0 where
  pub to : System
  pub step : Step s to
  pub answered : IsAnswered a step
  pub less : work to.tasks < work s.tasks
  pub distinct : DistinctTasks to.tasks

-- A task that needs no permit to go on.
abbrev goes_on : Phase → Bool
goes_on waiting = false
goes_on finished = false
goes_on _ = true

holds_goes_on : (p : Phase) → one_if (holds_permit p) ≤ one_if (goes_on p)
holds_goes_on waiting = omega arith
holds_goes_on locking = omega arith
holds_goes_on (starting _) = omega arith
holds_goes_on (executing _) = omega arith
holds_goes_on (cleaning _) = omega arith
holds_goes_on (leaving _) = omega arith
holds_goes_on (concluding _) = omega arith
holds_goes_on finished = omega arith

moves :
    (a : Answers) (s : System) (id : Text) (p : Phase)
    → DistinctTasks s.tasks
    → phase_of id s.tasks ≡ some p
    → goes_on p ≡ true
    → Progress a s
moves a s id waiting d e h = cc
moves a s id locking d e h = record {
  to = _;
  step = lock id (a.lock_of id) (a.locked_at id) e;
  answered = (refl, refl);
  less = TaskStep-work s _ (lock id (a.lock_of id) (a.locked_at id) e) tt;
  distinct = DistinctTasks-set_phase id _ s.tasks d;
}
moves a s id (starting grant) d e h = record {
  to = _;
  step = start id grant (a.started_at id) e;
  answered = refl;
  less = TaskStep-work s _ (start id grant (a.started_at id) e) tt;
  distinct = DistinctTasks-set_phase id _ s.tasks d;
}
moves a s id (executing grant) d e h = record {
  to = _;
  step = finish id grant (a.result_of id) e;
  answered = refl;
  less = TaskStep-work s _ (finish id grant (a.result_of id) e) tt;
  distinct = DistinctTasks-set_phase id _ s.tasks d;
}
moves a s id (cleaning result) d e h = record {
  to = _;
  step = clean id result e;
  answered = tt;
  less = TaskStep-work s _ (clean id result e) tt;
  distinct = DistinctTasks-set_phase id _ s.tasks d;
}
moves a s id (leaving result) d e h = record {
  to = _;
  step = leave id result e;
  answered = tt;
  less = TaskStep-work s _ (leave id result e) tt;
  distinct = DistinctTasks-set_phase id _ s.tasks d;
}
moves a s id (concluding result) d e h = record {
  to = _;
  step = conclude id result (a.ended_at id) e;
  answered = refl;
  less = TaskStep-work s _ (conclude id result (a.ended_at id) e) tt;
  distinct = DistinctTasks-set_phase id _ s.tasks d;
}
moves a s id finished d e h = cc

-- Where no task goes on without one, an open task waits for a permit.
waits :
    (q : Phase) (id : Text) (tasks : Tasks)
    → phase_of id tasks ≡ some q
    → is_open q ≡ true
    → count_tasks goes_on tasks ≡ 0
    → q ≡ waiting
waits waiting id tasks e o h = refl
waits locking id tasks e o h =
    absurd (omega (arith, h, count_tasks-set_phase goes_on id locking waiting tasks e))
waits (starting grant) id tasks e o h =
    absurd (omega (arith, h, count_tasks-set_phase goes_on id (starting grant) waiting tasks e))
waits (executing grant) id tasks e o h =
    absurd (omega (arith, h, count_tasks-set_phase goes_on id (executing grant) waiting tasks e))
waits (cleaning result) id tasks e o h =
    absurd (omega (arith, h, count_tasks-set_phase goes_on id (cleaning result) waiting tasks e))
waits (leaving result) id tasks e o h =
    absurd (omega (arith, h, count_tasks-set_phase goes_on id (leaving result) waiting tasks e))
waits (concluding result) id tasks e o h =
    absurd (omega (arith, h, count_tasks-set_phase goes_on id (concluding result) waiting tasks e))
waits finished id tasks e o h = cc

takes :
    (a : Answers) (s : System) (f : Found is_open s.tasks)
    → DistinctTasks s.tasks
    → 0 < s.app.permits
    → f.phase ≡ waiting
    → Progress a s
takes a s f d free e =
    let there : phase_of f.id s.tasks ≡ some waiting = f.there ∙ ap some e in
    record {
      to = _;
      step = permit f.id there free;
      answered = tt;
      less = TaskStep-work s _ (permit f.id there free) tt;
      distinct = DistinctTasks-set_phase f.id locking s.tasks d;
    }

-- While work is left, some task can go on.
pub progress :
    (a : Answers) (n : ℕ) (s : System)
    → 0 < n
    → IsBalanced n s
    → DistinctTasks s.tasks
    → 0 < work s.tasks
    → Progress a s
progress a n s some_permits h d left = elim (Bool-cases (ltb 0 (count_tasks goes_on s.tasks))) [
  | inl going ↦
      let f = count_tasks-Found goes_on s.tasks d (ground arith) in
      moves a s f.id f.phase d f.there f.fits
  | inr none_going ↦
      let none_goes : count_tasks goes_on s.tasks ≡ 0 = ground arith in
      let held = count_tasks-le holds_permit goes_on s.tasks holds_goes_on in
      let f = work-Found s.tasks d left in
      takes a s f d (omega (arith, h.permits, none_goes, held))
        (waits f.phase f.id s.tasks f.there f.fits none_goes)
]
