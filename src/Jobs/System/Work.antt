-- ===== src/Jobs/System/Work.antt =====
-- src/jobs.rs: the work that is left to the tasks. Each piece of a task takes some of it away.
use gha_indie_worker_rs.Prelude.{
  ℕ, ◌+◌, ◌≤◌, ◌<◌, ◌≡◌, refl, sym, ap, ◌∙◌, Bool, true, false, none, some, [], ◌∷◌, arith,
  Bool-cases, inl, inr, All,
}
use gha_indie_worker_rs.Text.{Text, text_eq}
use gha_indie_worker_rs.Text.Laws.{text_eq_iff, text_eq_sound}
use gha_indie_worker_rs.Jobs.Run.{Decision, stop, proceed}
use gha_indie_worker_rs.Jobs.Claims.Invariant.{one_if}
use gha_indie_worker_rs.Jobs.System.{
  Phase, waiting, locking, starting, executing, cleaning, leaving, concluding, finished, Tasks,
  System, phase_of, set_phase, after_lock, Step, submit, permit, closed, lock, start, finish, clean,
  leave, conclude,
}
use gha_indie_worker_rs.Jobs.System.Permits.{count_tasks}
use gha_indie_worker_rs.Jobs.System.Tasks.{DistinctTasks}

-- The pieces that a task still has to run, at most.
abbrev pub pieces_left : Phase → ℕ
pieces_left waiting = 7
pieces_left locking = 6
pieces_left (starting _) = 5
pieces_left (executing _) = 4
pieces_left (cleaning _) = 3
pieces_left (leaving _) = 2
pieces_left (concluding _) = 1
pieces_left finished = 0

unfoldable pub work : Tasks → ℕ
work [] = 0
work ((k, p) ∷ tasks) = pieces_left p + work tasks

pub work-set_phase :
    (id : Text) (old new : Phase) (tasks : Tasks)
    → phase_of id tasks ≡ some old
    → work (set_phase id new tasks) + pieces_left old ≡ work tasks + pieces_left new
unfolding work set_phase phase_of
work-set_phase id old new [] h = cc
work-set_phase id old new ((k, p) ∷ tasks) h = elim (Bool-cases (text_eq k id)) [
  | inl same ↦ let found : p ≡ old = ground arith in rw (same, found) (omega arith)
  | inr other ↦ rw other (omega (arith, work-set_phase id old new tasks (rw other at h)))
]

-- A task with a property, found under its id.
pub record Found (q : Phase → Bool) (tasks : Tasks) : Type 0 where
  pub id : Text
  pub phase : Phase
  pub there : phase_of id tasks ≡ some phase
  pub fits : q phase ≡ true

Found-later :
    (q : Phase → Bool) (k : Text) (p : Phase) (tasks : Tasks)
    → phase_of k tasks ≡ none
    → Found q tasks
    → Found q ((k, p) ∷ tasks)
unfolding phase_of
Found-later q k p tasks fresh f = record {
  id = f.id;
  phase = f.phase;
  there = elim (Bool-cases (text_eq k f.id)) [
    | inl same ↦
        let e : some f.phase ≡ none =
          sym f.there ∙ ap (λ i. phase_of i tasks) (sym (text_eq_sound k f.id same)) ∙ fresh in
        cc
    | inr other ↦ rw other f.there
  ];
  fits = f.fits;
}

Found-first :
    (q : Phase → Bool) (k : Text) (p : Phase) (tasks : Tasks)
    → q p ≡ true
    → Found q ((k, p) ∷ tasks)
unfolding phase_of
Found-first q k p tasks h = record {
  id = k;
  phase = p;
  there = ground (arith, text_eq_iff k k);
  fits = h;
}

-- A task of distinct ones that is counted is there.
pub count_tasks-Found :
    (q : Phase → Bool) (tasks : Tasks)
    → DistinctTasks tasks
    → 0 < count_tasks q tasks
    → Found q tasks
unfolding count_tasks
count_tasks-Found q [] d h = absurd (omega arith)
count_tasks-Found q ((k, p) ∷ tasks) (fresh, d) h = elim (Bool-cases (q p)) [
  | inl hit ↦ Found-first q k p tasks hit
  | inr miss ↦
      Found-later q k p tasks fresh (count_tasks-Found q tasks d (omega (arith, h, ap one_if miss)))
]

abbrev pub is_open : Phase → Bool
is_open finished = false
is_open _ = true

pub work-Found : (tasks : Tasks) → DistinctTasks tasks → 0 < work tasks → Found is_open tasks
unfolding work
work-Found [] d h = absurd (omega arith)
work-Found ((k, waiting) ∷ tasks) (fresh, d) h = Found-first is_open k _ tasks refl
work-Found ((k, locking) ∷ tasks) (fresh, d) h = Found-first is_open k _ tasks refl
work-Found ((k, starting _) ∷ tasks) (fresh, d) h = Found-first is_open k _ tasks refl
work-Found ((k, executing _) ∷ tasks) (fresh, d) h = Found-first is_open k _ tasks refl
work-Found ((k, cleaning _) ∷ tasks) (fresh, d) h = Found-first is_open k _ tasks refl
work-Found ((k, leaving _) ∷ tasks) (fresh, d) h = Found-first is_open k _ tasks refl
work-Found ((k, concluding _) ∷ tasks) (fresh, d) h = Found-first is_open k _ tasks refl
work-Found ((k, finished) ∷ tasks) (fresh, d) h =
    Found-later is_open k finished tasks fresh (work-Found tasks d (omega arith))

pub work-eq-zero : (tasks : Tasks) → work tasks ≡ 0 → All (λ task. task.1 ≡ finished) tasks
unfolding work
work-eq-zero [] h = tt
work-eq-zero ((k, waiting) ∷ tasks) h = absurd (omega arith)
work-eq-zero ((k, locking) ∷ tasks) h = absurd (omega arith)
work-eq-zero ((k, starting _) ∷ tasks) h = absurd (omega arith)
work-eq-zero ((k, executing _) ∷ tasks) h = absurd (omega arith)
work-eq-zero ((k, cleaning _) ∷ tasks) h = absurd (omega arith)
work-eq-zero ((k, leaving _) ∷ tasks) h = absurd (omega arith)
work-eq-zero ((k, concluding _) ∷ tasks) h = absurd (omega arith)
work-eq-zero ((k, finished) ∷ tasks) h = (refl, work-eq-zero tasks (omega arith))

pieces_left-after_lock : (d : Decision) → pieces_left (after_lock d) ≤ 5
pieces_left-after_lock stop = omega arith
pieces_left-after_lock (proceed grant) = omega arith

-- A step of a task, not of a submission.
abbrev pub IsTaskStep : {s t : System} → Step s t → Type 0
IsTaskStep (submit _ _ _ _ _ _) = ⊥
IsTaskStep (permit _ _ _) = Unit
IsTaskStep (closed _ _ _ _) = Unit
IsTaskStep (lock _ _ _ _) = Unit
IsTaskStep (start _ _ _ _) = Unit
IsTaskStep (finish _ _ _ _) = Unit
IsTaskStep (clean _ _ _) = Unit
IsTaskStep (leave _ _ _) = Unit
IsTaskStep (conclude _ _ _ _) = Unit

pub TaskStep-work : (s t : System) (step : Step s t) → IsTaskStep step → work t.tasks < work s.tasks
TaskStep-work s t (submit _ _ _ _ _ _) h = absurd h
TaskStep-work s t (permit id e free) h = omega (arith, work-set_phase id waiting locking s.tasks e)
TaskStep-work s t (closed id error now e) h =
    omega (arith, work-set_phase id waiting finished s.tasks e)
TaskStep-work s t (lock id outcome now e) h =
    omega (arith, work-set_phase id locking _ s.tasks e, pieces_left-after_lock)
TaskStep-work s t (start id grant now e) h =
    omega (arith, work-set_phase id (starting grant) (executing grant) s.tasks e)
TaskStep-work s t (finish id grant result e) h =
    omega (arith, work-set_phase id (executing grant) (cleaning result) s.tasks e)
TaskStep-work s t (clean id result e) h =
    omega (arith, work-set_phase id (cleaning result) (leaving result) s.tasks e)
TaskStep-work s t (leave id result e) h =
    omega (arith, work-set_phase id (leaving result) (concluding result) s.tasks e)
TaskStep-work s t (conclude id result now e) h =
    omega (arith, work-set_phase id (concluding result) finished s.tasks e)
