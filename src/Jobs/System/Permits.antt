-- ===== src/Jobs/System/Permits.antt =====
-- src/jobs.rs: the semaphore and the counter of running jobs against the tasks that hold a permit.
use gha_indie_worker_rs.Prelude.{
  ℕ, ◌+◌, ◌≤◌, ◌≡◌, refl, Bool, true, false, some, List, [], ◌∷◌, ◌++◌, arith, Bool-cases, inl, inr,
}
use gha_indie_worker_rs.Text.{Text, text_eq}
use gha_indie_worker_rs.State.{
  Call, publish, persist_job, spawn_run_job, release_lock, remove_dir_all, record_webhook_delivery,
  idempotency_finish,
}
use gha_indie_worker_rs.Jobs.Claims.Invariant.{one_if}
use gha_indie_worker_rs.Jobs.System.{
  Phase, waiting, locking, starting, executing, cleaning, leaving, concluding, finished, Tasks,
  System, phase_of, set_phase, spawned,
}

-- A task holds a permit from its acquisition until it leaves or fails before its start.
abbrev pub holds_permit : Phase → Bool
holds_permit waiting = false
holds_permit locking = true
holds_permit (starting _) = true
holds_permit (executing _) = true
holds_permit (cleaning _) = true
holds_permit (leaving _) = true
holds_permit (concluding _) = false
holds_permit finished = false

-- A task runs from the start of its job until it leaves.
abbrev pub is_executing : Phase → Bool
is_executing (executing _) = true
is_executing (cleaning _) = true
is_executing (leaving _) = true
is_executing _ = false

-- How many tasks are in a phase with a property.
unfoldable pub count_tasks : (Phase → Bool) → Tasks → ℕ
count_tasks q [] = 0
count_tasks q ((k, p) ∷ tasks) = one_if (q p) + count_tasks q tasks

pub count_tasks-append :
    (q : Phase → Bool) (xs ys : Tasks)
    → count_tasks q (xs ++ ys) ≡ count_tasks q xs + count_tasks q ys
unfolding count_tasks
count_tasks-append q [] ys = omega arith
count_tasks-append q ((k, p) ∷ xs) ys = omega (arith, count_tasks-append q xs ys)

pub count_tasks-spawned :
    (q : Phase → Bool) (calls : List Call) → q waiting ≡ false → count_tasks q (spawned calls) ≡ 0
unfolding count_tasks spawned
count_tasks-spawned q [] h = refl
count_tasks-spawned q (spawn_run_job id ∷ calls) h =
    rw h (omega (arith, count_tasks-spawned q calls h))
count_tasks-spawned q (persist_job _ ∷ calls) h = count_tasks-spawned q calls h
count_tasks-spawned q (publish _ _ ∷ calls) h = count_tasks-spawned q calls h
count_tasks-spawned q (release_lock _ _ _ ∷ calls) h = count_tasks-spawned q calls h
count_tasks-spawned q (remove_dir_all _ ∷ calls) h = count_tasks-spawned q calls h
count_tasks-spawned q (record_webhook_delivery _ _ _ _ _ ∷ calls) h = count_tasks-spawned q calls h
count_tasks-spawned q (idempotency_finish _ _ ∷ calls) h = count_tasks-spawned q calls h

pub count_tasks-set_phase :
    (q : Phase → Bool) (id : Text) (old new : Phase) (tasks : Tasks)
    → phase_of id tasks ≡ some old
    → count_tasks q (set_phase id new tasks) + one_if (q old) ≡ count_tasks q tasks + one_if (q new)
unfolding count_tasks set_phase phase_of
count_tasks-set_phase q id old new [] h = cc
count_tasks-set_phase q id old new ((k, p) ∷ tasks) h = elim (Bool-cases (text_eq k id)) [
  | inl same ↦ let found : p ≡ old = ground arith in rw (same, found) (omega arith)
  | inr other ↦ rw other (omega (arith, count_tasks-set_phase q id old new tasks (rw other at h)))
]

pub count_tasks-le :
    (q r : Phase → Bool) (tasks : Tasks)
    → ((p : Phase) → one_if (q p) ≤ one_if (r p))
    → count_tasks q tasks ≤ count_tasks r tasks
unfolding count_tasks
count_tasks-le q r [] h = omega arith
count_tasks-le q r ((k, p) ∷ tasks) h = omega (arith, h p, count_tasks-le q r tasks h)

executing_holds : (p : Phase) → one_if (is_executing p) ≤ one_if (holds_permit p)
executing_holds waiting = omega arith
executing_holds locking = omega arith
executing_holds (starting _) = omega arith
executing_holds (executing _) = omega arith
executing_holds (cleaning _) = omega arith
executing_holds (leaving _) = omega arith
executing_holds (concluding _) = omega arith
executing_holds finished = omega arith

-- A task that runs holds a permit.
pub count_tasks-executing-le :
    (tasks : Tasks) → count_tasks is_executing tasks ≤ count_tasks holds_permit tasks
count_tasks-executing-le tasks = count_tasks-le is_executing holds_permit tasks executing_holds

-- With `n` permits in all: those left and those that tasks hold make up `n`, and the counter of
-- running jobs counts the tasks that run.
pub record IsBalanced (n : ℕ) (s : System) : Type 0 where
  pub permits : s.app.permits + count_tasks holds_permit s.tasks ≡ n
  pub running : s.app.counters.running ≡ count_tasks is_executing s.tasks
