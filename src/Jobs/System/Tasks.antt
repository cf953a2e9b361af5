-- ===== src/Jobs/System/Tasks.antt =====
-- src/jobs.rs: the phase of a task after an update, and among tasks that are added.
use gha_indie_worker_rs.Prelude.{
  ℕ, ◌≤◌, ◌<◌, ◌≡◌, refl, sym, ◌∙◌, inl, inr, none, some, List, [], ◌∷◌, ◌++◌, arith, Bool-cases,
  length, drop, All, drop-append, if◌then◌else◌,
}
use gha_indie_worker_rs.Text.{Text, text_eq}
use gha_indie_worker_rs.Text.Laws.{text_eq_iff}
use gha_indie_worker_rs.State.{AppState, Call}
use gha_indie_worker_rs.Types.{BuildRequest}
use gha_indie_worker_rs.Fiducia.{or_else}
use gha_indie_worker_rs.Jobs.Enqueue.{job_id, accept, new_record}
use gha_indie_worker_rs.Jobs.Store.{prune_jobs}
use gha_indie_worker_rs.Jobs.Claims.Ids.{job_id-injective}
use gha_indie_worker_rs.Jobs.System.{Phase, waiting, Tasks, phase_of, set_phase, spawned}

pub phase_of-append :
    (j : Text) (xs ys : Tasks) → phase_of j (xs ++ ys) ≡ or_else (phase_of j xs) (phase_of j ys)
unfolding phase_of
phase_of-append j [] ys = refl
phase_of-append j ((k, p) ∷ xs) ys = elim (Bool-cases (text_eq k j)) [
  | inl hit ↦ rw hit refl
  | inr miss ↦ rw miss (phase_of-append j xs ys)
]

-- An update of a task that is there sets its phase and no other.
pub phase_of-set_phase :
    (id j : Text) (old new : Phase) (tasks : Tasks)
    → phase_of id tasks ≡ some old
    → phase_of j (set_phase id new tasks) ≡ (if text_eq id j then some new else phase_of j tasks)
unfolding phase_of set_phase
phase_of-set_phase id j old new [] h = cc
phase_of-set_phase id j old new ((k, p) ∷ tasks) h = ground (
  arith,
  text_eq_iff id j,
  text_eq_iff k id,
  text_eq_iff k j,
  phase_of-set_phase id j old new tasks,
)

-- No two tasks have one id.
abbrev pub DistinctTasks : Tasks → Type 0
DistinctTasks [] = Unit
DistinctTasks ((k, p) ∷ tasks) = (phase_of k tasks ≡ none) × DistinctTasks tasks

none-set_phase :
    (id j : Text) (new : Phase) (tasks : Tasks)
    → phase_of j tasks ≡ none
    → phase_of j (set_phase id new tasks) ≡ none
unfolding phase_of set_phase
none-set_phase id j new [] h = refl
none-set_phase id j new ((k, p) ∷ tasks) h = ground (arith, none-set_phase id j new tasks)

pub DistinctTasks-set_phase :
    (id : Text) (new : Phase) (tasks : Tasks)
    → DistinctTasks tasks
    → DistinctTasks (set_phase id new tasks)
unfolding set_phase
DistinctTasks-set_phase id new [] d = tt
DistinctTasks-set_phase id new ((k, p) ∷ tasks) (fresh, d) = elim (Bool-cases (text_eq k id)) [
  | inl hit ↦ rw hit (fresh, d)
  | inr miss ↦ rw miss (none-set_phase id k new tasks fresh, DistinctTasks-set_phase id new tasks d)
]

pub DistinctTasks-append_one :
    (id : Text) (p : Phase) (tasks : Tasks)
    → phase_of id tasks ≡ none
    → DistinctTasks tasks
    → DistinctTasks (tasks ++ (id, p) ∷ [])
unfolding phase_of
DistinctTasks-append_one id p [] h d = (refl, tt)
DistinctTasks-append_one id p ((k, q) ∷ tasks) h (fresh, d) = (
  ground (arith, phase_of-append k tasks ((id, p) ∷ []), text_eq_iff k id, text_eq_iff id k),
  DistinctTasks-append_one id p tasks (ground arith) d,
)

-- Every task runs under an id that was made from a counter of at most `n`.
abbrev pub TasksBelow : ℕ → Tasks → Type 0
TasksBelow n = All (λ task. (t : ℕ) × (c : ℕ) × (task.0 ≡ job_id t c) × (c ≤ n))

pub TasksBelow-mono : (m n : ℕ) (tasks : Tasks) → m ≤ n → TasksBelow m tasks → TasksBelow n tasks
TasksBelow-mono m n [] le h = tt
TasksBelow-mono m n (task ∷ tasks) le ((t, c, e, below), h) =
    ((t, c, e, omega arith), TasksBelow-mono m n tasks le h)

pub TasksBelow-set_phase :
    (n : ℕ) (id : Text) (new : Phase) (tasks : Tasks)
    → TasksBelow n tasks
    → TasksBelow n (set_phase id new tasks)
unfolding set_phase
TasksBelow-set_phase n id new [] h = tt
TasksBelow-set_phase n id new ((k, p) ∷ tasks) (b, h) = elim (Bool-cases (text_eq k id)) [
  | inl hit ↦ rw hit (b, h)
  | inr miss ↦ rw miss (b, TasksBelow-set_phase n id new tasks h)
]

pub phase_of-fresh :
    (n t c : ℕ) (tasks : Tasks) → TasksBelow n tasks → n < c → phase_of (job_id t c) tasks ≡ none
unfolding phase_of
phase_of-fresh n t c [] h lt = refl
phase_of-fresh n t c ((k, p) ∷ tasks) ((t', c', e, le), h) lt =
    elim (Bool-cases (text_eq k (job_id t c))) [
      | inl same ↦
          let (_, counters) = job_id-injective t' c' t c (sym e ∙ (text_eq_iff _ _).0 same) in
          absurd (omega arith)
      | inr other ↦ rw other (phase_of-fresh n t c tasks h lt)
    ]

drop-append_two {ℓ} :
    {A : Type ℓ} (xs : List A) (a b : A) → drop (length xs) ((xs ++ a ∷ []) ++ b ∷ []) ≡ a ∷ b ∷ []
drop-append_two [] a b = refl
drop-append_two (x ∷ xs) a b = drop-append_two xs a b

-- An accepted request starts one task, for its job.
pub spawned-accept :
    (s : AppState) (request : BuildRequest) (source : Text) (id_now created_now : ℕ) (id : Text)
    → (new_record s request source id_now created_now).id ≡ id
    → spawned (drop (length s.calls) (accept s request source id_now created_now).0.calls)
      ≡ (id, waiting) ∷ []
unfolding accept prune_jobs spawned new_record
spawned-accept s request source id_now created_now id e = elim (Bool-cases s.db) [
  | inl on ↦ rw (on, drop-append_two, e) refl
  | inr off ↦ rw (off, drop-append, e) refl
]

pub spawned-none : (calls : List Call) → spawned (drop (length calls) calls) ≡ []
unfolding spawned
spawned-none [] = refl
spawned-none (c ∷ calls) = spawned-none calls
