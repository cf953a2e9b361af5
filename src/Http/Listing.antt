-- ===== src/Http/Listing.antt =====
-- src/http.rs: the order of the list of jobs.
use gha_indie_worker_rs.Prelude.{
  ℕ, ◌≤◌, ◌≡◌, refl, ap, inl, inr, List, [], ◌∷◌, ◌++◌, All, leb, Bool-cases, arith, Bool, not,
  ◌||◌, keep, ◌∙◌, if◌then◌else◌,
}
use mathlib.Core.List.{Perm}
use mathlib.Core.List.Perm
use gha_indie_worker_rs.Text.{Text, text_eq, contains}
use gha_indie_worker_rs.Jobs.Map.{values}
use gha_indie_worker_rs.Prelude.{map}
use gha_indie_worker_rs.Http.{Listed, live, persisted, PersistedJob, listed_jobs}
use gha_indie_worker_rs.Types.{BuildJobRecord}
use gha_indie_worker_rs.State.{AppState}
use gha_indie_worker_rs.Http.{Backend, ids_of, insert_newest, newest_first}

-- The newest job first.
abbrev pub IsNewestFirst : List BuildJobRecord → Type 0
IsNewestFirst [] = Unit
IsNewestFirst (job ∷ jobs) =
    All (λ later. later.created_at_ms ≤ job.created_at_ms) jobs × IsNewestFirst jobs

insert_newest-Perm :
    (job : BuildJobRecord) (jobs : List BuildJobRecord) → Perm (insert_newest job jobs) (job ∷ jobs)
unfolding insert_newest
insert_newest-Perm job [] = Perm.refl _
insert_newest-Perm job (next ∷ jobs) =
    elim (Bool-cases (leb next.created_at_ms job.created_at_ms)) [
      | inl older ↦ rw older (Perm.refl _)
      | inr newer ↦
          rw newer
            (Perm.trans (Perm.cons next (insert_newest-Perm job jobs)) (Perm.swap job next jobs))
    ]

newest_first-Perm : (jobs : List BuildJobRecord) → Perm (newest_first jobs) jobs
unfolding newest_first
newest_first-Perm [] = Perm.refl _
newest_first-Perm (job ∷ jobs) =
    Perm.trans (insert_newest-Perm job (newest_first jobs)) (Perm.cons job (newest_first-Perm jobs))

All-insert_newest :
    (n : ℕ) (job : BuildJobRecord) (jobs : List BuildJobRecord)
    → job.created_at_ms ≤ n
    → All (λ later. later.created_at_ms ≤ n) jobs
    → All (λ later. later.created_at_ms ≤ n) (insert_newest job jobs)
unfolding insert_newest
All-insert_newest n job [] le h = (le, tt)
All-insert_newest n job (next ∷ jobs) le (first, h) =
    elim (Bool-cases (leb next.created_at_ms job.created_at_ms)) [
      | inl older ↦ rw older (le, (first, h))
      | inr newer ↦ rw newer (first, All-insert_newest n job jobs le h)
    ]

All-older :
    (m n : ℕ) (jobs : List BuildJobRecord)
    → m ≤ n
    → All (λ later. later.created_at_ms ≤ m) jobs
    → All (λ later. later.created_at_ms ≤ n) jobs
All-older m n [] le h = tt
All-older m n (job ∷ jobs) le (first, h) = (omega arith, All-older m n jobs le h)

insert_newest-IsNewestFirst :
    (job : BuildJobRecord) (jobs : List BuildJobRecord)
    → IsNewestFirst jobs
    → IsNewestFirst (insert_newest job jobs)
unfolding insert_newest
insert_newest-IsNewestFirst job [] h = (tt, tt)
insert_newest-IsNewestFirst job (next ∷ jobs) (first, h) =
    elim (Bool-cases (leb next.created_at_ms job.created_at_ms)) [
      | inl older ↦ rw older (
        (
          ground (arith, older),
          All-older next.created_at_ms job.created_at_ms jobs (ground (arith, older)) first,
        ),
        (first, h),
      )
      | inr newer ↦ rw newer (
        All-insert_newest next.created_at_ms job jobs (ground (arith, newer)) first,
        insert_newest-IsNewestFirst job jobs h,
      )
    ]

newest_first-IsNewestFirst : (jobs : List BuildJobRecord) → IsNewestFirst (newest_first jobs)
unfolding newest_first
newest_first-IsNewestFirst [] = tt
newest_first-IsNewestFirst (job ∷ jobs) =
    insert_newest-IsNewestFirst job (newest_first jobs) (newest_first-IsNewestFirst jobs)

abbrev pub live_jobs : List Listed → List BuildJobRecord
live_jobs [] = []
live_jobs (live job ∷ rest) = job ∷ live_jobs rest
live_jobs (persisted row ∷ rest) = live_jobs rest

live_jobs-live :
    (jobs : List BuildJobRecord) (rows : List PersistedJob)
    → live_jobs (map live jobs ++ map persisted rows) ≡ jobs
live_jobs-live [] [] = refl
live_jobs-live [] (row ∷ rows) = live_jobs-live [] rows
live_jobs-live (job ∷ jobs) rows =
    ap (λ (t : List BuildJobRecord). job ∷ t) (live_jobs-live jobs rows)

live_jobs-only : (jobs : List BuildJobRecord) → live_jobs (map live jobs) ≡ jobs
live_jobs-only [] = refl
live_jobs-only (job ∷ jobs) = ap (λ (t : List BuildJobRecord). job ∷ t) (live_jobs-only jobs)

live_jobs-listed_jobs :
    (backend : Backend) (state : AppState)
    → live_jobs (listed_jobs backend state) ≡ newest_first (values state.jobs)
unfolding listed_jobs
live_jobs-listed_jobs backend state = elim (Bool-cases state.db) [
  | inl on ↦ simp on (live_jobs-live _ _)
  | inr off ↦ simp off (live_jobs-only _)
]

abbrev pub persisted_rows : List Listed → List PersistedJob
persisted_rows [] = []
persisted_rows (live job ∷ rest) = persisted_rows rest
persisted_rows (persisted row ∷ rest) = row ∷ persisted_rows rest

persisted_rows-append :
    (jobs : List BuildJobRecord) (rows : List PersistedJob)
    → persisted_rows (map live jobs ++ map persisted rows) ≡ rows
persisted_rows-append [] [] = refl
persisted_rows-append [] (row ∷ rows) =
    ap (λ (t : List PersistedJob). row ∷ t) (persisted_rows-append [] rows)
persisted_rows-append (job ∷ jobs) rows = persisted_rows-append jobs rows

persisted_rows-only : (jobs : List BuildJobRecord) → persisted_rows (map live jobs) ≡ []
persisted_rows-only [] = refl
persisted_rows-only (job ∷ jobs) = persisted_rows-only jobs

-- The order of the jobs does not matter to whether an id is among theirs.
contains-insert_newest :
    (id : Text) (job : BuildJobRecord) (jobs : List BuildJobRecord)
    → contains (ids_of (insert_newest job jobs)) id ≡ contains (job.id ∷ ids_of jobs) id
unfolding contains insert_newest
contains-insert_newest id job [] = refl
contains-insert_newest id job (next ∷ jobs) =
    elim (Bool-cases (leb next.created_at_ms job.created_at_ms)) [
      | inl older ↦ rw older refl
      | inr newer ↦
          rw (newer, contains-insert_newest id job jobs)
            (or-swap (text_eq next.id id) (text_eq job.id id) (contains (ids_of jobs) id))
    ]
  where
    or-swap : (a b c : Bool) → (a || (b || c)) ≡ (b || (a || c))
    or-swap a b c = ground arith

contains-newest_first :
    (id : Text) (jobs : List BuildJobRecord)
    → contains (ids_of (newest_first jobs)) id ≡ contains (ids_of jobs) id
unfolding contains newest_first
contains-newest_first id [] = refl
contains-newest_first id (job ∷ jobs) =
    contains-insert_newest id job (newest_first jobs)
    ∙ ap (λ (b : Bool). text_eq job.id id || b) (contains-newest_first id jobs)

-- The rows of jobs that the map does not have.
abbrev pub unknown_rows : AppState → List PersistedJob → List PersistedJob
unknown_rows state = keep (λ row. not (contains (ids_of (values state.jobs)) row.id))

persisted_rows-listed_jobs :
    (backend : Backend) (state : AppState)
    → persisted_rows (listed_jobs backend state)
      ≡ (if state.db then unknown_rows state backend.recent_jobs else [])
unfolding listed_jobs
persisted_rows-listed_jobs backend state = elim (Bool-cases state.db) [
  | inl on ↦ rw on (
      persisted_rows-append (newest_first (values state.jobs)) _
      ∙ ap (λ (p : PersistedJob → Bool). keep p backend.recent_jobs)
          (λ i row. not (contains-newest_first row.id (values state.jobs) i)))
  | inr off ↦ rw off (persisted_rows-only (newest_first (values state.jobs)))
]

-- The list of jobs shows each job of the map once, the newest first; and of the rows of a database
-- it shows those, in their order, whose id is not that of a job of the map, and none without one.
pub listed_jobs-IsNewestFirst :
    (backend : Backend) (state : AppState)
    → Perm (live_jobs (listed_jobs backend state)) (values state.jobs)
      × IsNewestFirst (live_jobs (listed_jobs backend state))
      × (persisted_rows (listed_jobs backend state)
          ≡ (if state.db then unknown_rows state backend.recent_jobs else []))
listed_jobs-IsNewestFirst backend state =
    rw (live_jobs-listed_jobs backend state, persisted_rows-listed_jobs backend state)
      (newest_first-Perm (values state.jobs), newest_first-IsNewestFirst (values state.jobs), refl)
