-- ===== src/Jobs/System/Follows.antt =====
-- src/jobs.rs: the refinement theorem for the server, a submission included, and what it says of a
-- run.
use gha_indie_worker_rs.Prelude.{
  ℕ, ◌+◌, ◌^◌, ◌≤◌, ◌<◌, ◌≡◌, refl, sym, ◌∙◌, inl, inr, Option, none, some, [], ◌∷◌, ◌++◌, arith,
  Bool-cases, length, drop,
}
use mathlib.Core.List.{append-nil}
use gha_indie_worker_rs.Text.{Text, text_eq}
use gha_indie_worker_rs.Text.Laws.{text_eq_sound, text_eq_refl}
use gha_indie_worker_rs.Message.{Message, lit}
use gha_indie_worker_rs.Types.{BuildRequest, BuildJobRecord, queued}
use gha_indie_worker_rs.State.{AppState, Jobs, fetch_add}
use gha_indie_worker_rs.Fiducia.{LockGrant}
use gha_indie_worker_rs.Jobs.Map.{lookup, insert}
use gha_indie_worker_rs.Jobs.Map.Laws.{AllEntries-insert, Distinct-insert, lookup-insert}
use gha_indie_worker_rs.Jobs.Store.{prune_jobs, pruned}
use gha_indie_worker_rs.Jobs.Enqueue.{accept, new_record, job_id}
use gha_indie_worker_rs.Jobs.Claims.Ids.{IsOld, lookup-fresh, ne_old}
use gha_indie_worker_rs.Jobs.Claims.Retained.{jobs-accept, lookup-accepted}
use gha_indie_worker_rs.Jobs.Run.{Readings, queue_closed, start_job, as_failed, as_running}
use gha_indie_worker_rs.Jobs.System.{Phase, waiting, Tasks, System, phase_of, spawned}
use gha_indie_worker_rs.Jobs.System.Tasks.{
  phase_of-append, DistinctTasks-append_one, TasksBelow, TasksBelow-mono, phase_of-fresh,
  spawned-accept, spawned-none,
}
use gha_indie_worker_rs.Jobs.System.Lifecycle.{
  status_of, active_status, Lifecycle, unchanged, admitted, Lifecycle-pruned, lookup-pruned-or_none,
}
use gha_indie_worker_rs.Jobs.System.Agree.{phase_status}
use gha_indie_worker_rs.Jobs.System.Refines.{
  IsLive, IsFollowed, IsUpdate, Untouched, update-IsUpdate,
}

pub queue_closed-IsUpdate :
    (s : AppState) (id : Text) (error : Message) (now : Readings)
    → IsUpdate s
        (queue_closed s id error now)
        id
        (as_failed (lit "build queue is closed: " ∷ error) now.at)
unfolding queue_closed
queue_closed-IsUpdate s id error now = update-IsUpdate s id _ now

pub start_job-IsUpdate :
    (s : AppState) (id : Text) (grant : Option LockGrant) (now : Readings)
    → IsUpdate s (start_job s id grant now) id (as_running grant now.at)
unfolding start_job
start_job-IsUpdate s id grant now =
    let h =
      update-IsUpdate
        (record s { counters = record s.counters { running = fetch_add s.counters.running } }) id
        (as_running grant now.at) now in
    record { jobs = h.jobs; submitted = h.submitted }

-- A request that is not accepted starts no task.
pub idle-IsFollowed :
    (s : System) (app : AppState)
    → IsLive s
    → Untouched s.app app
    → app.calls ≡ s.app.calls
    → IsFollowed s
        (record { app = app; tasks = s.tasks ++ spawned (drop (length s.app.calls) app.calls) })
idle-IsFollowed s app h (jobs, submitted) calls =
    rw (calls, spawned-none s.app.calls, append-nil)
      (record {
        below = rw submitted h.below;
        distinct = h.distinct;
        agree = rw jobs h.agree;
        lives = λ j. rw jobs (unchanged (status_of (lookup j s.app.jobs)));
        stays_absent = λ j _ absent. rw jobs absent;
        grown = rw submitted (omega arith);
        counted = rw submitted (omega arith);
      })

submitted-accept :
    (s : AppState) (request : BuildRequest) (source : Text) (id_now created_now : ℕ)
    → (accept s request source id_now created_now).0.counters.submitted
      ≡ fetch_add s.counters.submitted
unfolding accept prune_jobs
submitted-accept s request source id_now created_now = elim (Bool-cases s.db) [
  | inl on ↦ rw on refl
  | inr off ↦ rw off refl
]

status-new_record :
    (s : AppState) (request : BuildRequest) (source : Text) (id_now created_now : ℕ)
    → (new_record s request source id_now created_now).status ≡ queued
unfolding new_record
status-new_record s request source id_now created_now = refl

id-new_record :
    (s : AppState) (request : BuildRequest) (source : Text) (id_now created_now : ℕ)
    → (new_record s request source id_now created_now).id
      ≡ job_id id_now (fetch_add s.counters.submitted)
unfolding new_record
id-new_record s request source id_now created_now = refl

below-append_one :
    (n : ℕ) (id : Text) (p : Phase) (tasks : Tasks)
    → TasksBelow n tasks
    → (t : ℕ) × (c : ℕ) × (id ≡ job_id t c) × (c ≤ n)
    → TasksBelow n (tasks ++ (id, p) ∷ [])
below-append_one n id p [] h b = (b, tt)
below-append_one n id p (task ∷ tasks) (first, h) b = (first, below-append_one n id p tasks h b)

module _ (s : System) (h : IsLive s) (small : s.app.counters.submitted + 1 < 2 ^ 64)
    (request : BuildRequest) (source : Text) (id_now created_now : ℕ) where
  abbrev job : BuildJobRecord
  job = new_record s.app request source id_now created_now

  abbrev inserted : Jobs
  inserted = insert job.id job s.app.jobs

  abbrev pruned_jobs : Jobs
  pruned_jobs = pruned s.app.config.max_jobs inserted

  new_id : lookup job.id s.app.jobs ≡ none
  new_id = rw (id-new_record s.app request source id_now created_now) (
      lookup-fresh s.app.counters.submitted id_now (fetch_add s.app.counters.submitted) s.app.jobs
        h.consistent.fresh (omega arith))

  new_task : phase_of job.id s.tasks ≡ none
  new_task = rw (id-new_record s.app request source id_now created_now) (
      phase_of-fresh s.app.counters.submitted id_now (fetch_add s.app.counters.submitted) s.tasks
        h.below (omega arith))

  -- What pruning does to each job id after the insertion.
  pruned_life :
      (j : Text)
      → Lifecycle (status_of (lookup j inserted)) (status_of (lookup j pruned_jobs))
        × (active_status (lookup j pruned_jobs) ≡ active_status (lookup j inserted))
  pruned_life j =
      Lifecycle-pruned j s.app.config.max_jobs inserted
        (AllEntries-insert (λ k x. x.id ≡ k) job.id job s.app.jobs refl h.consistent.keyed)
        (Distinct-insert job.id job s.app.jobs h.consistent.distinct)

  kept_job : lookup job.id pruned_jobs ≡ some job
  kept_job = lookup-accepted s.app request source id_now created_now h.consistent

  accepted_life :
      (j : Text) → Lifecycle (status_of (lookup j s.app.jobs)) (status_of (lookup j pruned_jobs))
  accepted_life j = elim (Bool-cases (text_eq job.id j)) [
    | inl hit ↦
        rw
          (
            ← text_eq_sound job.id j hit,
            new_id,
            kept_job,
            status-new_record s.app request source id_now created_now,
          )
          admitted
    | inr miss ↦ rw (lookup-insert job.id j job s.app.jobs, miss) at (pruned_life j).0
  ]

  -- An id of before, that has no job, gets none.
  accepted_absent :
      (j : Text)
      → IsOld s.app.counters.submitted j
      → lookup j s.app.jobs ≡ none
      → lookup j pruned_jobs ≡ none
  accepted_absent j old absent = elim (Bool-cases (text_eq job.id j)) [
    | inl hit ↦ absurd (
        ne_old s.app.counters.submitted id_now (fetch_add s.app.counters.submitted) j old
          (omega arith)
          (sym (id-new_record s.app request source id_now created_now)
            ∙ text_eq_sound job.id j hit))
    | inr miss ↦
        let before : lookup j inserted ≡ none =
          rw (lookup-insert job.id j job s.app.jobs, miss) absent in
        elim (lookup-pruned-or_none j s.app.config.max_jobs inserted
          (Distinct-insert job.id job s.app.jobs h.consistent.distinct)) [
            | inl same ↦ same ∙ before
            | inr gone ↦ gone
          ]
  ]

  accepted_agree :
      (j : Text)
      → phase_status (phase_of j (s.tasks ++ (job.id, waiting) ∷ []))
        ≡ active_status (lookup j pruned_jobs)
  unfolding phase_of
  accepted_agree j = elim (Bool-cases (text_eq job.id j)) [
    | inl hit ↦
        rw
          (
            phase_of-append j s.tasks ((job.id, waiting) ∷ []),
            ← text_eq_sound job.id j hit,
            new_task,
            kept_job,
            text_eq_refl job.id,
            status-new_record s.app request source id_now created_now,
          )
          refl
    | inr miss ↦ ground (
      arith,
      phase_of-append j s.tasks ((job.id, waiting) ∷ []),
      h.agree j,
      pruned_life j,
      lookup-insert job.id j job s.app.jobs,
    )
  ]

  pub accept-IsFollowed : IsFollowed s (record {
    app = (accept s.app request source id_now created_now).0;
    tasks =
        s.tasks
        ++ spawned
            (drop (length s.app.calls) (accept s.app request source id_now created_now).0.calls);
  })
  accept-IsFollowed =
      rw (spawned-accept s.app request source id_now created_now job.id refl) (record {
        below = rw (submitted-accept s.app request source id_now created_now) (
            below-append_one (fetch_add s.app.counters.submitted) job.id waiting s.tasks
              (TasksBelow-mono s.app.counters.submitted (fetch_add s.app.counters.submitted) s.tasks
                (omega arith) h.below)
              (
                id_now,
                fetch_add s.app.counters.submitted,
                id-new_record s.app request source id_now created_now,
                omega arith,
              ));
        distinct = DistinctTasks-append_one job.id waiting s.tasks new_task h.distinct;
        agree =
            rw (jobs-accept s.app request source id_now created_now h.consistent) accepted_agree;
        lives = rw (jobs-accept s.app request source id_now created_now h.consistent) accepted_life;
        stays_absent =
            rw (jobs-accept s.app request source id_now created_now h.consistent) accepted_absent;
        grown = rw (submitted-accept s.app request source id_now created_now) (omega arith);
        counted = rw (submitted-accept s.app request source id_now created_now) (omega arith);
      })
