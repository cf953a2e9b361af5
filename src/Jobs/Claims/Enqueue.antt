-- ===== src/Jobs/Claims/Enqueue.antt =====
-- src/jobs.rs: `enqueue_build` keeps the invariant of the claims.
use gha_indie_worker_rs.Prelude.{ℕ, ◌+◌, ◌^◌, ◌<◌}
use gha_indie_worker_rs.Text.{Text}
use gha_indie_worker_rs.Types.{BuildRequest}
use gha_indie_worker_rs.State.{AppState}
use gha_indie_worker_rs.Jobs.Enqueue.{Outcome, count_rejected, enqueue_build}
use gha_indie_worker_rs.Jobs.Claims.Invariant.{IsConsistent}
use gha_indie_worker_rs.Jobs.Claims.Admission.{accept-IsConsistent}
use gha_indie_worker_rs.Jobs.Claims.Cases.{
  Enqueued, refused, reattached, conflicting, full, accepted, enqueue_build_cases,
}

count_rejected-IsConsistent : (s : AppState) → IsConsistent s → IsConsistent (count_rejected s)
count_rejected-IsConsistent s h = record {
  held = h.held;
  fresh = h.fresh;
  keyed = h.keyed;
  distinct = h.distinct;
}

module _ (s : AppState) (request : BuildRequest) (source : Text) (id_now created_now : ℕ)
    (h : IsConsistent s) (small : s.counters.submitted + 1 < 2 ^ 64) where
  Enqueued-IsConsistent :
      (o : Outcome) → Enqueued s request source id_now created_now o → IsConsistent o.0
  Enqueued-IsConsistent o (refused _ _ e) = rw e (count_rejected-IsConsistent s h)
  Enqueued-IsConsistent o (reattached _ _ _ _ _ _ e) = rw e h
  Enqueued-IsConsistent o (conflicting _ _ _ _ _ _ e) = rw e (count_rejected-IsConsistent s h)
  Enqueued-IsConsistent o (full _ _ _ e) = rw e (count_rejected-IsConsistent s h)
  Enqueued-IsConsistent o (accepted _ unclaimed _ e) =
      rw e (accept-IsConsistent s request source id_now created_now h small unclaimed)

  -- A call of `enqueue_build` on a consistent state, where the counter of submissions does not wrap
  -- around, leaves a consistent state: each claimed request id is held by exactly one retained job,
  -- an id that is not claimed by none, and the ids of the jobs are distinct.
  pub enqueue_build-IsConsistent :
      IsConsistent (enqueue_build s request source id_now created_now).0
  enqueue_build-IsConsistent =
      Enqueued-IsConsistent _ (enqueue_build_cases s request source id_now created_now h)
