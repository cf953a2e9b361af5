-- ===== src/Jobs/Claims/Admission.antt =====
-- src/jobs.rs: an accepted job keeps the invariant of the claims.
use gha_indie_worker_rs.Prelude.{
  ℕ, ◌+◌, ◌^◌, ◌<◌, ◌≡◌, refl, Bool, true, false, Option, none, some, List, ◌||◌, arith,
  if◌then◌else◌,
}
use gha_indie_worker_rs.Text.{Text, text_eq, contains}
use gha_indie_worker_rs.Text.Laws.{text_eq_iff}
use gha_indie_worker_rs.Types.{BuildRequest, BuildJobRecord}
use gha_indie_worker_rs.State.{AppState, Call, persist_job, spawn_run_job, with_call, fetch_add}
use gha_indie_worker_rs.Validation.Fields.{clean_optional}
use gha_indie_worker_rs.Jobs.Map.{lookup, insert}
use gha_indie_worker_rs.Jobs.Map.Laws.{AllEntries-insert, Distinct-insert}
use gha_indie_worker_rs.Jobs.Store.{prune_jobs, persist}
use gha_indie_worker_rs.Jobs.Enqueue.{has_request_id, new_record, store_job, accept, remember}
use gha_indie_worker_rs.Jobs.Claims.Holders.{count_holders, count_holders-insert_new}
use gha_indie_worker_rs.Jobs.Claims.Ids.{IdsBelow, lookup-fresh}
use gha_indie_worker_rs.Jobs.Claims.Invariant.{
  one_if, IsConsistent, prune_jobs-IsConsistent, IdsBelow-mono,
}

-- The id that a request claims, compared with `r`.
abbrev pub claims : Option Text → Text → Bool
claims none r = false
claims (some i) r = text_eq i r

has_request_id-new_record :
    (s : AppState) (request : BuildRequest) (source : Text) (id_now created_now : ℕ) (r : Text)
    → has_request_id r (new_record s request source id_now created_now)
      ≡ claims (clean_optional request.request_id) r
unfolding has_request_id new_record
has_request_id-new_record s request source id_now created_now r = ground arith

contains-remember :
    (seen : List Text) (id : Option Text) (r : Text)
    → contains (remember seen id) r ≡ (contains seen r || claims id r)
unfolding contains
contains-remember seen none r = ground arith
contains-remember seen (some i) r = ground (arith, text_eq_iff i r)

-- The request id, if there is one, is not claimed.
abbrev pub IsUnclaimed : AppState → BuildRequest → Type 0
IsUnclaimed s request =
    (r : Text)
    → claims (clean_optional request.request_id) r ≡ true
    → contains s.recent_request_ids r ≡ false

fetch_add_small : (n : ℕ) → n + 1 < 2 ^ 64 → fetch_add n ≡ n + 1
fetch_add_small n h = omega arith

with_call-IsConsistent : (s : AppState) (c : Call) → IsConsistent s → IsConsistent (with_call s c)
with_call-IsConsistent s c h = record {
  held = h.held;
  fresh = h.fresh;
  keyed = h.keyed;
  distinct = h.distinct;
}

if-IsConsistent :
    (b : Bool) (s t : AppState)
    → IsConsistent s
    → IsConsistent t
    → IsConsistent (if b then s else t)
if-IsConsistent true s t h k = h
if-IsConsistent false s t h k = k

persist-IsConsistent :
    (s : AppState) (job : BuildJobRecord) → IsConsistent s → IsConsistent (persist s job)
persist-IsConsistent s job h =
    if-IsConsistent s.db (with_call s (persist_job job)) s (with_call-IsConsistent s _ h) h

module _ (s : AppState) (request : BuildRequest) (source : Text) (id_now created_now : ℕ)
    (h : IsConsistent s) (small : s.counters.submitted + 1 < 2 ^ 64) where
  abbrev job : BuildJobRecord
  job = new_record s request source id_now created_now

  lookup-new_record : lookup job.id s.jobs ≡ none
  unfolding new_record
  lookup-new_record =
      lookup-fresh s.counters.submitted id_now (fetch_add s.counters.submitted) s.jobs h.fresh
        (omega arith)

  IdsBelow-new_record : IdsBelow (fetch_add s.counters.submitted) (insert job.id job s.jobs)
  unfolding new_record
  IdsBelow-new_record =
      AllEntries-insert _ job.id job s.jobs
        (id_now, fetch_add s.counters.submitted, refl, omega arith)
        (IdsBelow-mono s.counters.submitted (fetch_add s.counters.submitted) s.jobs (omega arith)
          h.fresh)

  held_after_insert :
      IsUnclaimed s request
      → (r : Text)
      → count_holders r (insert job.id job s.jobs)
        ≡ one_if (contains (remember s.recent_request_ids (clean_optional request.request_id)) r)
  held_after_insert unclaimed r = ground (
    arith,
    count_holders-insert_new r job.id job s.jobs lookup-new_record,
    has_request_id-new_record s request source id_now created_now r,
    contains-remember s.recent_request_ids (clean_optional request.request_id) r,
    unclaimed r,
    h.held r,
  )

  -- A new job under a fresh id, with its claim remembered, keeps the invariant.
  pub accept-IsConsistent :
      IsUnclaimed s request → IsConsistent (accept s request source id_now created_now).0
  unfolding accept
  accept-IsConsistent unclaimed =
      let stored = store_job s request job in
      with_call-IsConsistent (prune_jobs (persist stored job)) (spawn_run_job job.id) (
        prune_jobs-IsConsistent (persist stored job) (
          persist-IsConsistent stored job (record {
            held = held_after_insert unclaimed;
            fresh = IdsBelow-new_record;
            keyed = AllEntries-insert (λ k job. job.id ≡ k) job.id job s.jobs refl h.keyed;
            distinct = Distinct-insert job.id job s.jobs h.distinct;
          })))
