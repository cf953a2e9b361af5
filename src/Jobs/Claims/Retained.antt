-- ===== src/Jobs/Claims/Retained.antt =====
-- src/jobs.rs: an accepted job is in the map, queued, and its task is started; what NATS is told.
use gha_indie_worker_rs.Prelude.{
  ℕ, ◌≡◌, refl, ◌∙◌, ◌↔◌, some, arith, Bool-cases, inl, inr, Result, ok, err, if◌then◌else◌,
}
use gha_indie_worker_rs.Text.{Text, text_eq}
use gha_indie_worker_rs.Text.Laws.{text_eq_refl}
use gha_indie_worker_rs.Message.{Message}
use gha_indie_worker_rs.Types.{
  StatusCode, accepted, bad_request, unauthorized, not_found, conflict, internal_server_error,
  BuildRequest, BuildJobRecord, queued, service_unavailable, transient,
}
use gha_indie_worker_rs.State.{AppState}
use gha_indie_worker_rs.Jobs.Map.{lookup, insert}
use gha_indie_worker_rs.Jobs.Map.Laws.{lookup-insert, AllEntries-insert, Distinct-insert}
use gha_indie_worker_rs.Jobs.Store.{persist, prune_jobs, pruned, is_active}
use gha_indie_worker_rs.Jobs.Store.Prune.{lookup-pruned}
use gha_indie_worker_rs.Jobs.Enqueue.{Rejection, accept, new_record, map_enqueue_result}
use gha_indie_worker_rs.Jobs.Claims.Invariant.{IsConsistent}

jobs-persist : (s : AppState) (job : BuildJobRecord) → (persist s job).jobs ≡ s.jobs
jobs-persist s job = elim (Bool-cases s.db) [ inl on ↦ rw on refl | inr off ↦ rw off refl ]

config-persist : (s : AppState) (job : BuildJobRecord) → (persist s job).config ≡ s.config
config-persist s job = elim (Bool-cases s.db) [ inl on ↦ rw on refl | inr off ↦ rw off refl ]

module _ (s : AppState) (request : BuildRequest) (source : Text) (id_now created_now : ℕ)
    (h : IsConsistent s) where
  abbrev pub job : BuildJobRecord
  job = new_record s request source id_now created_now

  pub jobs-accept :
      (accept s request source id_now created_now).0.jobs
      ≡ pruned s.config.max_jobs (insert job.id job s.jobs)
  unfolding accept prune_jobs
  jobs-accept = elim (Bool-cases s.db) [ inl on ↦ rw on refl | inr off ↦ rw off refl ]

  pub lookup-accepted :
      lookup job.id (pruned s.config.max_jobs (insert job.id job s.jobs)) ≡ some job
  unfolding new_record is_active
  lookup-accepted =
      lookup-pruned job.id job s.config.max_jobs (insert job.id job s.jobs)
        (AllEntries-insert (λ k j. j.id ≡ k) job.id job s.jobs refl h.keyed)
        (Distinct-insert job.id job s.jobs h.distinct)
        (lookup-insert job.id job.id job s.jobs ∙ found) refl
    where
      found : (if text_eq job.id job.id then some job else lookup job.id s.jobs) ≡ some job
      found = rw (text_eq_refl job.id) refl

  -- A request that is accepted in a consistent state is retained: its job is in the map under its
  -- id, queued, with the request that was given, however many jobs pruning then removes.
  pub accept-lookup :
      (lookup job.id (accept s request source id_now created_now).0.jobs ≡ some job)
      × (job.status ≡ queued)
      × (job.request ≡ request)
  unfolding new_record
  accept-lookup = (rw jobs-accept lookup-accepted, refl, refl)

-- The result of an enqueue is reported as to be redelivered exactly when it is a 503, with its
-- message kept.
pub map_enqueue_result-eq-transient_iff :
    (result : Result BuildJobRecord Rejection) (error : Message)
    → (map_enqueue_result result ≡ err (transient error))
      ↔ (result ≡ err (service_unavailable, error))
unfolding map_enqueue_result
map_enqueue_result-eq-transient_iff (ok job) error = (λ h. ground arith, λ h. ground arith)
map_enqueue_result-eq-transient_iff (err (service_unavailable, m)) error =
    (λ h. ground arith, λ h. ground arith)
map_enqueue_result-eq-transient_iff (err (StatusCode.ok, m)) error =
    (λ h. ground arith, λ h. ground arith)
map_enqueue_result-eq-transient_iff (err (accepted, m)) error =
    (λ h. ground arith, λ h. ground arith)
map_enqueue_result-eq-transient_iff (err (bad_request, m)) error =
    (λ h. ground arith, λ h. ground arith)
map_enqueue_result-eq-transient_iff (err (unauthorized, m)) error =
    (λ h. ground arith, λ h. ground arith)
map_enqueue_result-eq-transient_iff (err (not_found, m)) error =
    (λ h. ground arith, λ h. ground arith)
map_enqueue_result-eq-transient_iff (err (conflict, m)) error =
    (λ h. ground arith, λ h. ground arith)
map_enqueue_result-eq-transient_iff (err (internal_server_error, m)) error =
    (λ h. ground arith, λ h. ground arith)
