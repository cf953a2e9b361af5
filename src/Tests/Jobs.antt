-- ===== src/Tests/Jobs.antt =====
-- Tests of the claims, the ids and the pruning.
use gha_indie_worker_rs.Prelude.{◌≡◌, refl, ◌↔◌, arith, true, some, [], ◌∷◌}
use gha_indie_worker_rs.Text.{text, text_eq, contains}
use gha_indie_worker_rs.Text.Decimal.{decimal}
use gha_indie_worker_rs.Types.{BuildJobRecord, queued}
use gha_indie_worker_rs.State.{Jobs}
use gha_indie_worker_rs.Jobs.Map.{lookup}
use gha_indie_worker_rs.Jobs.Requests.{requests_match}
use gha_indie_worker_rs.Jobs.Requests.Laws.{requests_match_iff}
use gha_indie_worker_rs.Jobs.Store.{pruned, is_active}
use gha_indie_worker_rs.Jobs.Store.Prune.{lookup-pruned}
use gha_indie_worker_rs.Jobs.Enqueue.{enqueue_build, accept, job_id, new_record}
use gha_indie_worker_rs.Jobs.Claims.Holders.{count_holders}
use gha_indie_worker_rs.Jobs.Claims.Invariant.{IsConsistent}
use gha_indie_worker_rs.Jobs.Claims.Cases.{Enqueued, enqueue_build_cases}
use gha_indie_worker_rs.Jobs.Claims.Enqueue.{enqueue_build-IsConsistent}
use gha_indie_worker_rs.Jobs.Claims.Retained.{accept-lookup}
use gha_indie_worker_rs.Prelude.{ok}
use gha_indie_worker_rs.Jobs.Nats.{
  IsTransient, IsPutOff, submit_from_nats, submit_from_nats-IsTransient_iff,
}
use gha_indie_worker_rs.Tests.Data.{initial, profile_request, image_request, after_one}

initial-IsConsistent : IsConsistent initial
unfolding count_holders contains
initial-IsConsistent = record { held = λ r. refl; fresh = tt; keyed = tt; distinct = tt }

after_one-IsConsistent : IsConsistent after_one
after_one-IsConsistent =
    enqueue_build-IsConsistent initial profile_request (text "http") 7 7 initial-IsConsistent
      (omega arith)

enqueue_build-IsConsistent_example :
    IsConsistent (enqueue_build initial profile_request (text "http") 7 7).0
enqueue_build-IsConsistent_example =
    enqueue_build-IsConsistent initial profile_request (text "http") 7 7 initial-IsConsistent
      (omega arith)

enqueue_build_cases_example :
    Enqueued after_one profile_request
      (text "http")
      8
      8
      (enqueue_build after_one profile_request (text "http") 8 8)
enqueue_build_cases_example =
    enqueue_build_cases after_one profile_request (text "http") 8 8 after_one-IsConsistent

requests_match_iff_example :
    (requests_match profile_request image_request ≡ true) ↔ (profile_request ≡ image_request)
requests_match_iff_example = requests_match_iff profile_request image_request

abbrev first_job : BuildJobRecord
first_job = new_record initial profile_request (text "http") 7 7

abbrev one_job : Jobs
one_job = (text "build-7-1", first_job) ∷ []

lookup-pruned_example : lookup (text "build-7-1") (pruned 0 one_job) ≡ some first_job
unfolding lookup text_eq is_active new_record job_id decimal
lookup-pruned_example =
    lookup-pruned (text "build-7-1") first_job 0 one_job (refl, tt) (refl, tt) refl refl

accept-lookup_example :
    (lookup first_job.id (accept initial profile_request (text "http") 7 7).0.jobs ≡ some first_job)
    × (first_job.status ≡ queued)
    × (first_job.request ≡ profile_request)
accept-lookup_example = accept-lookup initial profile_request (text "http") 7 7 initial-IsConsistent

submit_from_nats-IsTransient_iff_example :
    IsTransient (submit_from_nats (λ payload. ok profile_request) initial (text "payload") 7 7).1
    ↔ IsPutOff initial profile_request
submit_from_nats-IsTransient_iff_example =
    submit_from_nats-IsTransient_iff (λ payload. ok profile_request) initial (text "payload") 7 7
      profile_request initial-IsConsistent refl
