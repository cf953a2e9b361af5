-- ===== src/Jobs/Nats.antt =====
-- src/nats_submit.rs and src/jobs.rs: a build request that comes over NATS. `from_slice` is
-- serde_json's.
use gha_indie_worker_rs.Prelude.{ℕ, ◌≤◌, ◌≡◌, ◌↔◌, true, some, ◌∷◌, find, arith, Result, ok, err}
use gha_indie_worker_rs.Text.{Text, text}
use gha_indie_worker_rs.Message.{Message, lit}
use gha_indie_worker_rs.Types.{
  BuildRequest, BuildJobRecord, NatsSubmitError, invalid, transient, conflict, service_unavailable,
}
use gha_indie_worker_rs.State.{AppState}
use gha_indie_worker_rs.Validation.Fields.{clean_optional}
use gha_indie_worker_rs.Validation.Requests.{validate_build_request}
use gha_indie_worker_rs.Jobs.Map.{values}
use gha_indie_worker_rs.Jobs.Enqueue.{
  Rejection, Outcome, enqueue_build, map_enqueue_result, has_request_id, count_queued, accept,
}
use gha_indie_worker_rs.Jobs.Claims.Admission.{IsUnclaimed, claims}
use gha_indie_worker_rs.Text.Laws.{text_eq_refl}
use gha_indie_worker_rs.Jobs.Claims.Holders.{find-eq-some_count}
use gha_indie_worker_rs.Jobs.Claims.Invariant.{IsConsistent}
use gha_indie_worker_rs.Jobs.Claims.Cases.{
  Enqueued, refused, reattached, conflicting, full, accepted, enqueue_build_cases,
}

abbrev pub NatsOutcome : Type 0
NatsOutcome = AppState × Result (Unit {0}) NatsSubmitError

-- src/jobs.rs: `submit_from_nats` acknowledges a conflict.
abbrev pub acknowledge : Result BuildJobRecord Rejection → Result (Unit {0}) NatsSubmitError
acknowledge (ok _) = ok tt
acknowledge (err (conflict, message)) = ok tt
acknowledge (err (service_unavailable, message)) = err (transient message)
acknowledge (err (_, message)) = err (invalid message)

abbrev pub mapped :
    (Result BuildJobRecord Rejection → Result (Unit {0}) NatsSubmitError) → Outcome → NatsOutcome
mapped f (state, result) = (state, f result)

abbrev pub on_parsed :
    Result BuildRequest Message
    → (Message → NatsOutcome)
    → (BuildRequest → NatsOutcome)
    → NatsOutcome
on_parsed (err error) failed next = failed error
on_parsed (ok request) failed next = next request

module _ (from_slice : Text → Result BuildRequest Message) (state : AppState) (payload : Text)
    (id_now created_now : ℕ) where
  unfoldable pub submit_malformed_from_nats : NatsOutcome
  submit_malformed_from_nats =
      on_parsed (from_slice payload)
        (λ error. (state, err (invalid (lit "invalid build request JSON: " ∷ error))))
        (λ request.
          mapped acknowledge (enqueue_build state request (text "nats") id_now created_now))

  unfoldable pub submit_from_nats : NatsOutcome
  unfolding submit_malformed_from_nats
  submit_from_nats =
      on_parsed (from_slice payload) (λ _. submit_malformed_from_nats)
        (λ request.
          mapped map_enqueue_result (enqueue_build state request (text "nats") id_now created_now))

-- The answer that has the message delivered again.
abbrev pub IsTransient : Result (Unit {0}) NatsSubmitError → Type 0
IsTransient (ok _) = ⊥
IsTransient (err (invalid _)) = ⊥
IsTransient (err (transient _)) = Unit

-- A request that is new and valid meets a full queue.
abbrev pub IsPutOff : AppState → BuildRequest → Type 0
IsPutOff state request =
    (validate_build_request state.config request ≡ ok tt)
    × IsUnclaimed state request
    × (state.config.max_queued ≤ count_queued state.jobs)

no_holder :
    (s : AppState) (request : BuildRequest) (r : Text) (job : BuildJobRecord)
    → IsConsistent s
    → IsUnclaimed s request
    → clean_optional request.request_id ≡ some r
    → find (has_request_id r) (values s.jobs) ≡ some job
    → ⊥
no_holder s request r job h free e found =
    let claimed : claims (clean_optional request.request_id) r ≡ true = rw e (text_eq_refl r) in
    ground (arith, h.held r, free r claimed, find-eq-some_count r s.jobs job)

Enqueued-IsTransient_iff :
    (s : AppState) (request : BuildRequest) (source : Text) (id_now created_now : ℕ) (o : Outcome)
    → IsConsistent s
    → Enqueued s request source id_now created_now o
    → IsTransient (map_enqueue_result o.1) ↔ IsPutOff s request
unfolding map_enqueue_result accept
Enqueued-IsTransient_iff s request source id_now created_now o h (refused e bad out) =
    rw out (λ k. absurd k, λ (valid, _, _). cc)
Enqueued-IsTransient_iff s request source id_now created_now o h
      (reattached r job _ e found _ out) =
    rw out (λ k. absurd k, λ (_, free, _). absurd (no_holder s request r job h free e found))
Enqueued-IsTransient_iff s request source id_now created_now o h
      (conflicting r job _ e found _ out) =
    rw out (λ k. absurd k, λ (_, free, _). absurd (no_holder s request r job h free e found))
Enqueued-IsTransient_iff s request source id_now created_now o h (full valid free over out) =
    rw out (λ _. (valid, free, over), λ _. tt)
Enqueued-IsTransient_iff s request source id_now created_now o h (accepted _ _ room out) =
    rw out (λ k. absurd k, λ (_, _, over). absurd (omega arith))

-- In a consistent state, a message that parses is put off, to be delivered again, exactly when its
-- request is valid, its request id is not claimed and the queue is full.
pub submit_from_nats-IsTransient_iff :
    (from_slice : Text → Result BuildRequest Message) (state : AppState) (payload : Text)
    (id_now created_now : ℕ) (request : BuildRequest)
    → IsConsistent state
    → from_slice payload ≡ ok request
    → IsTransient (submit_from_nats from_slice state payload id_now created_now).1
      ↔ IsPutOff state request
unfolding submit_from_nats
submit_from_nats-IsTransient_iff from_slice state payload id_now created_now request h e = rw e (
    Enqueued-IsTransient_iff state request (text "nats") id_now created_now
      (enqueue_build state request (text "nats") id_now created_now) h
      (enqueue_build_cases state request (text "nats") id_now created_now h))
