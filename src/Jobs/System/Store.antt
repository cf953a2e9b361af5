-- ===== src/Jobs/System/Store.antt =====
-- src/jobs.rs, src/events.rs: what an update of a job leaves alone, and what it does to the job map.
use gha_indie_worker_rs.Prelude.{
  ℕ, ◌≡◌, refl, ◌∙◌, Bool, true, false, Option, none, some, List, [], ◌∷◌, ◌++◌, if◌then◌else◌,
}
use gha_indie_worker_rs.Text.{Text}
use gha_indie_worker_rs.Types.{BuildJobRecord}
use gha_indie_worker_rs.State.{
  AppState, Counters, Call, Payload, publish, persist_job, with_call, Jobs,
}
use gha_indie_worker_rs.Events.{
  publish_event, publish_lifecycle, count_publish, is_terminal, is_failed,
}
use gha_indie_worker_rs.Jobs.Map.{lookup, insert}
use gha_indie_worker_rs.Jobs.Store.{update_job, persist}

-- `t` differs from `s` in its calls and in the counters of NATS at most.
pub record SameCore (s t : AppState) : Type 0 where
  pub config : t.config ≡ s.config
  pub jobs : t.jobs ≡ s.jobs
  pub permits : t.permits ≡ s.permits
  pub claims : t.recent_request_ids ≡ s.recent_request_ids
  pub running : t.counters.running ≡ s.counters.running
  pub submitted : t.counters.submitted ≡ s.counters.submitted

SameCore-refl : (s : AppState) → SameCore s s
SameCore-refl s = record {
  config = refl;
  jobs = refl;
  permits = refl;
  claims = refl;
  running = refl;
  submitted = refl;
}

SameCore-trans : (s t u : AppState) → SameCore s t → SameCore t u → SameCore s u
SameCore-trans s t u h k = record {
  config = k.config ∙ h.config;
  jobs = k.jobs ∙ h.jobs;
  permits = k.permits ∙ h.permits;
  claims = k.claims ∙ h.claims;
  running = k.running ∙ h.running;
  submitted = k.submitted ∙ h.submitted;
}

SameCore-if :
    (b : Bool) (s t u : AppState) → SameCore s t → SameCore s u → SameCore s (if b then t else u)
SameCore-if true s t u h k = h
SameCore-if false s t u h k = k

running-count_publish : (b : Bool) (c : Counters) → (count_publish b c).running ≡ c.running
running-count_publish true c = refl
running-count_publish false c = refl

submitted-count_publish : (b : Bool) (c : Counters) → (count_publish b c).submitted ≡ c.submitted
submitted-count_publish true c = refl
submitted-count_publish false c = refl

SameCore-answered :
    (s : AppState) (subject : Text) (payload : Payload) (nats : Option (List Call → Bool))
    → SameCore s (elim nats as (λ _. AppState) [
      | none ↦ s
      | some answer ↦ record s {
        counters = count_publish (answer s.calls) s.counters;
        calls = s.calls ++ publish subject payload ∷ [];
      }
    ])
SameCore-answered s subject payload none = SameCore-refl s
SameCore-answered s subject payload (some answer) = record {
  config = refl;
  jobs = refl;
  permits = refl;
  claims = refl;
  running = running-count_publish (answer s.calls) s.counters;
  submitted = submitted-count_publish (answer s.calls) s.counters;
}

SameCore-publish_event :
    (s : AppState) (subject : Text) (payload : Payload)
    → SameCore s (publish_event s subject payload)
unfolding publish_event
SameCore-publish_event s subject payload = SameCore-answered s subject payload s.nats

-- A publish on a condition.
SameCore-publish_if :
    (b : Bool) (s t : AppState) (subject : Text) (payload : Payload)
    → SameCore s t
    → SameCore s (if b then publish_event t subject payload else t)
SameCore-publish_if true s t subject payload h =
    SameCore-trans s t _ h (SameCore-publish_event t subject payload)
SameCore-publish_if false s t subject payload h = h

pub SameCore-publish_lifecycle :
    (s : AppState) (job : BuildJobRecord) (now critical_now : ℕ)
    → SameCore s (publish_lifecycle s job now critical_now)
unfolding publish_lifecycle
SameCore-publish_lifecycle s job now critical_now =
    SameCore-publish_if (is_failed job.status) s _ _ _
      (SameCore-publish_if (is_terminal job.status) s _ _ _ (SameCore-publish_event s _ _))

SameCore-persist : (s : AppState) (job : BuildJobRecord) → SameCore s (persist s job)
SameCore-persist s job =
    SameCore-if s.db s (with_call s (persist_job job)) s
      (record {
        config = refl;
        jobs = refl;
        permits = refl;
        claims = refl;
        running = refl;
        submitted = refl;
      })
      (SameCore-refl s)

-- What an update does to the map.
abbrev pub put_updated :
    Text → (BuildJobRecord → BuildJobRecord) → Option BuildJobRecord → Jobs → Jobs
put_updated id mutate none jobs = jobs
put_updated id mutate (some job) jobs = insert id (mutate job) jobs

abbrev pub modified : Text → (BuildJobRecord → BuildJobRecord) → Jobs → Jobs
modified id mutate jobs = put_updated id mutate (lookup id jobs) jobs

module _ (s : AppState) (id : Text) (mutate : BuildJobRecord → BuildJobRecord)
    (now critical_now : ℕ) where
  updated_as :
      (found : Option BuildJobRecord)
      → SameCore
          (record s { jobs = put_updated id mutate found s.jobs })
          (elim found as (λ _. AppState) [
            | none ↦ s
            | some job ↦
                publish_lifecycle
                  (persist (record s { jobs = insert id (mutate job) s.jobs }) (mutate job))
                  (mutate job)
                  now
                  critical_now
          ])
  updated_as none = SameCore-refl s
  updated_as (some job) =
      let stored = record s { jobs = insert id (mutate job) s.jobs } in
      SameCore-trans stored (persist stored (mutate job)) _ (SameCore-persist stored (mutate job))
        (SameCore-publish_lifecycle (persist stored (mutate job)) (mutate job) now critical_now)

  -- An update changes the record of its job, and beyond that calls and NATS counters at most.
  pub SameCore-update_job :
      SameCore
        (record s { jobs = modified id mutate s.jobs })
        (update_job s id mutate now critical_now)
  unfolding update_job
  SameCore-update_job = updated_as (lookup id s.jobs)
