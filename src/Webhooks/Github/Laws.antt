-- ===== src/Webhooks/Github/Laws.antt =====
-- src/webhooks.rs: which deliveries reach `enqueue_build`.
use gha_indie_worker_rs.Prelude.{
  ◌≡◌, refl, ◌∙◌, ◌≢◌, ◌⊎◌, inl, inr, Bool, true, false, not, ◌&&◌, ◌||◌, Option, none, some, List,
  [], ◌∷◌, find, ltb, is_empty, unwrap_or, arith, Bool-cases, Result, ok, err, if◌then◌else◌,
}
use gha_indie_worker_rs.Text.{Text, text, text_eq, len}
use gha_indie_worker_rs.Json.{Value}
use gha_indie_worker_rs.Message.{Message, lit}
use gha_indie_worker_rs.Types.{StatusCode, accepted, bad_request}
use gha_indie_worker_rs.Rules.{WebhookRule}
use gha_indie_worker_rs.State.{AppState}
use gha_indie_worker_rs.Fiducia.{idempotency_claim}
use gha_indie_worker_rs.Webhooks.Matching.{rule_matches, valid_commit_sha}
use gha_indie_worker_rs.Webhooks.Github.{
  Bytes, Services, Headers, Times, Handled, Delivery, verify_github_signature, subject_of, repo_of,
  finish_lease, record_delivery, act_on, claim_lease, deduplicate, deliver, github_webhook,
  with_secret, already_seen, idem_key, count_webhook_received, problem,
}

-- No job is added or changed, and the answer is not 202.
abbrev pub IsQuiet : AppState → Handled → Type 0
IsQuiet s o = (o.0.jobs ≡ s.jobs) × (o.1 ≢ accepted)

abbrev pub IsAmong : WebhookRule → List WebhookRule → Type 0
IsAmong rule [] = ⊥
IsAmong rule (r ∷ rules) = (rule ≡ r) ⊎ IsAmong rule rules

-- One of the rules takes the delivery, whose event is one to act on and whose commit is a plausible
-- hash.
pub record IsTaken (rules : List WebhookRule) (delivery : Delivery) : Type 0 where
  pub actionable : delivery.subject.actionable ≡ true
  pub sha : valid_commit_sha delivery.subject.sha ≡ true
  pub rule : WebhookRule
  pub among : IsAmong rule rules
  pub matches : rule_matches rule delivery.event delivery.repo delivery.subject.git_ref ≡ true

find-holds :
    (p : WebhookRule → Bool) (rules : List WebhookRule) (rule : WebhookRule)
    → find p rules ≡ some rule
    → p rule ≡ true
find-holds p [] rule h = cc
find-holds p (r ∷ rules) rule h = elim (Bool-cases (p r)) [
  | inl hit ↦ let same : r ≡ rule = ground arith in rw (← same) hit
  | inr miss ↦ find-holds p rules rule (rw miss at h)
]

find-IsAmong :
    (p : WebhookRule → Bool) (rules : List WebhookRule) (rule : WebhookRule)
    → find p rules ≡ some rule
    → IsAmong rule rules
find-IsAmong p [] rule h = cc
find-IsAmong p (r ∷ rules) rule h = elim (Bool-cases (p r)) [
  | inl hit ↦ let same : rule ≡ r = ground arith in inl same
  | inr miss ↦ inr (find-IsAmong p rules rule (rw miss at h))
]

jobs-finish_lease :
    (s : AppState) (id : Text) (succeeded : Bool) → (finish_lease s id succeeded).jobs ≡ s.jobs
jobs-finish_lease s id succeeded = elim (Bool-cases s.config.coordination_enabled) [
  | inl on ↦ rw on refl
  | inr off ↦ rw off refl
]

jobs-record_delivery :
    (s : AppState) (d : Delivery) (id action : Text) → (record_delivery s d id action).jobs ≡ s.jobs
jobs-record_delivery s d id action = elim (Bool-cases s.db) [
  | inl on ↦ rw on refl
  | inr off ↦ rw off refl
]

config-record_delivery :
    (s : AppState) (d : Delivery) (id action : Text)
    → (record_delivery s d id action).config ≡ s.config
config-record_delivery s d id action = elim (Bool-cases s.db) [
  | inl on ↦ rw on refl
  | inr off ↦ rw off refl
]

ok_not_accepted : StatusCode.ok ≢ accepted
ok_not_accepted e = cc

guard-facts : (a b c : Bool) → (not a || b || not c) ≡ false → (a ≡ true) × (c ≡ true)
guard-facts true b true h = (refl, refl)
guard-facts true b false h = ground arith
guard-facts false b c h = ground arith

module _ (s : AppState) (d : Delivery) (times : Times) where
  act_on-facts :
      (found : Option WebhookRule)
      → find (λ rule. rule_matches rule d.event d.repo d.subject.git_ref) s.config.webhook_rules
        ≡ found
      → IsQuiet s (act_on s d times) ⊎ IsTaken s.config.webhook_rules d
  unfolding act_on
  act_on-facts found e =
      elim (Bool-cases
        (not d.subject.actionable || is_empty d.repo || not (valid_commit_sha d.subject.sha))) [
          | inl out ↦ inl (rw out (jobs-finish_lease s d.id true, ok_not_accepted))
          | inr go ↦
              let (a, c) =
                guard-facts d.subject.actionable (is_empty d.repo) (valid_commit_sha d.subject.sha)
                  go in
              elim found
                  as (λ f.
                    find (λ rule. rule_matches rule d.event d.repo d.subject.git_ref)
                        s.config.webhook_rules
                      ≡ f
                    → IsQuiet s (act_on s d times) ⊎ IsTaken s.config.webhook_rules d) [
                      | none ↦
                          λ k. inl (rw (go, k) (jobs-finish_lease s d.id true, ok_not_accepted))
                      | some rule ↦ λ k. inr (record {
                        actionable = a;
                        sha = c;
                        rule = rule;
                        among = find-IsAmong _ s.config.webhook_rules rule k;
                        matches = find-holds _ s.config.webhook_rules rule k;
                      })
                    ]
                e
        ]

  act_on-IsTaken : IsQuiet s (act_on s d times) ⊎ IsTaken s.config.webhook_rules d
  act_on-IsTaken = act_on-facts _ refl

-- A stage that goes on from a state with the same jobs.
IsQuiet-from :
    {P : Type 0} (s t : AppState) (o : Handled)
    → t.jobs ≡ s.jobs
    → IsQuiet t o ⊎ P
    → IsQuiet s o ⊎ P
IsQuiet-from s t o e (inl (same, status)) = inl (same ∙ e, status)
IsQuiet-from s t o e (inr p) = inr p

module _ (services : Services) (d : Delivery) (times : Times) where
  claimed-IsTaken :
      (s : AppState) (claimed : Result Bool Message)
      → IsQuiet s (elim claimed as (λ _. Handled) [
        | ok first ↦ if first then act_on s d times else already_seen s d
        | err error ↦ act_on s d times
      ])
        ⊎ IsTaken s.config.webhook_rules d
  claimed-IsTaken s (ok true) = act_on-IsTaken s d times
  claimed-IsTaken s (ok false) = inl (refl, ok_not_accepted)
  claimed-IsTaken s (err error) = act_on-IsTaken s d times

  claim_lease-IsTaken :
      (s : AppState) → IsQuiet s (claim_lease services s d times) ⊎ IsTaken s.config.webhook_rules d
  unfolding claim_lease
  claim_lease-IsTaken s =
      claimed-IsTaken s (idempotency_claim s.config (services.claim (idem_key d.id)))

  deduplicate-IsTaken :
      (s : AppState) → IsQuiet s (deduplicate services s d times) ⊎ IsTaken s.config.webhook_rules d
  unfolding deduplicate
  deduplicate-IsTaken s =
      let recorded = record_delivery s d d.id (text "received") in
      let same = jobs-record_delivery s d d.id (text "received") in
      elim (Bool-cases (s.db && not (services.fresh d.id))) [
        | inl seen ↦ rw seen (inl (same, ok_not_accepted))
        | inr new ↦ rw new (
            IsQuiet-from s recorded (claim_lease services recorded d times) same (
              rw (config-record_delivery s d d.id (text "received")) at
                (claim_lease-IsTaken recorded)))
      ]

-- The delivery that the headers and the payload make.
abbrev pub delivery_of : Headers → Value → Delivery
delivery_of headers payload =
    let event = unwrap_or headers.event (text "unknown") in
    record {
      id = unwrap_or headers.delivery [];
      event = event;
      repo = repo_of payload;
      subject = subject_of event payload;
    }

-- The body has a JSON payload whose delivery one of the rules takes.
pub record IsTriggered (rules : List WebhookRule) (services : Services) (headers : Headers)
    (body : Bytes) : Type 0 where
  pub payload : Value
  pub parsed : services.from_slice body ≡ ok payload
  pub taken : IsTaken rules (delivery_of headers payload)

-- The signature verifies under the secret that is configured.
pub record IsSigned (services : Services) (s : AppState) (headers : Headers) (body : Bytes)
    : Type 0 where
  pub secret : Text
  pub configured : s.config.github_webhook_secret ≡ some secret
  pub verified :
      verify_github_signature services secret body (unwrap_or headers.signature []) ≡ true

module _ (services : Services) (s : AppState) (headers : Headers) (body : Bytes)
    (times : Times) where
  abbrev event : Text
  event = unwrap_or headers.event (text "unknown")

  abbrev id : Text
  id = unwrap_or headers.delivery []

  parsed-IsTriggered :
      (parsed : Result Value Message)
      → services.from_slice body ≡ parsed
      → IsQuiet s (elim parsed as (λ _. Handled) [
        | err error ↦ (s, bad_request, problem (lit "invalid webhook JSON: " ∷ error))
        | ok payload ↦
            deduplicate services (count_webhook_received s) (delivery_of headers payload) times
      ])
        ⊎ IsTriggered s.config.webhook_rules services headers body
  parsed-IsTriggered (err error) e = inl (refl, λ k. cc)
  parsed-IsTriggered (ok payload) e =
      elim (deduplicate-IsTaken services (delivery_of headers payload) times
        (count_webhook_received s)) [
          | inl quiet ↦ inl quiet
          | inr taken ↦ inr (record { payload = payload; parsed = e; taken = taken })
        ]

  deliver-IsTriggered :
      IsQuiet s (deliver services s event id body times)
      ⊎ IsTriggered s.config.webhook_rules services headers body
  unfolding deliver
  deliver-IsTriggered = elim (Bool-cases (is_empty id || ltb 128 (len id))) [
    | inl bad ↦ rw bad (inl (refl, λ k. cc))
    | inr fine ↦ elim (Bool-cases (text_eq event (text "ping"))) [
      | inl pinged ↦ rw (fine, pinged) (inl (refl, ok_not_accepted))
      | inr other ↦ rw (fine, other) (parsed-IsTriggered (services.from_slice body) refl)
    ]
  ]

  secret-IsTriggered :
      (found : Option Text)
      → s.config.github_webhook_secret ≡ found
      → IsQuiet s (with_secret services s headers body times found)
        ⊎ (IsSigned services s headers body
            × IsTriggered s.config.webhook_rules services headers body)
  secret-IsTriggered none e = inl (refl, λ k. cc)
  secret-IsTriggered (some secret) e =
      let signature = unwrap_or headers.signature [] in
      elim (Bool-cases (verify_github_signature services secret body signature)) [
        | inl good ↦ rw good (elim deliver-IsTriggered [
          | inl quiet ↦ inl quiet
          | inr triggered ↦
              inr (record { secret = secret; configured = e; verified = good }, triggered)
        ])
        | inr bad ↦ rw bad (inl (refl, λ k. cc))
      ]

  -- A delivery leaves the jobs as they are and is not answered with 202, or its signature verifies
  -- under the configured secret, its commit is a plausible hash, and one of the configured rules takes
  -- it.
  pub github_webhook-IsTriggered :
      IsQuiet s (github_webhook services s headers body times)
      ⊎ (IsSigned services s headers body
          × IsTriggered s.config.webhook_rules services headers body)
  unfolding github_webhook
  github_webhook-IsTriggered = secret-IsTriggered s.config.github_webhook_secret refl
