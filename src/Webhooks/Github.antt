-- ===== src/Webhooks/Github.antt =====
-- src/webhooks.rs: `github_webhook`, from the checked signature to the answer. The hex and the HMAC
-- of their crates, serde_json, and the answers of Postgres and of the idempotency service are
-- arguments.
pub mod Laws
use gha_indie_worker_rs.Prelude.{
  ℕ, ◌+◌, Bool, true, false, not, ◌&&◌, ◌||◌, Option, none, some, List, [], ◌∷◌, ◌++◌, find, ltb,
  ◌==◌, is_empty, unwrap_or, Result, ok, err, is_ok, if◌then◌else◌,
}
use gha_indie_worker_rs.Text.{Text, text, text_eq, len, strip_prefix}
use gha_indie_worker_rs.Json.{Value, null, get, as_str, as_bool, and_then}
use gha_indie_worker_rs.Message.{Message, message, lit}
use gha_indie_worker_rs.Types.{
  BuildJobRecord, StatusCode, accepted, bad_request, unauthorized, service_unavailable,
}
use gha_indie_worker_rs.Rules.{WebhookRule}
use gha_indie_worker_rs.State.{
  AppState, Counters, Call, record_webhook_delivery, idempotency_finish, with_call, fetch_add,
}
use gha_indie_worker_rs.Fiducia.{Answer, idempotency_claim, is_str, is_true}
use gha_indie_worker_rs.Jobs.Enqueue.{Outcome, enqueue_build}
use gha_indie_worker_rs.Webhooks.Matching.{rule_matches, valid_commit_sha, build_request_from_rule}

-- The bytes of a body, a signature or a digest.
abbrev pub Bytes : Type 0
Bytes = List ℕ

-- Code outside the repository, and what it answers: `hex::decode`, the HMAC-SHA256 of a body under
-- a secret, `serde_json::from_slice`, whether the row of a delivery is new, the answer to a claim.
pub record Services : Type 0 where
  pub hex_decode : Text → Option Bytes
  pub hmac_sha256 : Text → Bytes → Bytes
  pub from_slice : Bytes → Result Value Message
  pub fresh : Text → Bool
  pub claim : Text → Answer

-- The headers that the handler reads, where they are there and printable.
pub record Headers : Type 0 where
  pub signature : Option Text
  pub event : Option Text
  pub delivery : Option Text

-- The clock's readings of `enqueue_build`.
pub record Times : Type 0 where
  pub id_now : ℕ
  pub created_now : ℕ

-- The JSON bodies of the answers.
pub data Body : Type 0 where
  problem : Message → Body
  ping : Body
  duplicate : Text → Body
  ignored : Text → Body
  no_matching_rule : Body
  job : BuildJobRecord → Body
  not_enqueued : Message → Text → Body

-- What the handler leaves behind: the state, and the answer's status and body.
abbrev pub Handled : Type 0
Handled = AppState × StatusCode × Body

unfoldable pub verify_github_signature :
    Services → (secret : Text) → (body : Bytes) → (signature_header : Text) → Bool
verify_github_signature services secret body signature_header =
    elim (strip_prefix signature_header (text "sha256=")) [
      | none ↦ false
      | some hex_signature ↦ elim (services.hex_decode hex_signature) [
        | none ↦ false
        | some expected ↦ text_eq (services.hmac_sha256 secret body) expected
      ]
    ]

-- A text of the payload, or the empty one.
abbrev pub str_or_empty : Option Value → Text
str_or_empty value = unwrap_or (and_then value as_str) []

-- The reference, the commit and whether the event is one to act on.
pub record Subject : Type 0 where
  pub git_ref : Text
  pub sha : Text
  pub actionable : Bool

unfoldable pub push_subject : Value → Subject
push_subject payload = record {
  git_ref = str_or_empty (get (text "ref") payload);
  sha = str_or_empty (get (text "after") payload);
  actionable = not (is_true (get (text "deleted") payload));
}

unfoldable pub workflow_run_subject : Value → Subject
workflow_run_subject payload =
    let run = unwrap_or (get (text "workflow_run") payload) null in
    record {
      git_ref = str_or_empty (get (text "head_branch") run);
      sha = str_or_empty (get (text "head_sha") run);
      actionable =
          is_str (text "completed") (get (text "action") payload)
          && is_str (text "success") (get (text "conclusion") run);
    }

unfoldable pub subject_of : (event : Text) → Value → Subject
subject_of event payload =
    if text_eq event (text "push")
    then push_subject payload
    else if text_eq event (text "workflow_run")
    then workflow_run_subject payload
    else record { git_ref = []; sha = []; actionable = false }

-- `payload.pointer("/repository/full_name")`, as a text.
unfoldable pub repo_of : Value → Text
repo_of payload = str_or_empty (and_then (get (text "repository") payload) (get (text "full_name")))

abbrev pub count_webhook_rejected : AppState → AppState
count_webhook_rejected state = record state {
  counters = record state.counters {
    webhooks_rejected = fetch_add state.counters.webhooks_rejected;
  };
}

abbrev pub count_webhook_received : AppState → AppState
count_webhook_received state = record state {
  counters = record state.counters {
    webhooks_received = fetch_add state.counters.webhooks_received;
  };
}

abbrev pub idem_key : Text → Text
idem_key delivery_id = text "build-server/webhook/github/" ++ delivery_id

-- `fiducia::idempotency_finish` makes its call when coordination is enabled.
abbrev pub finish_lease : AppState → Text → Bool → AppState
finish_lease state delivery_id succeeded =
    if state.config.coordination_enabled
    then with_call state (idempotency_finish (idem_key delivery_id) succeeded)
    else state

-- A delivery: its id, event, repository and subject.
pub record Delivery : Type 0 where
  pub id : Text
  pub event : Text
  pub repo : Text
  pub subject : Subject

abbrev pub record_delivery : AppState → Delivery → (id action : Text) → AppState
record_delivery state delivery id action =
    if state.db
    then with_call state
        (record_webhook_delivery id delivery.event delivery.repo delivery.subject.git_ref action)
    else state

-- The match on the result of `enqueue_build`.
unfoldable pub answer_outcome : Delivery → Outcome → Handled
answer_outcome delivery (state, ok record') = (
  record_delivery (finish_lease state delivery.id true) delivery (delivery.id ++ text ":enqueued")
      (text "enqueued:" ++ record'.id),
  accepted,
  job record',
)
answer_outcome delivery (state, err (status, error)) =
    (finish_lease state delivery.id false, status, not_enqueued error delivery.id)

-- From the guard on the commit on: the first rule that matches makes the request.
unfoldable pub act_on : AppState → Delivery → Times → Handled
act_on state delivery times =
    if not delivery.subject.actionable
      || is_empty delivery.repo
      || not (valid_commit_sha delivery.subject.sha)
    then (finish_lease state delivery.id true, StatusCode.ok, ignored delivery.event)
    else elim (find
        (λ rule. rule_matches rule delivery.event delivery.repo delivery.subject.git_ref)
        state.config.webhook_rules) [
          | none ↦ (finish_lease state delivery.id true, StatusCode.ok, no_matching_rule)
          | some rule ↦ answer_outcome delivery (
              enqueue_build state
                (build_request_from_rule rule delivery.repo delivery.subject.git_ref
                  delivery.subject.sha)
                (text "webhook") times.id_now times.created_now)
        ]

abbrev pub already_seen : AppState → Delivery → Handled
already_seen state delivery = (state, StatusCode.ok, duplicate delivery.id)

-- An error of the claim is logged, and the handler goes on.
unfoldable pub claim_lease : Services → AppState → Delivery → Times → Handled
claim_lease services state delivery times =
    elim (idempotency_claim state.config (services.claim (idem_key delivery.id))) [
      | ok first ↦ if first then act_on state delivery times else already_seen state delivery
      | err error ↦ act_on state delivery times
    ]

unfoldable pub deduplicate : Services → AppState → Delivery → Times → Handled
deduplicate services state delivery times =
    let recorded = record_delivery state delivery delivery.id (text "received") in
    if state.db && not (services.fresh delivery.id)
    then already_seen recorded delivery
    else claim_lease services recorded delivery times

unfoldable pub deliver : Services → AppState → (event delivery_id : Text) → Bytes → Times → Handled
deliver services state event delivery_id body times =
    if is_empty delivery_id || ltb 128 (len delivery_id)
    then (state, bad_request, problem (message "missing or invalid X-GitHub-Delivery"))
    else if text_eq event (text "ping")
    then (state, StatusCode.ok, ping)
    else elim (services.from_slice body) [
      | err error ↦ (state, bad_request, problem (lit "invalid webhook JSON: " ∷ error))
      | ok payload ↦
          deduplicate services (count_webhook_received state)
            (record {
              id = delivery_id;
              event = event;
              repo = repo_of payload;
              subject = subject_of event payload;
            })
            times
    ]

-- What follows the `let Some(secret) = ... else`.
abbrev pub with_secret : Services → AppState → Headers → Bytes → Times → Option Text → Handled
with_secret services state headers body times none = (
  state,
  service_unavailable,
  problem (message "BUILD_SERVER_GITHUB_WEBHOOK_SECRET is not configured"),
)
with_secret services state headers body times (some secret) =
    if not (verify_github_signature services secret body (unwrap_or headers.signature []))
    then (
      count_webhook_rejected state,
      unauthorized,
      problem (message "invalid or missing X-Hub-Signature-256"),
    )
    else deliver services state (unwrap_or headers.event (text "unknown"))
        (unwrap_or headers.delivery []) body times

unfoldable pub github_webhook : Services → AppState → Headers → Bytes → Times → Handled
github_webhook services state headers body times =
    with_secret services state headers body times state.config.github_webhook_secret
