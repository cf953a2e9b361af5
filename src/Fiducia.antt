-- ===== src/Fiducia.antt =====
-- src/fiducia.rs: the policy for the coordination URL, and the lock loop over the answers of the
-- fiducia service, which are an argument.
pub mod Acquire
pub mod Url
use gha_indie_worker_rs.Prelude.{
  ℕ, zero, suc, ◌+◌, Bool, true, false, not, ◌&&◌, ◌||◌, Option, none, some, List, [], ◌∷◌, leb,
  ltb, ◌==◌, Result, ok, err, if◌then◌else◌,
}
use gha_indie_worker_rs.Text.{Text, text, text_eq}
use gha_indie_worker_rs.Json.{Value, get, as_u64, as_bool, as_str, and_then}
use gha_indie_worker_rs.Message.{Message, lit, number, json_prefix}
use gha_indie_worker_rs.Config.{Config}

pub record LockGrant : Type 0 where
  pub key : Text
  pub holder : Text
  pub fencing_token : ℕ

pub data LockOutcome : Type 0 where
  disabled : LockOutcome
  acquired : LockGrant → LockOutcome
  busy : Text → LockOutcome
  unavailable : Message → LockOutcome

-- What `post_json` returns: the HTTP status and the body, `Null` where the body is no JSON.
abbrev pub Answer : Type 0
Answer = Result (ℕ × Value) Message

-- `a.or_else(|| b)`
abbrev pub or_else {ℓ} : {A : Type ℓ} → Option A → Option A → Option A
or_else none b = b
or_else (some a) b = some a

unfoldable pub fencing_token_of : Value → Option ℕ
fencing_token_of value =
    and_then (or_else (get (text "fencing_token") value) (get (text "fencingToken") value)) as_u64

abbrev pub is_false : Option Value → Bool
is_false none = false
is_false (some flag) = elim (as_bool flag) [ none ↦ false | some b ↦ not b ]

unfoldable pub explicitly_not_acquired : Value → Bool
explicitly_not_acquired value =
    is_false (get (text "acquired") value) || is_false (get (text "ok") value)

unfoldable pub authorization_error : ℕ → Value → Option Message
authorization_error status value =
    if not (status == 401) && not (status == 403)
    then none
    else some (
        lit "fiducia lock acquire returned HTTP "
        ∷ number status
        ∷ lit "; verify the service-specific API key and locks:write scope: "
        ∷ json_prefix 300 value
        ∷ [])

abbrev pub is_2xx : ℕ → Bool
is_2xx status = leb 200 status && ltb status 300

-- What one round of the loop decides: to return, or to try again with this last error.
pub data Round : Type 0 where
  done : LockOutcome → Round
  again : Option Message → Round

abbrev pub granted : Text → Text → Value → Option Message → Option ℕ → Round
granted key holder value last_error none = again last_error
granted key holder value last_error (some token) =
    if explicitly_not_acquired value
    then again last_error
    else done (acquired (record { key = key; holder = holder; fencing_token = token }))

abbrev pub refused : ℕ → Value → Option Message → Round
refused status value (some error) = done (unavailable error)
refused status value none = again (
    some (
      lit "fiducia lock acquire returned HTTP "
      ∷ number status
      ∷ lit ": "
      ∷ json_prefix 300 value
      ∷ []))

-- The match on one answer; a 2xx without a grant, a 409 and a 423 leave the last error as it is.
unfoldable pub acquire_round : (key holder : Text) → Option Message → Answer → Round
acquire_round key holder last_error (err error) = again (some error)
acquire_round key holder last_error (ok (status, value)) =
    if is_2xx status
    then granted key holder value last_error (fencing_token_of value)
    else if status == 409 || status == 423
    then again last_error
    else refused status value (authorization_error status value)

abbrev pub exhausted : Text → Option Message → LockOutcome
exhausted key (some error) = unavailable error
exhausted key none = busy key

-- The loop, from its round `n`: `answers n` is the answer of that round, `clock n` the instant read
-- after it. It needs fuel, as the source's loop ends by the clock alone.
unfoldable pub acquire_loop :
    (key holder : Text) (answers : ℕ → Answer) (clock : ℕ → ℕ) (deadline : ℕ)
    → (fuel n : ℕ) → Option Message
    → Option LockOutcome
acquire_loop key holder answers clock deadline zero n last_error = none
acquire_loop key holder answers clock deadline (suc fuel) n last_error =
    elim (acquire_round key holder last_error (answers n)) [
      | done outcome ↦ some outcome
      | again error ↦
          let rest = acquire_loop key holder answers clock deadline fuel (suc n) error in
          if leb deadline (clock n) then some (exhausted key error) else rest
    ]

-- `start` is the instant at which the deadline is set.
unfoldable pub acquire_lock :
    Config
    → (key holder : Text) (answers : ℕ → Answer) (start : ℕ) (clock : ℕ → ℕ) → (fuel : ℕ)
    → Option LockOutcome
acquire_lock config key holder answers start clock fuel =
    if not config.coordination_enabled
    then some disabled
    else acquire_loop key holder answers clock (start + config.lock_wait_budget) fuel 0 none

-- `value == Some(text)` and `value == Some(true)`, after `as_str` and `as_bool`.
abbrev pub is_str : Text → Option Value → Bool
is_str t none = false
is_str t (some value) = elim (as_str value) [ none ↦ false | some s ↦ text_eq s t ]

abbrev pub is_true : Option Value → Bool
is_true none = false
is_true (some flag) = elim (as_bool flag) [ none ↦ false | some b ↦ b ]

-- The answer of the idempotency service is an argument, read when coordination is enabled.
abbrev pub claim_refused : Value → Bool
claim_refused value =
    explicitly_not_acquired value
    || is_str (text "completed") (get (text "state") value)
    || is_true (get (text "duplicate") value)

unfoldable pub idempotency_claim : Config → Answer → Result Bool Message
idempotency_claim config answer = if not config.coordination_enabled then ok true else elim answer [
  | err error ↦ err error
  | ok (status, value) ↦
      if is_2xx status
      then ok (not (claim_refused value))
      else if status == 409
      then ok false
      else err (
          lit "fiducia idempotency claim returned HTTP "
          ∷ number status
          ∷ lit ": "
          ∷ json_prefix 300 value
          ∷ [])
]
