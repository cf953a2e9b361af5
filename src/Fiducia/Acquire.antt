-- ===== src/Fiducia/Acquire.antt =====
-- src/fiducia.rs: the lock loop ends, and what each outcome means.
use gha_indie_worker_rs.Prelude.{
  ℕ, zero, suc, ap, ◌∙◌, ◌+◌, ◌≤◌, ◌<◌, ◌≡◌, refl, ◌≢◌, true, false, Option, none, some, leb, arith,
  ok, err, Bool-cases, inl, inr, if◌then◌else◌,
}
use gha_indie_worker_rs.Text.{Text}
use gha_indie_worker_rs.Json.{Value}
use gha_indie_worker_rs.Message.{Message}
use gha_indie_worker_rs.Config.{Config}
use gha_indie_worker_rs.Fiducia.{
  LockGrant, LockOutcome, disabled, acquired, Answer, Round, done, again, is_2xx, fencing_token_of,
  explicitly_not_acquired, acquire_round, acquire_loop, acquire_lock, exhausted,
}

-- What `tokio::time` documents: the clock does not run backwards, and a sleep lasts at least as
-- long as was asked, so the reading of a round is at least one interval after that of the last.
pub record Sleeps (clock : ℕ → ℕ) (start interval : ℕ) : Type 0 where
  pub first : start ≤ clock 0
  pub later : (n : ℕ) → clock n + interval ≤ clock (suc n)

module _ (key holder : Text) (answers : ℕ → Answer) (clock : ℕ → ℕ) (start interval deadline : ℕ)
    (sleeps : Sleeps clock start interval) (positive : 0 < interval) where
  clock_grows : (n : ℕ) → start + n ≤ clock n
  clock_grows zero = omega (arith, sleeps.first)
  clock_grows (suc n) = omega (arith, clock_grows n, sleeps.later n)

  abbrev Returns : Option LockOutcome → Type 0
  Returns result = (outcome : LockOutcome) × (result ≡ some outcome)

  loop_after :
      (fuel n : ℕ) (round : Round)
      → (leb deadline (clock n) ≡ false
          → (error : Option Message)
          → Returns (acquire_loop key holder answers clock deadline fuel (suc n) error))
      → Returns (elim round as (λ _. Option LockOutcome) [
        | done outcome ↦ some outcome
        | again error ↦
            if leb deadline (clock n)
            then some (exhausted key error)
            else acquire_loop key holder answers clock deadline fuel (suc n) error
      ])
  loop_after fuel n (done outcome) more = (outcome, refl)
  loop_after fuel n (again error) more = elim (Bool-cases (leb deadline (clock n))) [
    | inl past ↦ (exhausted key error, rw past refl)
    | inr early ↦ let (outcome, e) = more early error in (outcome, rw early e)
  ]

  -- With fuel for the rounds up to the deadline the loop returns.
  acquire_loop_total :
      (fuel n : ℕ) (last_error : Option Message)
      → deadline < start + n + fuel
      → 0 < fuel
      → Returns (acquire_loop key holder answers clock deadline fuel n last_error)
  unfolding acquire_loop
  acquire_loop_total zero n last_error h p = elim p [ ]
  acquire_loop_total (suc fuel) n last_error h p =
      loop_after fuel n (acquire_round key holder last_error (answers n)) (λ early error.
        acquire_loop_total fuel (suc n) error (omega arith) (ground (arith, clock_grows n)))

-- Whatever fiducia answers, `acquire_lock` returns: a fuel above the wait budget in milliseconds is
-- enough, if each sleep lasts at least the retry interval and that is positive.
pub acquire_lock_total :
    (config : Config) (key holder : Text) (answers : ℕ → Answer) (start : ℕ) (clock : ℕ → ℕ)
    (fuel : ℕ)
    → Sleeps clock start config.lock_retry_interval
    → 0 < config.lock_retry_interval
    → config.lock_wait_budget < fuel
    → (outcome : LockOutcome) × (acquire_lock config key holder answers start clock fuel
        ≡ some outcome)
unfolding acquire_lock
acquire_lock_total config key holder answers start clock fuel sleeps positive enough =
    elim (Bool-cases config.coordination_enabled) [
      | inl enabled ↦ rw enabled (
          acquire_loop_total key holder answers clock start config.lock_retry_interval
            (start + config.lock_wait_budget) sleeps positive fuel 0 none (omega arith)
            (omega arith))
      | inr off ↦ rw off (disabled, refl)
    ]

-- What the service must have said for the loop to report a grant.
pub record IsGrant (answer : Answer) (token : ℕ) : Type 0 where
  pub status : ℕ
  pub value : Value
  pub answered : answer ≡ ok (status, value)
  pub success : is_2xx status ≡ true
  pub token_given : fencing_token_of value ≡ some token
  pub not_refused : explicitly_not_acquired value ≡ false

acquire_round-IsGrant :
    (key holder : Text) (last_error : Option Message) (answer : Answer) (grant : LockGrant)
    → acquire_round key holder last_error answer ≡ done (acquired grant)
    → IsGrant answer grant.fencing_token × (grant.key ≡ key) × (grant.holder ≡ holder)
unfolding acquire_round
acquire_round-IsGrant key holder last_error (err e) grant h = cc
acquire_round-IsGrant key holder last_error (ok (status, value)) grant h = (
  record {
    status = status;
    value = value;
    answered = refl;
    success = ground arith;
    token_given = ground arith;
    not_refused = ground arith;
  },
  ground arith,
  ground arith,
)

-- A grant is an answer of some round, under the key and the holder that were asked for.
abbrev pub IsGranted : (key holder : Text) → (ℕ → Answer) → LockGrant → Type 0
IsGranted key holder answers grant =
    (round : ℕ) × IsGrant (answers round) grant.fencing_token
    × (grant.key ≡ key)
    × (grant.holder ≡ holder)

exhausted-ne-acquired :
    (key : Text) (error : Option Message) (grant : LockGrant)
    → ◌≢◌ {A = Option LockOutcome} (some (exhausted key error)) (some (acquired grant))
exhausted-ne-acquired key none grant h = cc
exhausted-ne-acquired key (some e) grant h = cc

module _ (key holder : Text) (answers : ℕ → Answer) (clock : ℕ → ℕ) (deadline : ℕ)
    (grant : LockGrant) where
  IsGranted-after :
      (fuel n : ℕ) (last_error : Option Message) (round : Round)
      → acquire_round key holder last_error (answers n) ≡ round
      → ((error : Option Message)
          → acquire_loop key holder answers clock deadline fuel (suc n) error
            ≡ some (acquired grant)
          → IsGranted key holder answers grant)
      → elim round as (λ _. Option LockOutcome) [
        | done outcome ↦ some outcome
        | again error ↦
            if leb deadline (clock n)
            then some (exhausted key error)
            else acquire_loop key holder answers clock deadline fuel (suc n) error
      ]
        ≡ some (acquired grant)
      → IsGranted key holder answers grant
  IsGranted-after fuel n last_error (done outcome) e more h =
      let same : outcome ≡ acquired grant = cc in
      let (answer, k, o) =
        acquire_round-IsGrant key holder last_error (answers n) grant (e ∙ ap done same) in
      (n, answer, k, o)
  IsGranted-after fuel n last_error (again error) e more h =
      elim (Bool-cases (leb deadline (clock n))) [
        | inl past ↦ absurd (exhausted-ne-acquired key error grant (rw past at h))
        | inr early ↦ more error (rw early at h)
      ]

  acquire_loop-IsGranted :
      (fuel n : ℕ) (last_error : Option Message)
      → acquire_loop key holder answers clock deadline fuel n last_error ≡ some (acquired grant)
      → IsGranted key holder answers grant
  unfolding acquire_loop
  acquire_loop-IsGranted zero n last_error h = cc
  acquire_loop-IsGranted (suc fuel) n last_error h =
      IsGranted-after fuel n last_error (acquire_round key holder last_error (answers n)) refl
        (λ error. acquire_loop-IsGranted fuel (suc n) error) h

-- A lock is reported as acquired only on a 2xx answer of the service that carries the fencing token
-- of the grant and does not say that the lock was not acquired; the grant is for the key and the
-- holder that were asked for.
pub acquire_lock-IsGranted :
    (config : Config) (key holder : Text) (answers : ℕ → Answer) (start : ℕ) (clock : ℕ → ℕ)
    (fuel : ℕ) (grant : LockGrant)
    → acquire_lock config key holder answers start clock fuel ≡ some (acquired grant)
    → IsGranted key holder answers grant
unfolding acquire_lock
acquire_lock-IsGranted config key holder answers start clock fuel grant h =
    elim (Bool-cases config.coordination_enabled) [
      | inl enabled ↦
          acquire_loop-IsGranted key holder answers clock (start + config.lock_wait_budget) grant
            fuel 0 none (rw enabled at h)
      | inr off ↦ cc (rw off at h)
    ]
