-- ===== src/Jobs/Claims/Ids.antt =====
-- src/jobs.rs: `job_id` gives each accepted job an id of its own.
use gha_indie_worker_rs.Prelude.{
  ℕ, ◌≤◌, ◌<◌, ◌≡◌, refl, Option, none, some, [], ◌∷◌, ◌++◌, ap, sym, ◌∙◌, arith, Bool-cases, inl,
  inr,
}
use gha_indie_worker_rs.Text.{Text, text_eq}
use gha_indie_worker_rs.Text.Laws.{text_eq_iff}
use gha_indie_worker_rs.Text.Split.{split_once, split_once-append}
use gha_indie_worker_rs.Text.Decimal.{decimal, decimal-injective, no_dash-decimal}
use gha_indie_worker_rs.Types.{BuildJobRecord}
use gha_indie_worker_rs.State.{Jobs}
use gha_indie_worker_rs.Jobs.Map.{lookup}
use gha_indie_worker_rs.Jobs.Map.Laws.{AllEntries}
use gha_indie_worker_rs.Jobs.Enqueue.{job_id}

split_once-job_id :
    (t c : ℕ) → split_once b'-' (decimal t ++ b'-' ∷ decimal c) ≡ some (decimal t, decimal c)
split_once-job_id t c = split_once-append b'-' (decimal t) (decimal c) (no_dash-decimal t)

pair-injective :
    (a b a' b' : Text)
    → ◌≡◌ {A = Option (Text × Text)} (some (a, b)) (some (a', b'))
    → (a ≡ a') × (b ≡ b')
pair-injective a b a' b' h = (cc, cc)

-- A job id determines the time and the counter that it was made from.
pub job_id-injective : (t c t' c' : ℕ) → job_id t c ≡ job_id t' c' → (t ≡ t') × (c ≡ c')
unfolding job_id
job_id-injective t c t' c' h =
    let tails : decimal t ++ b'-' ∷ decimal c ≡ decimal t' ++ b'-' ∷ decimal c' = cc in
    let parts =
      sym (split_once-job_id t c) ∙ ap (split_once b'-') tails ∙ split_once-job_id t' c' in
    let (times, counters) = pair-injective _ _ _ _ parts in
    (decimal-injective t t' times, decimal-injective c c' counters)

-- Every job is kept under an id that was made from a counter of at most `n`.
abbrev pub IdsBelow : ℕ → Jobs → Type 0
IdsBelow n = AllEntries (λ k _. (t : ℕ) × (c : ℕ) × (k ≡ job_id t c) × (c ≤ n))

-- An id that was made from a counter of at most `n`.
abbrev pub IsOld : ℕ → Text → Type 0
IsOld n id = (t : ℕ) × (c : ℕ) × (id ≡ job_id t c) × (c ≤ n)

pub IsOld-mono : (m n : ℕ) (id : Text) → m ≤ n → IsOld m id → IsOld n id
IsOld-mono m n id le (t, c, e, lt) = (t, c, e, omega arith)

-- The id of a job that is retained is old.
pub lookup-IsOld :
    (n : ℕ) (id : Text) (job : BuildJobRecord) (jobs : Jobs)
    → IdsBelow n jobs
    → lookup id jobs ≡ some job
    → IsOld n id
unfolding lookup
lookup-IsOld n id job [] h e = cc
lookup-IsOld n id job ((k, old) ∷ jobs) ((t, c, made, le), h) e = elim (Bool-cases (text_eq k id)) [
  | inl same ↦ (t, c, sym ((text_eq_iff _ _).0 same) ∙ made, le)
  | inr other ↦ lookup-IsOld n id job jobs h (rw other at e)
]

-- An id from a later counter is not old.
pub ne_old : (n t c : ℕ) (id : Text) → IsOld n id → n < c → job_id t c ≡ id → ⊥
ne_old n t c id (t', c', e, le) lt same =
    let (_, counters) = job_id-injective t c t' c' (same ∙ e) in absurd (omega arith)

pub lookup-fresh :
    (n t c : ℕ) (jobs : Jobs) → IdsBelow n jobs → n < c → lookup (job_id t c) jobs ≡ none
unfolding lookup
lookup-fresh n t c [] h lt = refl
lookup-fresh n t c ((k, job) ∷ jobs) ((t', c', e, le), h) lt =
    elim (Bool-cases (text_eq k (job_id t c))) [
      | inl same ↦
          let (_, counters) = job_id-injective t' c' t c (sym e ∙ (text_eq_iff _ _).0 same) in
          absurd (omega arith)
      | inr other ↦ rw other (lookup-fresh n t c jobs h lt)
    ]
