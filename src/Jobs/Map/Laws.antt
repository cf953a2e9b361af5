-- ===== src/Jobs/Map/Laws.antt =====
-- Lookups, lengths and members after an insertion or a removal.
use gha_indie_worker_rs.Prelude.{
  ◌≡◌, refl, none, some, [], ◌∷◌, All, arith, Bool-cases, inl, inr, if◌then◌else◌,
}
use gha_indie_worker_rs.Text.{Text, text_eq}
use gha_indie_worker_rs.Text.Laws.{text_eq_iff}
use gha_indie_worker_rs.Types.{BuildJobRecord}
use gha_indie_worker_rs.State.{Jobs}
use gha_indie_worker_rs.Jobs.Map.{lookup, insert, remove}

pub lookup-insert :
    (id j : Text) (job : BuildJobRecord) (jobs : Jobs)
    → lookup j (insert id job jobs) ≡ (if text_eq id j then some job else lookup j jobs)
unfolding lookup insert
lookup-insert id j job [] = refl
lookup-insert id j job ((k, old) ∷ jobs) =
    ground (arith, text_eq_iff id j, text_eq_iff k id, text_eq_iff k j, lookup-insert id j job jobs)

-- A property of every entry, at its key.
abbrev pub AllEntries : (Text → BuildJobRecord → Type 0) → Jobs → Type 0
AllEntries P = All (λ entry. P entry.0 entry.1)

pub AllEntries-insert :
    (P : Text → BuildJobRecord → Type 0) (id : Text) (job : BuildJobRecord) (jobs : Jobs)
    → P id job
    → AllEntries P jobs
    → AllEntries P (insert id job jobs)
unfolding insert
AllEntries-insert P id job [] p h = (p, tt)
AllEntries-insert P id job ((k, old) ∷ jobs) p (q, h) = elim (Bool-cases (text_eq k id)) [
  | inl same ↦ rw same (rw ((text_eq_iff k id).0 same) p, h)
  | inr other ↦ rw other (q, AllEntries-insert P id job jobs p h)
]

pub AllEntries-remove :
    (P : Text → BuildJobRecord → Type 0) (id : Text) (jobs : Jobs)
    → AllEntries P jobs
    → AllEntries P (remove id jobs)
unfolding remove
AllEntries-remove P id [] h = tt
AllEntries-remove P id ((k, old) ∷ jobs) (q, h) = elim (Bool-cases (text_eq k id)) [
  | inl same ↦ rw same h
  | inr other ↦ rw other (q, AllEntries-remove P id jobs h)
]

pub AllEntries-lookup :
    (P : Text → BuildJobRecord → Type 0) (id : Text) (jobs : Jobs) {job : BuildJobRecord}
    → AllEntries P jobs
    → lookup id jobs ≡ some job
    → P id job
unfolding lookup
AllEntries-lookup P id [] {job} h e = cc
AllEntries-lookup P id ((k, old) ∷ jobs) {job} (q, h) e = elim (Bool-cases (text_eq k id)) [
  | inl same ↦ let found : old ≡ job = ground arith in rw (← found, ← (text_eq_iff k id).0 same) q
  | inr other ↦ AllEntries-lookup P id jobs h (rw other at e)
]

-- No key has two entries.
abbrev pub Distinct : Jobs → Type 0
Distinct [] = Unit
Distinct ((k, job) ∷ jobs) = (lookup k jobs ≡ none) × Distinct jobs

pub lookup-remove :
    (id j : Text) (jobs : Jobs)
    → Distinct jobs
    → lookup j (remove id jobs) ≡ (if text_eq id j then none else lookup j jobs)
unfolding lookup remove
lookup-remove id j [] d = ground arith
lookup-remove id j ((k, old) ∷ jobs) (new, d) =
    ground (arith, text_eq_iff k id, text_eq_iff id j, text_eq_iff k j, lookup-remove id j jobs d)

pub Distinct-insert :
    (id : Text) (job : BuildJobRecord) (jobs : Jobs) → Distinct jobs → Distinct (insert id job jobs)
unfolding insert lookup
Distinct-insert id job [] d = (refl, tt)
Distinct-insert id job ((k, old) ∷ jobs) (new, d) = elim (Bool-cases (text_eq k id)) [
  | inl same ↦ rw same (new, d)
  | inr other ↦ rw other (
    ground (arith, lookup-insert id k job jobs, text_eq_iff id k, text_eq_iff k id),
    Distinct-insert id job jobs d,
  )
]

pub Distinct-remove : (id : Text) (jobs : Jobs) → Distinct jobs → Distinct (remove id jobs)
unfolding remove
Distinct-remove id [] d = tt
Distinct-remove id ((k, old) ∷ jobs) (new, d) = elim (Bool-cases (text_eq k id)) [
  | inl same ↦ rw same d
  | inr other ↦ rw other (ground (arith, lookup-remove id k jobs d), Distinct-remove id jobs d)
]
