-- ===== src/Jobs/Store/Prune.antt =====
-- src/jobs.rs: what `prune_jobs` keeps.
use gha_indie_worker_rs.Prelude.{
  ℕ, zero, suc, ◌-◌, ◌≡◌, refl, ◌≢◌, true, none, some, List, [], ◌∷◌, ap, ◌∙◌, All, length, take,
  ltb, leb, arith, Bool-cases, inl, inr,
}
use gha_indie_worker_rs.Text.{Text, text_eq}
use gha_indie_worker_rs.Text.Laws.{text_eq_iff, text_eq_sound}
use gha_indie_worker_rs.Types.{BuildJobRecord}
use gha_indie_worker_rs.State.{Jobs}
use gha_indie_worker_rs.Jobs.Map.{lookup, remove, values}
use gha_indie_worker_rs.Jobs.Map.Laws.{AllEntries, Distinct, lookup-remove, Distinct-remove}
use gha_indie_worker_rs.Jobs.Store.{
  Candidate, is_active, candidates, insert_by_key, sort_by_key, remove_all, pruned,
}

-- Every job is kept under its own id.
abbrev pub IsKeyed : Jobs → Type 0
IsKeyed = AllEntries (λ k job. job.id ≡ k)

All-insert_by_key :
    (P : Candidate → Type 0) (c : Candidate) (cs : List Candidate)
    → P c
    → All P cs
    → All P (insert_by_key c cs)
unfolding insert_by_key
All-insert_by_key P c [] p h = (p, tt)
All-insert_by_key P c (d ∷ ds) p (q, h) = elim (Bool-cases (leb c.0 d.0)) [
  | inl first ↦ rw first (p, (q, h))
  | inr later ↦ rw later (q, All-insert_by_key P c ds p h)
]

pub All-sort_by_key :
    (P : Candidate → Type 0) (cs : List Candidate) → All P cs → All P (sort_by_key cs)
unfolding sort_by_key
All-sort_by_key P [] h = tt
All-sort_by_key P (c ∷ cs) (p, h) =
    All-insert_by_key P c (sort_by_key cs) p (All-sort_by_key P cs h)

pub All-take {ℓ κ} :
    {A : Type ℓ} (P : A → Type κ) (n : ℕ) (xs : List A) → All P xs → All P (take n xs)
All-take P zero xs h = tt
All-take P (suc n) [] h = tt
All-take P (suc n) (x ∷ xs) (p, h) = (p, All-take P n xs h)

-- The ids of the candidates are those of jobs of the map.
candidates-ne_absent :
    (id : Text) (jobs : Jobs)
    → IsKeyed jobs
    → lookup id jobs ≡ none
    → All (λ c. c.1 ≢ id) (candidates jobs)
unfolding candidates values lookup
candidates-ne_absent id [] k l = tt
candidates-ne_absent id ((key, old) ∷ jobs) (own, k) l = elim (Bool-cases (text_eq key id)) [
  | inl same ↦ absurd (some_ne_none old (rw same at l))
  | inr other ↦
      let rest = candidates-ne_absent id jobs k (rw other at l) in
      elim (Bool-cases (is_active old.status)) [
        | inl active ↦ rw active rest
        | inr idle ↦ rw idle (ground (arith, text_eq_iff key id), rest)
      ]
]
  where
    some_ne_none : (j : BuildJobRecord) → some j ≢ none
    some_ne_none j e = cc

candidates-ne_active :
    (id : Text) (job : BuildJobRecord) (jobs : Jobs)
    → IsKeyed jobs
    → Distinct jobs
    → lookup id jobs ≡ some job
    → is_active job.status ≡ true
    → All (λ c. c.1 ≢ id) (candidates jobs)
unfolding candidates values lookup
candidates-ne_active id job [] k d l a = tt
candidates-ne_active id job ((key, old) ∷ jobs) (own, k) (new, d) l a =
    elim (Bool-cases (text_eq key id)) [
      | inl same ↦
          let found : old ≡ job = ground arith in
          let active : is_active old.status ≡ true = ap (λ j. is_active j.status) found ∙ a in
          rw active (candidates-ne_absent id jobs k (rw (text_eq_sound key id same) at new))
      | inr other ↦
          let rest = candidates-ne_active id job jobs k d (rw other at l) a in
          elim (Bool-cases (is_active old.status)) [
            | inl active ↦ rw active rest
            | inr idle ↦ rw idle (ground (arith, text_eq_iff key id), rest)
          ]
    ]

lookup-remove_all :
    (id : Text) (cs : List Candidate) (jobs : Jobs)
    → Distinct jobs
    → All (λ c. c.1 ≢ id) cs
    → lookup id (remove_all cs jobs) ≡ lookup id jobs
unfolding remove_all
lookup-remove_all id [] jobs d h = refl
lookup-remove_all id ((t, gone) ∷ cs) jobs d (p, h) =
    lookup-remove_all id cs (remove gone jobs) (Distinct-remove gone jobs d) h
    ∙ ground (arith, lookup-remove gone id jobs d, text_eq_iff gone id)

-- In a map that keeps each job once and under its own id, pruning never removes or changes a job
-- that is queued or running.
pub lookup-pruned :
    (id : Text) (job : BuildJobRecord) (n : ℕ) (jobs : Jobs)
    → IsKeyed jobs
    → Distinct jobs
    → lookup id jobs ≡ some job
    → is_active job.status ≡ true
    → lookup id (pruned n jobs) ≡ some job
unfolding pruned
lookup-pruned id job n jobs k d l a = elim (Bool-cases (ltb n (length jobs))) [
  | inl over ↦ rw over (
      lookup-remove_all id _ jobs d (
        All-take _ (length jobs - n) (sort_by_key (candidates jobs))
          (All-sort_by_key _ (candidates jobs) (candidates-ne_active id job jobs k d l a)))
      ∙ l)
  | inr fits ↦ rw fits l
]

Distinct-remove_all :
    (cs : List Candidate) (jobs : Jobs) → Distinct jobs → Distinct (remove_all cs jobs)
unfolding remove_all
Distinct-remove_all [] jobs d = d
Distinct-remove_all ((t, id) ∷ cs) jobs d =
    Distinct-remove_all cs (remove id jobs) (Distinct-remove id jobs d)

pub Distinct-pruned : (n : ℕ) (jobs : Jobs) → Distinct jobs → Distinct (pruned n jobs)
unfolding pruned
Distinct-pruned n jobs d = elim (Bool-cases (ltb n (length jobs))) [
  | inl over ↦
      rw over (Distinct-remove_all (take (length jobs - n) (sort_by_key (candidates jobs))) jobs d)
  | inr fits ↦ rw fits d
]
