-- ===== src/Jobs/Claims/Holders.antt =====
-- How the number of jobs that hold a request id changes with the job map.
use gha_indie_worker_rs.Prelude.{
  ℕ, suc, ◌-◌, ◌≤◌, ◌<◌, ◌≡◌, refl, Bool, ◌&&◌, none, some, List, [], ◌∷◌, keep, length, ltb, take,
  find, arith, Bool-cases, inl, inr, if◌then◌else◌,
}
use gha_indie_worker_rs.Text.{Text, contains}
use gha_indie_worker_rs.Text.Laws.{text_eq_iff}
use gha_indie_worker_rs.Types.{BuildJobRecord}
use gha_indie_worker_rs.State.{Jobs}
use gha_indie_worker_rs.Jobs.Map.{lookup, insert, remove, values}
use gha_indie_worker_rs.Jobs.Store.{
  Candidate, remove_all, candidates, sort_by_key, pruned, request_ids_of,
}
use gha_indie_worker_rs.Jobs.Enqueue.{has_request_id}

unfoldable pub count_holders : Text → Jobs → ℕ
count_holders r [] = 0
count_holders r ((k, job) ∷ jobs) =
    if has_request_id r job then suc (count_holders r jobs) else count_holders r jobs

pub count_holders-insert_new :
    (r id : Text) (job : BuildJobRecord) (jobs : Jobs)
    → lookup id jobs ≡ none
    → count_holders r (insert id job jobs)
      ≡ (if has_request_id r job then suc (count_holders r jobs) else count_holders r jobs)
unfolding count_holders insert lookup
count_holders-insert_new r id job [] h = refl
count_holders-insert_new r id job ((k, old) ∷ jobs) h =
    ground (arith, count_holders-insert_new r id job jobs)

pub count_holders-insert_same :
    (r id : Text) (job old : BuildJobRecord) (jobs : Jobs)
    → lookup id jobs ≡ some old
    → has_request_id r job ≡ has_request_id r old
    → count_holders r (insert id job jobs) ≡ count_holders r jobs
unfolding count_holders insert lookup
count_holders-insert_same r id job old [] h e = cc
count_holders-insert_same r id job old ((k, first) ∷ jobs) h e =
    ground (arith, count_holders-insert_same r id job old jobs)

count_holders-remove-le :
    (r id : Text) (jobs : Jobs) → count_holders r (remove id jobs) ≤ count_holders r jobs
unfolding count_holders remove
count_holders-remove-le r id [] = omega arith
count_holders-remove-le r id ((k, old) ∷ jobs) = ground (arith, count_holders-remove-le r id jobs)

count_holders-remove_all-le :
    (r : Text) (cs : List Candidate) (jobs : Jobs)
    → count_holders r (remove_all cs jobs) ≤ count_holders r jobs
unfolding remove_all
count_holders-remove_all-le r [] jobs = omega arith
count_holders-remove_all-le r ((t, id) ∷ cs) jobs =
    omega
      (arith, count_holders-remove-le r id jobs, count_holders-remove_all-le r cs (remove id jobs))

pub count_holders-pruned-le :
    (r : Text) (n : ℕ) (jobs : Jobs) → count_holders r (pruned n jobs) ≤ count_holders r jobs
unfolding pruned
count_holders-pruned-le r n jobs = elim (Bool-cases (ltb n (length jobs))) [
  | inl over ↦
      rw over (
        count_holders-remove_all-le r (take (length jobs - n) (sort_by_key (candidates jobs))) jobs)
  | inr fits ↦ rw fits (omega arith)
]

-- An id is among those of the jobs exactly when some job holds it.
pub contains-request_ids_of :
    (r : Text) (jobs : Jobs)
    → contains (request_ids_of (values jobs)) r ≡ ltb 0 (count_holders r jobs)
unfolding request_ids_of values count_holders has_request_id contains
contains-request_ids_of r [] = refl
contains-request_ids_of r ((k, job) ∷ jobs) = ground (arith, contains-request_ids_of r jobs)

pub contains-keep :
    (p : Text → Bool) (xs : List Text) (r : Text) → contains (keep p xs) r ≡ (contains xs r && p r)
unfolding contains
contains-keep p [] r = refl
contains-keep p (x ∷ xs) r = ground (arith, text_eq_iff x r, contains-keep p xs r)

-- Where the search for a job that holds an id fails, there is none.
pub find-eq-none_count :
    (r : Text) (jobs : Jobs)
    → find (has_request_id r) (values jobs) ≡ none
    → count_holders r jobs ≡ 0
unfolding values count_holders
find-eq-none_count r [] h = refl
find-eq-none_count r ((k, job) ∷ jobs) h = ground (arith, find-eq-none_count r jobs)

-- Where it finds a job, there is one.
pub find-eq-some_count :
    (r : Text) (jobs : Jobs) (job : BuildJobRecord)
    → find (has_request_id r) (values jobs) ≡ some job
    → 0 < count_holders r jobs
unfolding values count_holders
find-eq-some_count r [] job h = cc
find-eq-some_count r ((k, first) ∷ jobs) job h = ground (arith, find-eq-some_count r jobs job)
