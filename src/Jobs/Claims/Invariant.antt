-- ===== src/Jobs/Claims/Invariant.antt =====
-- src/jobs.rs: the invariant of the shared state. Each request id that is claimed is held by one
-- retained job, an id that is not claimed is held by none, and job ids are fresh.
use gha_indie_worker_rs.Prelude.{
  ℕ, ◌≤◌, ◌≡◌, Bool, true, false, List, [], ◌∷◌, length, take, ◌-◌, ltb, arith, Bool-cases, inl,
  inr,
}
use gha_indie_worker_rs.Text.{Text, contains}
use gha_indie_worker_rs.Types.{BuildJobRecord}
use gha_indie_worker_rs.State.{AppState, Jobs}
use gha_indie_worker_rs.Jobs.Map.{remove, values}
use gha_indie_worker_rs.Jobs.Map.Laws.{AllEntries, AllEntries-remove, Distinct}
use gha_indie_worker_rs.Jobs.Store.Prune.{IsKeyed, Distinct-pruned}
use gha_indie_worker_rs.Jobs.Store.{
  Candidate, remove_all, candidates, sort_by_key, pruned, prune_jobs, request_ids_of,
}
use gha_indie_worker_rs.Jobs.Claims.Holders.{
  count_holders, count_holders-pruned-le, contains-request_ids_of, contains-keep,
}
use gha_indie_worker_rs.Jobs.Claims.Ids.{IdsBelow}

abbrev pub one_if : Bool → ℕ
one_if true = 1
one_if false = 0

pub record IsConsistent (s : AppState) : Type 0 where
  pub held : (r : Text) → count_holders r s.jobs ≡ one_if (contains s.recent_request_ids r)
  pub fresh : IdsBelow s.counters.submitted s.jobs
  pub keyed : IsKeyed s.jobs
  pub distinct : Distinct s.jobs

AllEntries-remove_all :
    (P : Text → BuildJobRecord → Type 0) (cs : List Candidate) (jobs : Jobs)
    → AllEntries P jobs
    → AllEntries P (remove_all cs jobs)
unfolding remove_all
AllEntries-remove_all P [] jobs h = h
AllEntries-remove_all P ((t, id) ∷ cs) jobs h =
    AllEntries-remove_all P cs (remove id jobs) (AllEntries-remove P id jobs h)

pub AllEntries-pruned :
    (P : Text → BuildJobRecord → Type 0) (n : ℕ) (jobs : Jobs)
    → AllEntries P jobs
    → AllEntries P (pruned n jobs)
unfolding pruned
AllEntries-pruned P n jobs h = elim (Bool-cases (ltb n (length jobs))) [
  | inl over ↦
      rw over
        (AllEntries-remove_all P (take (length jobs - n) (sort_by_key (candidates jobs))) jobs h)
  | inr fits ↦ rw fits h
]

-- Pruning keeps the invariant.
pub prune_jobs-IsConsistent : (s : AppState) → IsConsistent s → IsConsistent (prune_jobs s)
unfolding prune_jobs
prune_jobs-IsConsistent s h = record {
  held = λ r.
      let n = s.config.max_jobs in
      ground (
        arith,
        h.held r,
        count_holders-pruned-le r n s.jobs,
        contains-request_ids_of r (pruned n s.jobs),
        contains-keep (contains (request_ids_of (values (pruned n s.jobs)))) s.recent_request_ids r,
      );
  fresh = AllEntries-pruned _ s.config.max_jobs s.jobs h.fresh;
  keyed = AllEntries-pruned _ s.config.max_jobs s.jobs h.keyed;
  distinct = Distinct-pruned s.config.max_jobs s.jobs h.distinct;
}

pub IdsBelow-mono : (m n : ℕ) (jobs : Jobs) → m ≤ n → IdsBelow m jobs → IdsBelow n jobs
IdsBelow-mono m n [] le h = tt
IdsBelow-mono m n (e ∷ jobs) le ((t, c, eq, below), h) =
    ((t, c, eq, omega arith), IdsBelow-mono m n jobs le h)
