-- ===== src/Jobs/Map.antt =====
-- The job map, a HashMap keyed by job id, as an association list with one entry for a key. The
-- order of the list stands for the order in which the HashMap happens to be read.
pub mod Laws
use gha_indie_worker_rs.Prelude.{
  Bool, true, false, Option, none, some, List, [], ◌∷◌, map, if◌then◌else◌,
}
use gha_indie_worker_rs.Text.{Text, text_eq}
use gha_indie_worker_rs.Types.{BuildJobRecord}
use gha_indie_worker_rs.State.{Jobs}

unfoldable pub lookup : Text → Jobs → Option BuildJobRecord
lookup id [] = none
lookup id ((k, job) ∷ jobs) = if text_eq k id then some job else lookup id jobs

unfoldable pub insert : Text → BuildJobRecord → Jobs → Jobs
insert id job [] = (id, job) ∷ []
insert id job ((k, old) ∷ jobs) =
    if text_eq k id then (k, job) ∷ jobs else (k, old) ∷ insert id job jobs

unfoldable pub remove : Text → Jobs → Jobs
remove id [] = []
remove id ((k, job) ∷ jobs) = if text_eq k id then jobs else (k, job) ∷ remove id jobs

unfoldable pub values : Jobs → List BuildJobRecord
values jobs = map (λ entry. entry.1) jobs
