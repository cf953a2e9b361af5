-- ===== src/Jobs/Requests.antt =====
-- src/jobs.rs: `requests_match`, through the JSON form of a request.
pub mod Laws
use gha_indie_worker_rs.Prelude.{ℕ, Bool, Option, none, some, List, [], ◌∷◌}
use gha_indie_worker_rs.Text.{Text, text}
use gha_indie_worker_rs.Types.{BuildRequest, DeployRequest}
use gha_indie_worker_rs.Json.{
  Value, Fields, null, bool, num, str, obj, end, field, value_eq, fields_eq,
}

-- serde's form of an `Option`.
abbrev pub opt {ℓ} : {A : Type ℓ} → (A → Value) → Option A → Value
opt f none = null
opt f (some a) = f a

unfoldable pub map_fields : List (Text × Text) → Fields
map_fields [] = end
map_fields ((key, value) ∷ rest) = field key (str value) (map_fields rest)

unfoldable pub map_value : List (Text × Text) → Value
map_value entries = obj (map_fields entries)

unfoldable pub deploy_value : DeployRequest → Value
deploy_value d = obj (
    field (text "kind") (str d.kind) (
      field (text "path") (str d.path) (
        field (text "namespace") (opt str d.namespace) (
          field (text "rollout") (opt str d.rollout)
            (field (text "rolloutTimeoutSeconds") (opt num d.rollout_timeout_seconds) end)))))

-- `serde_json::to_value` on a request, as the derived `Serialize` with camelCase names gives it.
unfoldable pub to_value : BuildRequest → Value
to_value r = obj (
    field (text "schemaVersion") (opt str r.schema_version) (
      field (text "jobKind") (opt str r.job_kind) (
        field (text "repoUrl") (str r.repo_url) (
          field (text "gitRef") (opt str r.git_ref) (
            field (text "image") (str r.image) (
              field (text "profile") (opt str r.profile) (
                field (text "contextDir") (opt str r.context_dir) (
                  field (text "dockerfile") (opt str r.dockerfile) (
                    field (text "buildArgs") (opt map_value r.build_args) (
                      field (text "push") (opt bool r.push) (
                        field (text "deploy") (opt deploy_value r.deploy) (
                          field (text "executor") (opt str r.executor)
                            (field (text "requestId") (opt str r.request_id) end)))))))))))))

-- Serialising a request does not fail, so the arms for an error are not reached.
unfoldable pub requests_match : BuildRequest → BuildRequest → Bool
requests_match left right = value_eq (to_value left) (to_value right)
