-- ===== src/Jobs/Requests/Laws.antt =====
-- src/jobs.rs: `requests_match` is equality of requests.
use gha_indie_worker_rs.Prelude.{
  ℕ, Bool, true, Option, none, some, List, [], ◌∷◌, ◌≡◌, refl, ◌↔◌, ap,
}
use gha_indie_worker_rs.Text.{Text}
use gha_indie_worker_rs.Types.{BuildRequest, DeployRequest}
use gha_indie_worker_rs.Json.{Value, Fields, bool, num, str, obj, field}
use gha_indie_worker_rs.Json.Laws.{value_eq_iff}
use gha_indie_worker_rs.Jobs.Requests.{
  opt, map_fields, map_value, deploy_value, to_value, requests_match,
}

opt-str-injective : (a b : Option Text) → opt str a ≡ opt str b → a ≡ b
opt-str-injective none none h = refl
opt-str-injective (some a) (some b) h = cc
opt-str-injective none (some b) h = cc
opt-str-injective (some a) none h = cc

opt-num-injective : (a b : Option ℕ) → opt num a ≡ opt num b → a ≡ b
opt-num-injective none none h = refl
opt-num-injective (some a) (some b) h = cc
opt-num-injective none (some b) h = cc
opt-num-injective (some a) none h = cc

opt-bool-injective : (a b : Option Bool) → opt bool a ≡ opt bool b → a ≡ b
opt-bool-injective none none h = refl
opt-bool-injective (some a) (some b) h = cc
opt-bool-injective none (some b) h = cc
opt-bool-injective (some a) none h = cc

map_fields-injective : (a b : List (Text × Text)) → map_fields a ≡ map_fields b → a ≡ b
unfolding map_fields
map_fields-injective [] [] h = refl
map_fields-injective ((k, v) ∷ a) ((j, w) ∷ b) h = cc (map_fields-injective a b (cc))
map_fields-injective [] (x ∷ b) h = cc
map_fields-injective (x ∷ a) [] h = cc

opt-map_value-injective :
    (a b : Option (List (Text × Text))) → opt map_value a ≡ opt map_value b → a ≡ b
unfolding map_value
opt-map_value-injective none none h = refl
opt-map_value-injective (some a) (some b) h = cc (map_fields-injective a b (cc))
opt-map_value-injective none (some b) h = cc
opt-map_value-injective (some a) none h = cc

deploy_value-injective : (a b : DeployRequest) → deploy_value a ≡ deploy_value b → a ≡ b
unfolding deploy_value
deploy_value-injective a b h = cc (
  opt-str-injective a.namespace b.namespace (cc),
  opt-str-injective a.rollout b.rollout (cc),
  opt-num-injective a.rollout_timeout_seconds b.rollout_timeout_seconds (cc),
)

opt-deploy_value-injective :
    (a b : Option DeployRequest) → opt deploy_value a ≡ opt deploy_value b → a ≡ b
opt-deploy_value-injective none none h = refl
opt-deploy_value-injective (some a) (some b) h = ap some (deploy_value-injective a b h)
opt-deploy_value-injective none (some b) h = unfold deploy_value in cc
opt-deploy_value-injective (some a) none h = unfold deploy_value in cc

obj-injective : (a b : Fields) → obj a ≡ obj b → a ≡ b
obj-injective a b h = cc

str-injective : (a b : Text) → str a ≡ str b → a ≡ b
str-injective a b h = cc

field-injective :
    (k : Text) (v w : Value) (a b : Fields) → field k v a ≡ field k w b → (v ≡ w) × (a ≡ b)
field-injective k v w a b h = (cc, cc)

to_value-injective : (a b : BuildRequest) → to_value a ≡ to_value b → a ≡ b
unfolding to_value
to_value-injective a b h =
    let (v0, r0) = field-injective _ _ _ _ _ (obj-injective _ _ h) in
    let (v1, r1) = field-injective _ _ _ _ _ (r0) in
    let (v2, r2) = field-injective _ _ _ _ _ (r1) in
    let (v3, r3) = field-injective _ _ _ _ _ (r2) in
    let (v4, r4) = field-injective _ _ _ _ _ (r3) in
    let (v5, r5) = field-injective _ _ _ _ _ (r4) in
    let (v6, r6) = field-injective _ _ _ _ _ (r5) in
    let (v7, r7) = field-injective _ _ _ _ _ (r6) in
    let (v8, r8) = field-injective _ _ _ _ _ (r7) in
    let (v9, r9) = field-injective _ _ _ _ _ (r8) in
    let (v10, r10) = field-injective _ _ _ _ _ (r9) in
    let (v11, r11) = field-injective _ _ _ _ _ (r10) in
    let (v12, r12) = field-injective _ _ _ _ _ (r11) in
    λ i. record {
      schema_version = opt-str-injective a.schema_version b.schema_version v0 i;
      job_kind = opt-str-injective a.job_kind b.job_kind v1 i;
      repo_url = str-injective a.repo_url b.repo_url v2 i;
      git_ref = opt-str-injective a.git_ref b.git_ref v3 i;
      image = str-injective a.image b.image v4 i;
      profile = opt-str-injective a.profile b.profile v5 i;
      context_dir = opt-str-injective a.context_dir b.context_dir v6 i;
      dockerfile = opt-str-injective a.dockerfile b.dockerfile v7 i;
      build_args = opt-map_value-injective a.build_args b.build_args v8 i;
      push = opt-bool-injective a.push b.push v9 i;
      deploy = opt-deploy_value-injective a.deploy b.deploy v10 i;
      executor = opt-str-injective a.executor b.executor v11 i;
      request_id = opt-str-injective a.request_id b.request_id v12 i;
    }

-- Two requests match exactly when every field of one is that of the other.
pub requests_match_iff : (a b : BuildRequest) → (requests_match a b ≡ true) ↔ (a ≡ b)
unfolding requests_match
requests_match_iff a b = (
  λ h. to_value-injective a b ((value_eq_iff _ _).0 h),
  λ e. (value_eq_iff _ _).1 (ap to_value e),
)
