-- ===== src/Tests/Validation.antt =====
-- Tests of the validation.
use gha_indie_worker_rs.Prelude.{
  ◌≤◌, ◌≡◌, refl, true, false, not, ◌&&◌, none, List, [], ◌∷◌, All, any, length, unwrap_or,
}
use gha_indie_worker_rs.Text.{
  Text, text, text_eq, contains, len, len_utf8, trim, trim_start, trim_end, starts_with,
  contains_char, contains_text, is_whitespace, is_control, is_ascii_digit, is_ascii_lowercase,
  is_ascii_uppercase, is_ascii_alphanumeric, to_ascii_uppercase,
}
use gha_indie_worker_rs.Text.Split.{split, split_once, after_last}
use gha_indie_worker_rs.Ecr.{image_registry, ecr_image}
use gha_indie_worker_rs.Profiles.{find_profile}
use gha_indie_worker_rs.Validation.Fields.{
  clean_optional, ensure_allowed_prefix, validate_no_whitespace, validate_repo_url,
  has_explicit_image_version, validate_image, validate_build_arg, validate_each_build_arg,
  validate_build_args, validate_namespace, is_key_char,
}
use gha_indie_worker_rs.Validation.Fields.Laws.{
  IsAllowedImage, IsPlainArg, validate_image-IsAllowedImage, validate_build_args-IsPlainArg,
}
use gha_indie_worker_rs.Validation.Paths.{
  components, inner_components, leading_components, clean_components, push_path, is_absolute,
  is_unsupported, ends_with_slash, validate_relative_path,
}
use gha_indie_worker_rs.Validation.Paths.Laws.{IsInside, validate_relative_path-IsInside}
use gha_indie_worker_rs.Validation.Rollout.{
  validate_rollout_resource, shape_resource, is_kind_char, is_name_char,
}
use gha_indie_worker_rs.Validation.Rollout.Laws.{IsResource, validate_rollout_resource-IsResource}
use gha_indie_worker_rs.Validation.Requests.{
  validate_deploy, request_job_kind, validate_schema_version, validate_source, validate_profile_job,
  validate_image_job, validate_inputs, validate_executor, validate_build_request,
}
use gha_indie_worker_rs.Validation.Requests.Laws.{
  IsProfileJob, validate_build_request-source, validate_build_request-IsProfileJob,
  validate_build_request-IsAllowedImage, validate_build_request-deploy,
}
use gha_indie_worker_rs.Tests.Data.{config, profile_request, image_request, deployment}

-- The definitions that the tests below compute with.
unfoldable pub code : Unit {0}
unfolding text_eq contains len len_utf8 trim trim_start trim_end starts_with contains_char
    contains_text is_whitespace is_control is_ascii_digit is_ascii_lowercase is_ascii_uppercase
    is_ascii_alphanumeric to_ascii_uppercase split split_once after_last image_registry ecr_image
    find_profile clean_optional ensure_allowed_prefix validate_no_whitespace validate_repo_url
    has_explicit_image_version validate_image validate_build_arg validate_each_build_arg
    validate_build_args validate_namespace is_key_char components inner_components
    leading_components clean_components push_path is_unsupported ends_with_slash
    validate_relative_path validate_rollout_resource shape_resource is_kind_char is_name_char
    validate_deploy request_job_kind validate_schema_version validate_source validate_profile_job
    validate_image_job validate_inputs validate_executor validate_build_request
code = tt

validate_relative_path-IsInside_example :
    (len (trim (text "deploy/./base")) ≤ 240)
    × All IsInside (components (trim (text "deploy/./base")))
    × (is_absolute (text "deploy/base") ≡ false)
    × (any is_unsupported (text "deploy/base") ≡ false)
unfolding code
validate_relative_path-IsInside_example =
    validate_relative_path-IsInside (text "deploy.path") (text "deploy/./base") (text "deploy/base")
      refl

validate_rollout_resource-IsResource_example :
    (text "deployment/api" ≡ shape_resource (trim (text " api")))
    × (contains_text (trim (text " api")) (text "..") ≡ false)
    × (starts_with (trim (text " api")) (text "-") ≡ false)
    × IsResource (text "deployment/api")
unfolding code
validate_rollout_resource-IsResource_example =
    validate_rollout_resource-IsResource (text " api") (text "deployment/api") refl

validate_image-IsAllowedImage_example :
    IsAllowedImage config (text "registry.local/app:1") true
    × (none ≡ ecr_image (text "registry.local/app:1"))
unfolding code
validate_image-IsAllowedImage_example =
    validate_image-IsAllowedImage config (text "registry.local/app:1") true none refl

abbrev build_args : List (Text × Text)
build_args = (text "VERSION", text "1.2") ∷ []

validate_build_args-IsPlainArg_example : (length build_args ≤ 32) × All IsPlainArg build_args
unfolding code
validate_build_args-IsPlainArg_example = validate_build_args-IsPlainArg build_args refl

validate_build_request-source_example :
    (any (λ prefix. starts_with image_request.repo_url prefix) config.allowed_repo_prefixes ≡ true)
    × ((unwrap_or image_request.push false && not config.push_enabled) ≡ false)
unfolding code
validate_build_request-source_example = validate_build_request-source config image_request refl

validate_build_request-IsProfileJob_example : IsProfileJob config profile_request
unfolding code
validate_build_request-IsProfileJob_example =
    validate_build_request-IsProfileJob config profile_request refl refl

validate_build_request-IsAllowedImage_example :
    IsAllowedImage config image_request.image (unwrap_or image_request.push false)
unfolding code
validate_build_request-IsAllowedImage_example =
    validate_build_request-IsAllowedImage config image_request refl refl

validate_build_request-deploy_example :
    (config.deploy_enabled ≡ true)
    × (contains config.allowed_namespaces (unwrap_or deployment.namespace (text "default")) ≡ true)
unfolding code
validate_build_request-deploy_example =
    validate_build_request-deploy config image_request deployment refl refl refl refl
