-- ===== src/Validation/Fields.antt =====
-- src/validation.rs: the checks of single values, from `clean_optional` to `validate_image`, and
-- those of build arguments and namespaces.
pub mod Laws
use gha_indie_worker_rs.Prelude.{
  ℕ, Bool, true, false, not, ◌&&◌, ◌||◌, Option, none, some, List, [], ◌∷◌, any, all, length, ltb,
  ◌==◌, is_empty, is_some, Result, ok, err, ◌>>=◌, ◌>>◌, reject, if◌then◌else◌,
}
use gha_indie_worker_rs.Text.{
  Text, text, trim, trim_start, len, starts_with, contains, contains_char, contains_text,
  is_whitespace, is_control, is_ascii_alphanumeric, to_ascii_uppercase,
}
use gha_indie_worker_rs.Text.Split.{after_last}
use gha_indie_worker_rs.Message.{Message, message, lit, shown, debug, number}
use gha_indie_worker_rs.Config.{Config}
use gha_indie_worker_rs.Ecr.{EcrImage, ecr_image}

-- `map(str::trim).filter(|value| !value.is_empty())`
unfoldable pub clean_optional : Option Text → Option Text
clean_optional none = none
clean_optional (some value) = let t = trim value in if is_empty t then none else some t

unfoldable pub ensure_allowed_prefix : Text → Text → List Text → Text → Result Unit Message
ensure_allowed_prefix name value prefixes env_name =
    if is_empty prefixes
    then err (
        shown name
        ∷ lit " is rejected because "
        ∷ shown env_name
        ∷ lit " is empty; configure an explicit allowlist"
        ∷ [])
    else if any (λ prefix. starts_with value prefix) prefixes
    then ok tt
    else err (shown name ∷ lit " is not allowed by " ∷ shown env_name ∷ [])

unfoldable pub validate_no_whitespace : Text → Text → ℕ → Result Unit Message
validate_no_whitespace name value max_len =
    if is_empty (trim value)
    then err (shown name ∷ lit " must not be empty" ∷ [])
    else if ltb max_len (len value)
    then err (shown name ∷ lit " must be " ∷ number max_len ∷ lit " characters or fewer" ∷ [])
    else if any is_whitespace value
    then err (shown name ∷ lit " must not contain whitespace" ∷ [])
    else if any is_control value
    then err (shown name ∷ lit " must not contain control characters" ∷ [])
    else ok tt

unfoldable pub validate_repo_url : Text → Result Unit Message
validate_repo_url repo_url =
    let url = trim repo_url in
    if is_empty url
    then err (message "repoUrl is required")
    else if ltb 2048 (len url)
    then err (message "repoUrl must be 2048 characters or fewer")
    else if any is_control url
    then err (message "repoUrl must not contain control characters")
    else if starts_with url (text "https://")
        || starts_with url (text "ssh://")
        || starts_with url (text "git@")
    then ok tt
    else err (message "repoUrl must use https://, ssh://, or git@")

unfoldable pub has_explicit_image_version : Text → Bool
has_explicit_image_version image =
    contains_char image b'@' || contains_char (after_last b'/' image) b':'

unfoldable pub validate_image : Config → Text → Bool → Result (Option EcrImage) Message
validate_image config image push = do
  validate_no_whitespace (text "image") image 512
  reject (starts_with (trim_start image) (text "-")) (message "image must not start with '-'")
  reject (not (has_explicit_image_version image))
      (message "image must include an explicit tag or digest")
  ensure_allowed_prefix (text "image") image config.allowed_image_prefixes
      (text "BUILD_SERVER_ALLOWED_IMAGE_PREFIXES")
  let ecr = ecr_image image
  reject (push && config.ecr_login_enabled && not (is_some ecr))
      (message "push currently requires an Amazon ECR image when ECR login is enabled")
  ok ecr

abbrev pub secret_parts : List Text
secret_parts =
    text "SECRET" ∷ text "PASSWORD" ∷ text "TOKEN" ∷ text "CREDENTIAL" ∷ text "PRIVATE_KEY" ∷ []

unfoldable pub is_key_char : ℕ → Bool
is_key_char ch = is_ascii_alphanumeric ch || ch == b'_' || ch == b'-' || ch == b'.'

-- One round of the loop over the build arguments.
unfoldable pub validate_build_arg : Text → Text → Result Unit Message
validate_build_arg key value =
    if is_empty key || ltb 80 (len key)
    then err (message "build arg keys must be 1-80 characters")
    else if any (λ part. contains_text (to_ascii_uppercase key) part) secret_parts
    then err (
        lit "build arg key "
        ∷ debug key
        ∷ lit " looks secret-like; use registry/repo credentials, not Docker build args"
        ∷ [])
    else if not (all is_key_char key)
    then err (lit "build arg key " ∷ debug key ∷ lit " contains unsupported characters" ∷ [])
    else if ltb 1024 (len value) || any is_control value
    then err
        (lit "build arg " ∷ debug key ∷ lit " must be printable and 1024 characters or fewer" ∷ [])
    else ok tt

unfoldable pub validate_each_build_arg : List (Text × Text) → Result Unit Message
validate_each_build_arg [] = ok tt
validate_each_build_arg ((key, value) ∷ rest) =
    validate_build_arg key value >> validate_each_build_arg rest

unfoldable pub validate_build_args : Option (List (Text × Text)) → Result Unit Message
validate_build_args none = ok tt
validate_build_args (some build_args) = do
  reject (ltb 32 (length build_args)) (message "buildArgs can contain at most 32 entries")
  validate_each_build_arg build_args

unfoldable pub validate_namespace : Config → Text → Result Unit Message
validate_namespace config namespace = do
  validate_no_whitespace (text "deploy.namespace") namespace 63
  reject (not (contains config.allowed_namespaces namespace)) (
      lit "namespace "
      ∷ debug namespace
      ∷ lit " is not allowed by BUILD_SERVER_ALLOWED_NAMESPACES"
      ∷ [])
