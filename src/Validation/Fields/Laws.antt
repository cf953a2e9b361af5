-- ===== src/Validation/Fields/Laws.antt =====
-- src/validation.rs: what the accepted values satisfy.
use gha_indie_worker_rs.Prelude.{
  ℕ, ◌≤◌, ◌≡◌, refl, sym, ◌≢◌, Bool, true, false, not, ◌&&◌, ◌||◌, Option, some, List, [], ◌∷◌, All,
  any, all, length, ltb, is_empty, is_some, arith, Bool-cases, inl, inr, Result, ok, err, >>-eq-ok,
  reject-eq-ok, ok-injective,
}
use gha_indie_worker_rs.Text.{
  Text, text, trim, trim_start, len, starts_with, contains, contains_text, is_whitespace,
  is_control, to_ascii_uppercase,
}
use gha_indie_worker_rs.Message.{Message}
use gha_indie_worker_rs.Config.{Config}
use gha_indie_worker_rs.Ecr.{EcrImage, ecr_image}
use gha_indie_worker_rs.Validation.Fields.{
  ensure_allowed_prefix, validate_no_whitespace, has_explicit_image_version, validate_image,
  validate_build_arg, validate_each_build_arg, validate_build_args, validate_namespace,
  secret_parts, is_key_char,
}

err_not_ok : {A : Type 0} {m : Message} {a : A} → ◌≢◌ {A = Result A Message} (err m) (ok a)
err_not_ok k = cc

-- A value that passes has one of the prefixes that are allowed; with no prefixes none passes.
pub ensure_allowed_prefix-eq-ok :
    (name value : Text) (prefixes : List Text) (env_name : Text)
    → ensure_allowed_prefix name value prefixes env_name ≡ ok tt
    → any (λ prefix. starts_with value prefix) prefixes ≡ true
unfolding ensure_allowed_prefix
ensure_allowed_prefix-eq-ok name value prefixes env_name h = elim (Bool-cases (is_empty prefixes)) [
  | inl e ↦ absurd (err_not_ok (rw e at h))
  | inr filled ↦ elim (Bool-cases (any (λ prefix. starts_with value prefix) prefixes)) [
    | inl allowed ↦ allowed
    | inr e ↦ absurd (err_not_ok (rw (filled, e) at h))
  ]
]

-- What `validate_no_whitespace` lets through.
pub record IsWord (value : Text) (max_len : ℕ) : Type 0 where
  pub filled : is_empty (trim value) ≡ false
  pub short : len value ≤ max_len
  pub no_space : any is_whitespace value ≡ false
  pub no_control : any is_control value ≡ false

pub validate_no_whitespace-eq-ok :
    (name value : Text) (max_len : ℕ)
    → validate_no_whitespace name value max_len ≡ ok tt
    → IsWord value max_len
unfolding validate_no_whitespace
validate_no_whitespace-eq-ok name value max_len h = elim (Bool-cases (is_empty (trim value))) [
  | inl e ↦ absurd (err_not_ok (rw e at h))
  | inr a ↦ elim (Bool-cases (ltb max_len (len value))) [
    | inl e ↦ absurd (err_not_ok (rw (a, e) at h))
    | inr b ↦ elim (Bool-cases (any is_whitespace value)) [
      | inl e ↦ absurd (err_not_ok (rw (a, b, e) at h))
      | inr c ↦ elim (Bool-cases (any is_control value)) [
        | inl e ↦ absurd (err_not_ok (rw (a, b, c, e) at h))
        | inr d ↦ record { filled = a; short = ground arith; no_space = c; no_control = d }
      ]
    ]
  ]
]

-- An image that is fit to build under: a word of at most 512 bytes that is no option of a command,
-- names its version, and is allowed; what is pushed with ECR logins on is an ECR image.
pub record IsAllowedImage (config : Config) (image : Text) (push : Bool) : Type 0 where
  pub word : IsWord image 512
  pub no_option : starts_with (trim_start image) (text "-") ≡ false
  pub versioned : has_explicit_image_version image ≡ true
  pub allowed : any (λ prefix. starts_with image prefix) config.allowed_image_prefixes ≡ true
  pub ecr : (push && config.ecr_login_enabled && not (is_some (ecr_image image))) ≡ false

-- An image that `validate_image` accepts is a word of at most 512 bytes that does not start with a
-- dash, names its tag or digest and has an allowed prefix; it is an ECR image if it is to be pushed
-- with ECR logins on; and what is returned are its ECR coordinates.
pub validate_image-IsAllowedImage :
    (config : Config) (image : Text) (push : Bool) (ecr : Option EcrImage)
    → validate_image config image push ≡ ok ecr
    → IsAllowedImage config image push × (ecr ≡ ecr_image image)
unfolding validate_image
validate_image-IsAllowedImage config image push ecr h =
    let (_, word, h1) = >>-eq-ok _ _ h in
    let (_, dash, h2) = >>-eq-ok _ _ h1 in
    let (_, version, h3) = >>-eq-ok _ _ h2 in
    let (_, allowed, h4) = >>-eq-ok _ _ h3 in
    let (_, pushed, h5) = >>-eq-ok _ _ h4 in
    let unversioned = reject-eq-ok _ _ version in
    (
      record {
        word = validate_no_whitespace-eq-ok (text "image") image 512 word;
        no_option = reject-eq-ok _ _ dash;
        versioned = ground arith;
        allowed = ensure_allowed_prefix-eq-ok _ image config.allowed_image_prefixes _ allowed;
        ecr = reject-eq-ok _ _ pushed;
      },
      sym (ok-injective h5),
    )

-- A build argument: its key has 1 to 80 bytes, of the letters, digits and "_-.", and no part of it
-- looks like that of a secret, in any case; its value is printable, of at most 1024 bytes.
pub record IsPlainArg (arg : Text × Text) : Type 0 where
  pub key_filled : is_empty arg.0 ≡ false
  pub key_short : len arg.0 ≤ 80
  pub no_secret : any (λ part. contains_text (to_ascii_uppercase arg.0) part) secret_parts ≡ false
  pub key_chars : all is_key_char arg.0 ≡ true
  pub value_short : len arg.1 ≤ 1024
  pub printable : any is_control arg.1 ≡ false

or-false : (a b : Bool) → (a || b) ≡ false → (a ≡ false) × (b ≡ false)
or-false false b h = (refl, h)
or-false true b h = cc

not-false : (b : Bool) → not b ≡ false → b ≡ true
not-false true h = refl
not-false false h = cc

validate_build_arg-IsPlainArg :
    (key value : Text) → validate_build_arg key value ≡ ok tt → IsPlainArg (key, value)
unfolding validate_build_arg
validate_build_arg-IsPlainArg key value h = elim (Bool-cases (is_empty key || ltb 80 (len key))) [
  | inl e ↦ absurd (err_not_ok (rw e at h))
  | inr a ↦
      elim (Bool-cases (any (λ part. contains_text (to_ascii_uppercase key) part) secret_parts)) [
        | inl e ↦ absurd (err_not_ok (rw (a, e) at h))
        | inr b ↦ elim (Bool-cases (not (all is_key_char key))) [
          | inl e ↦ absurd (err_not_ok (rw (a, b, e) at h))
          | inr c ↦ elim (Bool-cases (ltb 1024 (len value) || any is_control value)) [
            | inl e ↦ absurd (err_not_ok (rw (a, b, c, e) at h))
            | inr d ↦
                let (filled, short) = or-false (is_empty key) (ltb 80 (len key)) a in
                let (value_short, printable) =
                  or-false (ltb 1024 (len value)) (any is_control value) d in
                record {
                  key_filled = filled;
                  key_short = ground arith;
                  no_secret = b;
                  key_chars = not-false (all is_key_char key) c;
                  value_short = ground arith;
                  printable = printable;
                }
          ]
        ]
      ]
]

validate_each_build_arg-IsPlainArg :
    (args : List (Text × Text)) → validate_each_build_arg args ≡ ok tt → All IsPlainArg args
unfolding validate_each_build_arg
validate_each_build_arg-IsPlainArg [] h = tt
validate_each_build_arg-IsPlainArg ((key, value) ∷ rest) h =
    let (_, first, others) = >>-eq-ok _ _ h in
    (validate_build_arg-IsPlainArg key value first, validate_each_build_arg-IsPlainArg rest others)

-- Build arguments that are accepted are at most 32, each with a plain key that names no secret and
-- with a printable value of at most 1024 bytes.
pub validate_build_args-IsPlainArg :
    (args : List (Text × Text))
    → validate_build_args (some args) ≡ ok tt
    → (length args ≤ 32) × All IsPlainArg args
unfolding validate_build_args
validate_build_args-IsPlainArg args h =
    let (_, few, each) = >>-eq-ok _ _ h in
    let fits = reject-eq-ok _ _ few in (ground arith, validate_each_build_arg-IsPlainArg args each)

-- A namespace that is accepted is one of those allowed.
pub validate_namespace-eq-ok :
    (config : Config) (namespace : Text)
    → validate_namespace config namespace ≡ ok tt
    → contains config.allowed_namespaces namespace ≡ true
unfolding validate_namespace
validate_namespace-eq-ok config namespace h =
    let (_, _, allowed) = >>-eq-ok _ _ h in
    not-false (contains config.allowed_namespaces namespace) (reject-eq-ok _ _ allowed)
