-- ===== src/Jobs/Execute/Build/Redaction.antt =====
-- src/exec.rs, src/jobs.rs: what the log shows of the build arguments.
use gha_indie_worker_rs.Prelude.{
  ◌≡◌, refl, ap, ◌∙◌, Bool, true, false, Option, none, some, List, [], ◌∷◌, ◌++◌, All, Bool-cases,
  inl, inr,
}
use gha_indie_worker_rs.Text.{Text, text, text_eq, contains_char}
use gha_indie_worker_rs.Text.Split.{split_once-append}
use gha_indie_worker_rs.Jobs.Execute.Build.{build_arg_args, nerdctl_build_args}
use gha_indie_worker_rs.Types.{BuildRequest}
use gha_indie_worker_rs.Config.{Config}
use gha_indie_worker_rs.Text.{
  trim_start, starts_with, is_whitespace, is_ascii_alphanumeric, is_ascii_digit, is_ascii_lowercase,
  is_ascii_uppercase,
}
use gha_indie_worker_rs.Text.Laws.{text_eq_iff, contains_char_of_all}
use gha_indie_worker_rs.Prelude.{unwrap_or, ok}
use gha_indie_worker_rs.Validation.Fields.{validate_build_args, is_key_char}
use gha_indie_worker_rs.Validation.Fields.Laws.{
  IsPlainArg, validate_build_args-IsPlainArg, IsAllowedImage,
}
use gha_indie_worker_rs.Validation.Requests.{validate_build_request, request_job_kind, run_profile}
use gha_indie_worker_rs.Validation.Requests.Laws.{
  validate_build_request-validate_build_args, validate_build_request-IsAllowedImage,
}
use gha_indie_worker_rs.Exec.Display.{redact, redacted_build_args}

-- No argument is the option `--build-arg` itself.
abbrev pub IsQuietArgs : List Text → Type 0
IsQuietArgs = All (λ arg. text_eq arg (text "--build-arg") ≡ false)

redact-append :
    (args rest : List Text)
    → IsQuietArgs args
    → redact false (args ++ rest) ≡ args ++ redact false rest
unfolding redact
redact-append [] rest h = refl
redact-append (arg ∷ args) rest (quiet, h) =
    rw quiet (ap (λ (t : List Text). arg ∷ t) (redact-append args rest h))

-- What stands in the log for build arguments of these keys.
abbrev pub shown_build_args : List Text → List Text
shown_build_args [] = []
shown_build_args (key ∷ keys) =
    text "--build-arg" ∷ (key ++ text "=<redacted>") ∷ shown_build_args keys

redact-next :
    (key value : Text) (rest : List Text)
    → contains_char key b'=' ≡ false
    → redact true ((key ++ b'=' ∷ value) ∷ rest) ≡ (key ++ text "=<redacted>") ∷ redact false rest
unfolding redact
redact-next key value rest h = rw (split_once-append b'=' key value h) refl

redact-one : (last : Text) → redact false (last ∷ []) ≡ last ∷ []
unfolding redact
redact-one last = refl

redact-option :
    (rest : List Text)
    → redact false (text "--build-arg" ∷ rest) ≡ text "--build-arg" ∷ redact true rest
unfolding redact text_eq
redact-option rest = refl

abbrev pub keys_of : List (Text × Text) → List Text
keys_of [] = []
keys_of ((key, value) ∷ args) = key ∷ keys_of args

abbrev pub PlainKeys : List (Text × Text) → Type 0
PlainKeys = All (λ arg. contains_char arg.0 b'=' ≡ false)

redact-build_args :
    (args : List (Text × Text)) (last : Text)
    → PlainKeys args
    → redact false (build_arg_args args ++ last ∷ []) ≡ shown_build_args (keys_of args) ++ last ∷ []
redact-build_args [] last h = redact-one last
redact-build_args ((key, value) ∷ args) last (plain, h) =
    redact-option _
    ∙ ap (λ (t : List Text). text "--build-arg" ∷ t)
        (redact-next key value _ plain
          ∙ ap (λ (t : List Text). (key ++ text "=<redacted>") ∷ t) (redact-build_args args last h))

-- Build arguments are shown by their keys alone, among arguments that are shown as they are.
pub redacted-build_args :
    (before : List Text) (args : List (Text × Text)) (last : Text)
    → IsQuietArgs before
    → PlainKeys args
    → redacted_build_args (before ++ (build_arg_args args ++ last ∷ []))
      ≡ before ++ (shown_build_args (keys_of args) ++ last ∷ [])
unfolding redacted_build_args
redacted-build_args before args last quiet h =
    redact-append before (build_arg_args args ++ last ∷ []) quiet
    ∙ ap (λ (t : List Text). before ++ t) (redact-build_args args last h)

PlainKeys-of : (args : List (Text × Text)) → All IsPlainArg args → PlainKeys args
unfolding is_key_char is_ascii_alphanumeric is_ascii_digit is_ascii_lowercase is_ascii_uppercase
PlainKeys-of [] h = tt
PlainKeys-of (arg ∷ args) (plain, h) =
    (contains_char_of_all is_key_char arg.0 b'=' plain.key_chars refl, PlainKeys-of args h)

PlainKeys-valid :
    (found : Option (List (Text × Text)))
    → validate_build_args found ≡ ok tt
    → PlainKeys (unwrap_or found [])
PlainKeys-valid none h = tt
PlainKeys-valid (some args) h = PlainKeys-of args (validate_build_args-IsPlainArg args h).1

-- An allowed image is not an option.
image_not_option :
    (config : Config) (image : Text) (push : Bool)
    → IsAllowedImage config image push
    → text_eq image (text "--build-arg") ≡ false
unfolding trim_start starts_with is_whitespace
image_not_option config image push h = elim (Bool-cases (text_eq image (text "--build-arg"))) [
  | inl same ↦
      let e : image ≡ text "--build-arg" = (text_eq_iff _ _).0 same in
      let k : starts_with (trim_start (text "--build-arg")) (text "-") ≡ false =
        rw e at h.no_option in
      cc
  | inr other ↦ other
]

-- For a request of another kind than run-profile that was validated, where neither the namespace
-- of containerd nor the Dockerfile's path is the text "--build-arg", the command line of the build
-- that is logged shows every build argument as its key and "=<redacted>", and all else as it is run.
pub redacted-nerdctl_build_args :
    (config : Config) (request : BuildRequest) (context dockerfile : Text)
    → validate_build_request config request ≡ ok tt
    → text_eq (request_job_kind request) run_profile ≡ false
    → text_eq config.containerd_namespace (text "--build-arg") ≡ false
    → text_eq dockerfile (text "--build-arg") ≡ false
    → redacted_build_args (nerdctl_build_args config request context dockerfile)
      ≡ text "-n"
        ∷ config.containerd_namespace
        ∷ text "build"
        ∷ text "-f"
        ∷ dockerfile
        ∷ text "-t"
        ∷ request.image
        ∷ (shown_build_args (keys_of (unwrap_or request.build_args [])) ++ context ∷ [])
unfolding nerdctl_build_args text_eq
redacted-nerdctl_build_args config request context dockerfile valid kind namespace path =
    let image =
      image_not_option config request.image (unwrap_or request.push false)
        (validate_build_request-IsAllowedImage config request valid kind) in
    redacted-build_args
      (text "-n"
        ∷ config.containerd_namespace
        ∷ text "build"
        ∷ text "-f"
        ∷ dockerfile
        ∷ text "-t"
        ∷ request.image
        ∷ [])
      (unwrap_or request.build_args []) context
      (refl, (namespace, (refl, (refl, (path, (refl, (image, tt)))))))
      (PlainKeys-valid request.build_args
        (validate_build_request-validate_build_args config request valid kind))
