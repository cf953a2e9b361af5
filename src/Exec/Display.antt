-- ===== src/Exec/Display.antt =====
-- src/exec.rs: how a command line is shown in the log, and what is taken out of it.
use gha_indie_worker_rs.Prelude.{
  ℕ, Bool, false, ◌||◌, Option, none, some, List, [], ◌∷◌, ◌++◌, map, all, ◌==◌, if◌then◌else◌,
}
use gha_indie_worker_rs.Text.{Text, text, text_eq, is_ascii_alphanumeric}
use gha_indie_worker_rs.Text.Split.{split_once}

unfoldable pub is_plain : ℕ → Bool
is_plain ch =
    is_ascii_alphanumeric ch
    || ch == b'/'
    || ch == b'.'
    || ch == b'_'
    || ch == b'-'
    || ch == b':'
    || ch == b'='
    || ch == b'@'

-- `value.replace('\'', "'\\''")`
unfoldable pub escape_quotes : Text → Text
escape_quotes [] = []
escape_quotes (c ∷ s) =
    let rest = escape_quotes s in if c == b'\'' then text "'\\''" ++ rest else c ∷ rest

unfoldable pub shellish : Text → Text
shellish value = if all is_plain value then value else b'\'' ∷ (escape_quotes value ++ text "'")

-- `join(" ")`
unfoldable pub join_words : List Text → Text
join_words [] = []
join_words (w ∷ []) = w
join_words (w ∷ v ∷ ws) = w ++ b' ' ∷ join_words (v ∷ ws)

unfoldable pub printable_command : Text → List Text → Text
printable_command program args = join_words (map shellish (program ∷ args))

-- `arg.split_once('=').map(|(key, _)| key).unwrap_or(arg)`
abbrev pub key_or : Option (Text × Text) → Text → Text
key_or none arg = arg
key_or (some (key, _)) arg = key

-- The loop over the arguments; `redact_next` says that the last one was `--build-arg`.
unfoldable pub redact : Bool → List Text → List Text
redact redact_next [] = []
redact redact_next (arg ∷ args) =
    let rest = redact (if redact_next then false else text_eq arg (text "--build-arg")) args in
    if redact_next
    then (key_or (split_once b'=' arg) arg ++ text "=<redacted>") ∷ rest
    else arg ∷ rest

unfoldable pub redacted_build_args : List Text → List Text
redacted_build_args args = redact false args
