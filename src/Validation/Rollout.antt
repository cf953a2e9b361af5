-- ===== src/Validation/Rollout.antt =====
-- src/validation.rs: `validate_rollout_resource`.
pub mod Laws
use gha_indie_worker_rs.Prelude.{
  ℕ, Bool, true, false, not, ◌&&◌, ◌||◌, List, [], ◌∷◌, ◌++◌, all, leb, ◌==◌, is_empty, Result, ok,
  err, ◌>>=◌, ◌>>◌, reject, ok_or, if◌then◌else◌,
}
use gha_indie_worker_rs.Text.{
  Text, text, trim, len, starts_with, contains_char, contains_text, is_ascii_lowercase,
  is_ascii_digit, is_ascii_alphanumeric,
}
use gha_indie_worker_rs.Text.Split.{split_once}
use gha_indie_worker_rs.Message.{Message, message}
use gha_indie_worker_rs.Validation.Fields.{validate_no_whitespace}

unfoldable pub is_kind_char : ℕ → Bool
is_kind_char ch = is_ascii_lowercase ch || is_ascii_digit ch || ch == b'.' || ch == b'-'

unfoldable pub is_name_char : ℕ → Bool
is_name_char ch = is_ascii_alphanumeric ch || ch == b'.' || ch == b'-'

-- The value with a default type in front of a bare name.
unfoldable pub shape_resource : Text → Text
shape_resource value = if contains_char value b'/' then value else text "deployment/" ++ value

unfoldable pub validate_rollout_resource : Text → Result Text Message
validate_rollout_resource raw = do
  let value = trim raw
  validate_no_whitespace (text "deploy.rollout") value 160
  reject (contains_text value (text "..")) (message "deploy.rollout must not contain '..'")
  reject (starts_with value (text "-")) (message "deploy.rollout must not start with '-'")
  let resource = shape_resource value
  (kind, name) ← ok_or (split_once b'/' resource) (message "deploy.rollout must be TYPE/NAME")
  let kind_ok = not (is_empty kind) && all is_kind_char kind
  let name_ok = not (is_empty name) && leb (len name) 253 && all is_name_char name
  reject (not kind_ok || not name_ok) (message "deploy.rollout must be a valid TYPE/NAME resource")
  ok resource
