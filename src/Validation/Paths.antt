-- ===== src/Validation/Paths.antt =====
-- src/validation.rs: `validate_relative_path`, over `Path::components` and `PathBuf::push` of a
-- Unix target.
pub mod Laws
use gha_indie_worker_rs.Prelude.{
  ℕ, Bool, true, false, ◌||◌, List, [], ◌∷◌, ◌++◌, any, ltb, ◌==◌, is_empty, Result, ok, err, ◌>>=◌,
  if◌then◌else◌,
}
use gha_indie_worker_rs.Text.{Text, text, text_eq, trim, len, starts_with, is_control}
use gha_indie_worker_rs.Text.Split.{split}
use gha_indie_worker_rs.Message.{Message, message, lit, shown}

-- `std::path::Component`; a Unix path has no prefix component.
pub data Component : Type 0 where
  root_dir cur_dir parent_dir : Component
  normal : Text → Component

-- The components of the pieces between slashes: empty pieces and "." are dropped.
unfoldable pub inner_components : List Text → List Component
inner_components [] = []
inner_components (part ∷ parts) =
    if is_empty part || text_eq part (text ".")
    then inner_components parts
    else if text_eq part (text "..")
    then parent_dir ∷ inner_components parts
    else normal part ∷ inner_components parts

-- A leading "." is kept, unless the path is absolute.
unfoldable pub leading_components : List Text → List Component
leading_components [] = []
leading_components (part ∷ parts) =
    if text_eq part (text ".")
    then cur_dir ∷ inner_components parts
    else inner_components (part ∷ parts)

abbrev pub is_absolute : Text → Bool
is_absolute path = starts_with path (text "/")

unfoldable pub components : Text → List Component
components path =
    if is_absolute path
    then root_dir ∷ inner_components (split b'/' path)
    else leading_components (split b'/' path)

unfoldable pub ends_with_slash : Text → Bool
ends_with_slash [] = false
ends_with_slash (c ∷ []) = c == b'/'
ends_with_slash (c ∷ s) = ends_with_slash s

-- `PathBuf::push`, and `Path::join` on a copy.
unfoldable pub push_path : Text → Text → Text
push_path buf path =
    if is_absolute path
    then path
    else if is_empty buf || ends_with_slash buf
    then buf ++ path
    else buf ++ b'/' ∷ path

unfoldable pub is_unsupported : ℕ → Bool
is_unsupported ch = ch == b',' || ch == b'=' || ch == b':' || ch == 0 || is_control ch

-- The loop over the components; `clean` is the path so far.
unfoldable pub clean_components : Text → Text → List Component → Result Text Message
clean_components name clean [] = ok clean
clean_components name clean (normal part ∷ rest) =
    if any is_unsupported part
    then err (shown name ∷ lit " contains unsupported characters" ∷ [])
    else clean_components name (push_path clean part) rest
clean_components name clean (cur_dir ∷ rest) = clean_components name clean rest
clean_components name clean (_ ∷ rest) =
    err (shown name ∷ lit " must stay inside the repository root" ∷ [])

abbrev pub or_dot : Text → Text
or_dot clean = if is_empty clean then text "." else clean

unfoldable pub validate_relative_path : Text → Text → Result Text Message
validate_relative_path name value =
    let trimmed = trim value in
    if is_empty trimmed
    then err (shown name ∷ lit " must not be empty" ∷ [])
    else if ltb 240 (len trimmed)
    then err (shown name ∷ lit " must be 240 characters or fewer" ∷ [])
    else if is_absolute trimmed
    then err (shown name ∷ lit " must be relative to the repository root" ∷ [])
    else (do clean ← clean_components name [] (components trimmed); ok (or_dot clean))
