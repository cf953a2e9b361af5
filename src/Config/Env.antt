-- ===== src/Config/Env.antt =====
-- src/config.rs: the readers of environment variables. `var` is `env::var`, where that is text, and
-- `read_file` is `fs::read_to_string`.
pub mod Laws
use gha_indie_worker_rs.Prelude.{
  ℕ, zero, suc, ◌+◌, ◌-◌, ◌*◌, ◌^◌, Bool, true, false, Option, none, some, List, [], ◌∷◌, ◌++◌,
  is_empty, ltb, ◌==◌, unwrap_or, Result, ok, err, keep, not, map, if◌then◌else◌,
}
use gha_indie_worker_rs.Text.{Text, text, trim, contains, is_ascii_digit}
use gha_indie_worker_rs.Text.Split.{split}
use gha_indie_worker_rs.Message.{Message}

abbrev pub Vars : Type 0
Vars = Text → Option Text

-- `.map(trim).filter(not empty)`
abbrev pub filled : Option Text → Option Text
filled none = none
filled (some value) = let clean = trim value in if is_empty clean then none else some clean

abbrev pub first_of : Option Text → Option Text → Option Text
first_of none rest = rest
first_of (some value) rest = some value

unfoldable pub first_env : Vars → List Text → Option Text
first_env var [] = none
first_env var (key ∷ keys) = first_of (filled (var key)) (first_env var keys)

unfoldable pub env_value : Vars → (key fallback : Text) → Text
env_value var key fallback = unwrap_or (first_env var (key ∷ [])) fallback

abbrev pub yes_words : List Text
yes_words =
    text "1" ∷ text "true" ∷ text "TRUE" ∷ text "yes" ∷ text "YES" ∷ text "on" ∷ text "ON" ∷ []

abbrev pub bool_or : Option Text → Bool → Bool
bool_or none fallback = fallback
bool_or (some value) fallback = contains yes_words value

unfoldable pub env_bool : Vars → (key : Text) → (fallback : Bool) → Bool
env_bool var key fallback = bool_or (first_env var (key ∷ [])) fallback

-- The digits of a number after those that make `acc`.
unfoldable pub parse_digits : ℕ → Text → Option ℕ
parse_digits acc [] = some acc
parse_digits acc (c ∷ s) =
    let rest = parse_digits (acc * 10 + (c - b'0')) s in if is_ascii_digit c then rest else none

abbrev pub below : (bound : ℕ) → Option ℕ → Option ℕ
below bound none = none
below bound (some n) = if ltb n bound then some n else none

-- `value.parse::<u64>()`: one leading "+" is allowed, and nothing that does not fit. A usize is a u64
-- on a 64-bit target.
unfoldable pub parse_u64 : Text → Option ℕ
parse_u64 [] = none
parse_u64 (c ∷ []) = below (2 ^ 64) (parse_digits 0 (c ∷ []))
parse_u64 (c ∷ d ∷ s) =
    if c == b'+'
    then below (2 ^ 64) (parse_digits 0 (d ∷ s))
    else below (2 ^ 64) (parse_digits 0 (c ∷ d ∷ s))

abbrev pub parsed : Option Text → Option ℕ
parsed none = none
parsed (some value) = parse_u64 value

abbrev pub positive : Option ℕ → Option ℕ
positive none = none
positive (some n) = if ltb 0 n then some n else none

unfoldable pub env_u64 : Vars → (key : Text) → (fallback : ℕ) → ℕ
env_u64 var key fallback = unwrap_or (positive (parsed (first_env var (key ∷ [])))) fallback

unfoldable pub env_usize : Vars → (key : Text) → (fallback : ℕ) → ℕ
env_usize var key fallback = unwrap_or (positive (parsed (first_env var (key ∷ [])))) fallback

unfoldable pub parse_csv : Text → List Text
parse_csv value = keep (λ item. not (is_empty item)) (map trim (split b',' value))

-- A HashSet, as the list of its members.
unfoldable pub parse_namespaces : Text → List Text
parse_namespaces value = keep (λ item. not (is_empty item)) (map trim (split b',' value))

abbrev pub from_file : (Text → Result Text Message) → Option Text → Option Text
from_file read_file none = none
from_file read_file (some path) = elim (read_file path) [
  | ok contents ↦ some contents
  | err error ↦ none
]

unfoldable pub env_or_file :
    Vars → (read_file : Text → Result Text Message) → (inline_key path_key : Text) → Option Text
env_or_file var read_file inline_key path_key =
    first_of (first_env var (inline_key ∷ [])) (from_file read_file (first_env var (path_key ∷ [])))

-- `items.join(",")`
unfoldable pub join_commas : List Text → Text
join_commas [] = []
join_commas (item ∷ []) = item
join_commas (item ∷ next ∷ items) = item ++ b',' ∷ join_commas (next ∷ items)
