-- ===== src/Json.antt =====
-- `serde_json::Value` and its equality, as far as src/jobs.rs and src/types.rs use them.
pub mod Laws
use gha_indie_worker_rs.Prelude.{
  ℕ, Bool, true, false, ◌&&◌, Option, none, some, ◌==◌, if◌then◌else◌,
}
use gha_indie_worker_rs.Text.{Text, text_eq}

mutual
  pub data Value : Type 0 where
    null : Value
    bool : Bool → Value
    num : ℕ → Value
    str : Text → Value
    obj : Fields → Value

  pub data Fields : Type 0 where
    end : Fields
    field : Text → Value → Fields → Fields

abbrev pub bool_eq : Bool → Bool → Bool
bool_eq true true = true
bool_eq false false = true
bool_eq _ _ = false

-- Both objects list their fields in one order, as a serialised struct and a BTreeMap do.
unfoldable mutual
  unfolding text_eq

  pub value_eq : Value → Value → Bool
  value_eq null null = true
  value_eq (bool a) (bool b) = bool_eq a b
  value_eq (num a) (num b) = a == b
  value_eq (str a) (str b) = text_eq a b
  value_eq (obj a) (obj b) = fields_eq a b
  value_eq _ _ = false

  pub fields_eq : Fields → Fields → Bool
  fields_eq end end = true
  fields_eq (field j v a) (field k w b) = text_eq j k && (value_eq v w && fields_eq a b)
  fields_eq _ _ = false

find_field : Text → Fields → Option Value
find_field name end = none
find_field name (field k v fs) = if text_eq k name then some v else find_field name fs

-- `value.get(name)`
unfoldable pub get : Text → Value → Option Value
unfolding find_field text_eq
get name (obj fs) = find_field name fs
get name _ = none

abbrev pub as_u64 : Value → Option ℕ
as_u64 (num n) = some n
as_u64 _ = none

abbrev pub as_bool : Value → Option Bool
as_bool (bool b) = some b
as_bool _ = none

abbrev pub as_str : Value → Option Text
as_str (str s) = some s
as_str _ = none

-- `value.and_then(as_…)`
abbrev pub and_then {ℓ} : {A : Type 0} {B : Type ℓ} → Option A → (A → Option B) → Option B
and_then none f = none
and_then (some a) f = f a
