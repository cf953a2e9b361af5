-- ===== src/Json/Laws.antt =====
-- Equality of JSON values is equality.
use gha_indie_worker_rs.Prelude.{true, false, ◌≡◌, refl, ◌↔◌, arith}
use mathlib.Core.Bool.{and-eq-true_iff}
use gha_indie_worker_rs.Text.Laws.{text_eq_sound, text_eq_refl}
use gha_indie_worker_rs.Json.{
  Value, null, bool, num, str, obj, Fields, end, field, value_eq, fields_eq,
}

mutual
  unfolding value_eq fields_eq

  value_eq_sound : (v w : Value) → value_eq v w ≡ true → v ≡ w
  value_eq_sound null null h = refl
  value_eq_sound (bool true) (bool true) h = refl
  value_eq_sound (bool false) (bool false) h = refl
  value_eq_sound (num a) (num b) h = ground arith
  value_eq_sound (str a) (str b) h = ground (arith, text_eq_sound a b)
  value_eq_sound (obj a) (obj b) h = ground (arith, fields_eq_sound a b)
  value_eq_sound _ _ h = cc

  fields_eq_sound : (v w : Fields) → fields_eq v w ≡ true → v ≡ w
  fields_eq_sound end end h = refl
  fields_eq_sound (field j v a) (field k w b) h =
      let (same_key, more) = (and-eq-true_iff _ _).0 h in
      let (same_value, rest) = (and-eq-true_iff _ _).0 more in
      cc (text_eq_sound j k same_key, value_eq_sound v w same_value, fields_eq_sound a b rest)
  fields_eq_sound _ _ h = cc

mutual
  unfolding value_eq fields_eq

  value_eq_refl : (v : Value) → value_eq v v ≡ true
  value_eq_refl null = refl
  value_eq_refl (bool true) = refl
  value_eq_refl (bool false) = refl
  value_eq_refl (num a) = ground arith
  value_eq_refl (str a) = text_eq_refl a
  value_eq_refl (obj a) = fields_eq_refl a

  fields_eq_refl : (v : Fields) → fields_eq v v ≡ true
  fields_eq_refl end = refl
  fields_eq_refl (field j v a) = rw (text_eq_refl j, value_eq_refl v) (fields_eq_refl a)

pub value_eq_iff : (v w : Value) → (value_eq v w ≡ true) ↔ (v ≡ w)
value_eq_iff v w = (value_eq_sound v w, λ e. rw e (value_eq_refl w))
