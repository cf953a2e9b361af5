-- ===== src/Validation/Rollout/Laws.antt =====
-- src/validation.rs: the shape of an accepted rollout resource.
use gha_indie_worker_rs.Prelude.{
  ◌≤◌, ◌≡◌, sym, true, false, not, ◌&&◌, ◌||◌, ◌∷◌, ◌++◌, all, leb, is_empty, arith, ok, >>=-eq-ok,
  >>-eq-ok, reject-eq-ok, ok_or-eq-ok, ok-injective,
}
use gha_indie_worker_rs.Text.{Text, text, trim, len, starts_with, contains_text}
use gha_indie_worker_rs.Text.Split.{split_once-eq-some}
use gha_indie_worker_rs.Validation.Rollout.{
  validate_rollout_resource, shape_resource, is_kind_char, is_name_char,
}

-- TYPE/NAME: neither part is empty, the name has at most 253 bytes, and the characters are those of
-- a Kubernetes resource.
pub record IsResource (resource : Text) : Type 0 where
  pub kind : Text
  pub name : Text
  pub shape : resource ≡ kind ++ b'/' ∷ name
  pub kind_filled : is_empty kind ≡ false
  pub name_filled : is_empty name ≡ false
  pub kind_chars : all is_kind_char kind ≡ true
  pub name_chars : all is_name_char name ≡ true
  pub name_short : len name ≤ 253

parts-IsResource :
    (resource kind name : Text)
    → resource ≡ kind ++ b'/' ∷ name
    → (not (not (is_empty kind) && all is_kind_char kind)
        || not (not (is_empty name) && leb (len name) 253 && all is_name_char name))
      ≡ false
    → IsResource resource
parts-IsResource resource kind name e h = record {
  kind = kind;
  name = name;
  shape = e;
  kind_filled = ground arith;
  name_filled = ground arith;
  kind_chars = ground arith;
  name_chars = ground arith;
  name_short = ground arith;
}

-- What `validate_rollout_resource` returns is the trimmed value, or a deployment of that name, which
-- holds no "..", does not start with a dash, and has the shape TYPE/NAME.
pub validate_rollout_resource-IsResource :
    (raw resource : Text)
    → validate_rollout_resource raw ≡ ok resource
    → (resource ≡ shape_resource (trim raw))
      × (contains_text (trim raw) (text "..") ≡ false)
      × (starts_with (trim raw) (text "-") ≡ false)
      × IsResource resource
unfolding validate_rollout_resource
validate_rollout_resource-IsResource raw resource h =
    let (_, _, h1) = >>-eq-ok _ _ h in
    let (_, dots, h2) = >>-eq-ok _ _ h1 in
    let (_, dash, h3) = >>-eq-ok _ _ h2 in
    let ((kind, name), found, h4) = >>=-eq-ok _ _ h3 in
    let (_, fine, h5) = >>-eq-ok _ _ h4 in
    let same = ok-injective h5 in
    let (split, _) =
      split_once-eq-some b'/' (shape_resource (trim raw)) kind name (ok_or-eq-ok _ _ found) in
    (
      sym same,
      reject-eq-ok _ _ dots,
      reject-eq-ok _ _ dash,
      rw (← same)
          (parts-IsResource (shape_resource (trim raw)) kind name split (reject-eq-ok _ _ fine)),
    )
