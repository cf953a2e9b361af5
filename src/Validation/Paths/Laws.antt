-- ===== src/Validation/Paths/Laws.antt =====
-- src/validation.rs: an accepted path stays inside the repository root and is fit for a bind mount.
use gha_indie_worker_rs.Prelude.{
  ℕ, ◌≤◌, ◌≡◌, refl, ◌≢◌, Bool, false, ◌||◌, List, [], ◌∷◌, ◌++◌, All, any, ltb, ◌==◌, is_empty,
  arith, Bool-cases, inl, inr, Result, ok, err, >>=-eq-ok, ok-injective,
}
use gha_indie_worker_rs.Text.{
  Text, text, text_eq, trim, len, starts_with, contains_char, is_control,
}
use gha_indie_worker_rs.Text.Split.{split, push_front}
use gha_indie_worker_rs.Message.{Message}
use gha_indie_worker_rs.Validation.Paths.{
  Component, root_dir, cur_dir, parent_dir, normal, components, inner_components,
  leading_components, clean_components, push_path, is_absolute, is_unsupported, or_dot,
  ends_with_slash, validate_relative_path,
}

any-append : (p : ℕ → Bool) (s t : Text) → any p (s ++ t) ≡ (any p s || any p t)
any-append p [] t = refl
any-append p (c ∷ s) t = ground (arith, any-append p s t)

-- A component that does not leave the directory that it is read in.
abbrev pub IsInside : Component → Type 0
IsInside root_dir = ⊥
IsInside parent_dir = ⊥
IsInside cur_dir = Unit
IsInside (normal part) = Unit

slash_supported : is_unsupported b'/' ≡ false
unfolding is_unsupported is_control
slash_supported = refl

-- The characters of a path that is built from supported parts.
any-push_path :
    (buf path : Text)
    → any is_unsupported buf ≡ false
    → any is_unsupported path ≡ false
    → any is_unsupported (push_path buf path) ≡ false
unfolding push_path
any-push_path buf path h k = elim (Bool-cases (is_absolute path)) [
  | inl root ↦ rw root k
  | inr rel ↦ elim (Bool-cases (is_empty buf || ends_with_slash buf)) [
    | inl joined ↦ rw (rel, joined) (ground (arith, any-append is_unsupported buf path))
    | inr apart ↦
        rw (rel, apart)
          (ground (arith, any-append is_unsupported buf (b'/' ∷ path), slash_supported))
  ]
]

-- What the loop returns: no component leads out, and no character is unsupported.
clean_components-eq-ok :
    (name buf : Text) (parts : List Component) (clean : Text)
    → any is_unsupported buf ≡ false
    → clean_components name buf parts ≡ ok clean
    → All IsInside parts × (any is_unsupported clean ≡ false)
unfolding clean_components
clean_components-eq-ok name buf [] clean h e = (tt, rw (← ok-injective e) h)
clean_components-eq-ok name buf (normal part ∷ rest) clean h e =
    elim (Bool-cases (any is_unsupported part)) [
      | inl bad ↦ absurd (err_not_ok (rw bad at e))
      | inr good ↦
          let (inside, chars) =
            clean_components-eq-ok name (push_path buf part) rest clean
              (any-push_path buf part h good) (rw good at e) in
          ((tt, inside), chars)
    ]
  where
    err_not_ok : {m : Message} → ◌≢◌ {A = Result Text Message} (err m) (ok clean)
    err_not_ok k = cc
clean_components-eq-ok name buf (cur_dir ∷ rest) clean h e =
    let (inside, chars) = clean_components-eq-ok name buf rest clean h e in ((tt, inside), chars)
clean_components-eq-ok name buf (root_dir ∷ rest) clean h e = cc
clean_components-eq-ok name buf (parent_dir ∷ rest) clean h e = cc

-- A part between slashes: it has no slash. A normal component is also not empty.
abbrev NoSlash : Text → Type 0
NoSlash s = contains_char s b'/' ≡ false

abbrev IsPart : Component → Type 0
IsPart (normal part) = NoSlash part × (is_empty part ≡ false)
IsPart _ = Unit

NoSlash-push_front :
    (c : ℕ) (ss : List Text) → (c == b'/') ≡ false → All NoSlash ss → All NoSlash (push_front c ss)
unfolding contains_char
NoSlash-push_front c [] h _ = (ground arith, tt)
NoSlash-push_front c (x ∷ xs) h (p, ps) = (ground arith, ps)

NoSlash-split : (s : Text) → All NoSlash (split b'/' s)
unfolding split contains_char
NoSlash-split [] = (refl, tt)
NoSlash-split (c ∷ s) = elim (Bool-cases (c == b'/')) [
  | inl slash ↦ rw slash (refl, NoSlash-split s)
  | inr other ↦ rw other (NoSlash-push_front c (split b'/' s) other (NoSlash-split s))
]

IsPart-inner_components :
    (parts : List Text) → All NoSlash parts → All IsPart (inner_components parts)
unfolding inner_components
IsPart-inner_components [] h = tt
IsPart-inner_components (part ∷ parts) (p, ps) =
    elim (Bool-cases (is_empty part || text_eq part (text "."))) [
      | inl dropped ↦ rw dropped (IsPart-inner_components parts ps)
      | inr kept ↦ elim (Bool-cases (text_eq part (text ".."))) [
        | inl up ↦ rw (kept, up) (tt, IsPart-inner_components parts ps)
        | inr down ↦ rw (kept, down) ((p, ground arith), IsPart-inner_components parts ps)
      ]
    ]

IsPart-leading_components :
    (parts : List Text) → All NoSlash parts → All IsPart (leading_components parts)
unfolding leading_components
IsPart-leading_components [] h = tt
IsPart-leading_components (part ∷ parts) (p, ps) = elim (Bool-cases (text_eq part (text "."))) [
  | inl dot ↦ rw dot (tt, IsPart-inner_components parts ps)
  | inr other ↦ rw other (IsPart-inner_components (part ∷ parts) (p, ps))
]

IsPart-components : (path : Text) → All IsPart (components path)
unfolding components
IsPart-components path = elim (Bool-cases (is_absolute path)) [
  | inl root ↦ rw root (tt, IsPart-inner_components (split b'/' path) (NoSlash-split path))
  | inr rel ↦ rw rel (IsPart-leading_components (split b'/' path) (NoSlash-split path))
]

-- A part is not absolute, and a path that is not absolute stays so when a part is pushed on it.
is_absolute-part : (part : Text) → NoSlash part → is_absolute part ≡ false
unfolding contains_char starts_with
is_absolute-part [] h = refl
is_absolute-part (c ∷ s) h = ground arith

is_absolute-append :
    (buf rest : Text)
    → is_absolute buf ≡ false
    → is_empty buf ≡ false
    → is_absolute (buf ++ rest) ≡ false
unfolding starts_with
is_absolute-append [] rest h k = cc
is_absolute-append (c ∷ s) rest h k = h

is_absolute-push_path :
    (buf part : Text)
    → NoSlash part
    → is_absolute buf ≡ false
    → is_absolute (push_path buf part) ≡ false
unfolding push_path
is_absolute-push_path [] part h k = rw (is_absolute-part part h) (is_absolute-part part h)
is_absolute-push_path (c ∷ s) part h k =
    rw (is_absolute-part part h) (elim (Bool-cases (ends_with_slash (c ∷ s))) [
      | inl ends ↦ rw ends (is_absolute-append (c ∷ s) part k refl)
      | inr not_ends ↦ rw not_ends (is_absolute-append (c ∷ s) (b'/' ∷ part) k refl)
    ])

is_absolute-clean_components :
    (name buf : Text) (parts : List Component) (clean : Text)
    → All IsPart parts
    → is_absolute buf ≡ false
    → clean_components name buf parts ≡ ok clean
    → is_absolute clean ≡ false
unfolding clean_components
is_absolute-clean_components name buf [] clean ps h e = rw (← ok-injective e) h
is_absolute-clean_components name buf (normal part ∷ rest) clean ((p, _), ps) h e =
    elim (Bool-cases (any is_unsupported part)) [
      | inl bad ↦ absurd (err_not_ok (rw bad at e))
      | inr good ↦
          is_absolute-clean_components name (push_path buf part) rest clean ps
            (is_absolute-push_path buf part p h) (rw good at e)
    ]
  where
    err_not_ok : {m : Message} → ◌≢◌ {A = Result Text Message} (err m) (ok clean)
    err_not_ok k = cc
is_absolute-clean_components name buf (cur_dir ∷ rest) clean (_, ps) h e =
    is_absolute-clean_components name buf rest clean ps h e
is_absolute-clean_components name buf (root_dir ∷ rest) clean ps h e = cc
is_absolute-clean_components name buf (parent_dir ∷ rest) clean ps h e = cc

is_absolute-or_dot : (clean : Text) → is_absolute clean ≡ false → is_absolute (or_dot clean) ≡ false
unfolding starts_with
is_absolute-or_dot [] h = refl
is_absolute-or_dot (c ∷ s) h = h

any-or_dot :
    (clean : Text) → any is_unsupported clean ≡ false → any is_unsupported (or_dot clean) ≡ false
unfolding is_unsupported is_control
any-or_dot [] h = refl
any-or_dot (c ∷ s) h = h

is_absolute-empty : is_absolute [] ≡ false
unfolding starts_with
is_absolute-empty = refl

-- An accepted path has at most 240 bytes and no component that leads out of its directory. The path
-- that is returned is not absolute and has no comma, equals sign, colon or control character.
pub validate_relative_path-IsInside :
    (name value path : Text)
    → validate_relative_path name value ≡ ok path
    → (len (trim value) ≤ 240)
      × All IsInside (components (trim value))
      × (is_absolute path ≡ false)
      × (any is_unsupported path ≡ false)
unfolding validate_relative_path
validate_relative_path-IsInside name value path h = elim (Bool-cases (is_empty (trim value))) [
  | inl e ↦ absurd (err_not_ok (rw e at h))
  | inr filled ↦ elim (Bool-cases (ltb 240 (len (trim value)))) [
    | inl e ↦ absurd (err_not_ok (rw (filled, e) at h))
    | inr short ↦ elim (Bool-cases (is_absolute (trim value))) [
      | inl e ↦ absurd (err_not_ok (rw (filled, short, e) at h))
      | inr rel ↦
          let (clean, made, same) = >>=-eq-ok _ _ (rw (filled, short, rel) at h) in
          let (inside, chars) =
            clean_components-eq-ok name [] (components (trim value)) clean refl made in
          let relative =
            is_absolute-clean_components name [] (components (trim value)) clean
              (IsPart-components (trim value)) is_absolute-empty made in
          (
            ground arith,
            inside,
            rw (← ok-injective same) (is_absolute-or_dot clean relative),
            rw (← ok-injective same) (any-or_dot clean chars),
          )
    ]
  ]
]
  where
    err_not_ok : {m : Message} → ◌≢◌ {A = Result Text Message} (err m) (ok path)
    err_not_ok k = cc
