-- ===== src/Config/Env/Laws.antt =====
-- src/config.rs: numbers and lists are read as they are written.
use gha_indie_worker_rs.Prelude.{
  ℕ, ◌+◌, ◌-◌, ◌*◌, ◌^◌, ◌<◌, ◌≡◌, refl, all, ap, ◌∙◌, inl, inr, true, false, not, Option, none,
  some, List, [], ◌∷◌, ◌++◌, map, keep, is_empty, All, Bool-cases, ltb, if◌then◌else◌, ◌==◌, ==_iff,
  unwrap_or, arith,
}
use gha_indie_worker_rs.Text.{
  Text, trim, trim_start, trim_end, is_ascii_digit, contains_char, contains, text_eq,
}
use gha_indie_worker_rs.Text.Decimal.{
  decimal, value_from, all_digits-decimal, filled-decimal, value_from-decimal,
}
use gha_indie_worker_rs.Text.Split.{split}
use gha_indie_worker_rs.Config.Env.{
  Vars, filled, first_env, env_u64, env_usize, parse_digits, below, parse_u64, positive, parsed,
  join_commas, parse_csv,
}

parse_digits-value :
    (acc : ℕ) (s : Text)
    → all is_ascii_digit s ≡ true
    → parse_digits acc s ≡ some (value_from acc s)
unfolding parse_digits value_from
parse_digits-value acc [] h = refl
parse_digits-value acc (c ∷ s) h = ground (arith, parse_digits-value (acc * 10 + (c - b'0')) s)

not_digit : (c : ℕ) → (c == b'+') ≡ true → is_ascii_digit c ≡ true → ⊥
unfolding is_ascii_digit
not_digit c plus digit = ground arith

below-some : (n bound : ℕ) → n < bound → below bound (some n) ≡ some n
below-some n bound h = ground arith

parse_u64-digits :
    (s : Text)
    → all is_ascii_digit s ≡ true
    → is_empty s ≡ false
    → parse_u64 s ≡ below (2 ^ 64) (parse_digits 0 s)
unfolding parse_u64
parse_u64-digits [] h filled = cc
parse_u64-digits (c ∷ []) h filled = refl
parse_u64-digits (c ∷ d ∷ s) h filled = elim (Bool-cases (c == b'+')) [
  | inl plus ↦ absurd (not_digit c plus (first_digit c (d ∷ s) h))
  | inr other ↦ rw other refl
]
  where
    first_digit : (c : ℕ) (s : Text) → all is_ascii_digit (c ∷ s) ≡ true → is_ascii_digit c ≡ true
    first_digit c s h = ground arith

parse_u64-decimal : (n : ℕ) → n < 2 ^ 64 → parse_u64 (decimal n) ≡ some n
parse_u64-decimal n small =
    parse_u64-digits (decimal n) (all_digits-decimal n) (filled-decimal n)
    ∙ ap (below (2 ^ 64)) (
        parse_digits-value 0 (decimal n) (all_digits-decimal n)
        ∙ ap (λ (k : ℕ). some k) (value_from-decimal n))
    ∙ below-some n (2 ^ 64) small

-- A variable that holds the decimal form of a number below 2^64, with white space around it or not,
-- is read as that number where it is positive, and as the fallback where it is 0.
pub env_u64-decimal :
    (var : Vars) (key raw : Text) (fallback n : ℕ)
    → var key ≡ some raw
    → trim raw ≡ decimal n
    → n < 2 ^ 64
    → env_u64 var key fallback ≡ (if ltb 0 n then n else fallback)
unfolding env_u64 first_env
env_u64-decimal var key raw fallback n e trimmed small =
    rw (e, trimmed, filled-decimal n, parse_u64-decimal n small) (or_fallback n fallback)
  where
    or_fallback :
        (n fallback : ℕ)
        → unwrap_or (if ltb 0 n then some n else none) fallback ≡ (if ltb 0 n then n else fallback)
    or_fallback n fallback = elim (Bool-cases (ltb 0 n)) [
      | inl some_n ↦ rw some_n refl
      | inr nothing ↦ rw nothing refl
    ]

split-one : (sep : ℕ) (s : Text) → contains_char s sep ≡ false → split sep s ≡ s ∷ []
unfolding split contains_char
split-one sep [] h = refl
split-one sep (c ∷ s) h = elim (Bool-cases (c == sep)) [
  | inl hit ↦ absurd (ground (arith, rw hit at h))
  | inr miss ↦ rw (miss, split-one sep s (rw miss at h)) refl
]

split-append :
    (sep : ℕ) (s t : Text)
    → contains_char s sep ≡ false
    → split sep (s ++ sep ∷ t) ≡ s ∷ split sep t
unfolding split contains_char
split-append sep [] t h = rw self refl
  where
    self : (sep == sep) ≡ true
    self = (==_iff sep sep).1 refl
split-append sep (c ∷ s) t h = elim (Bool-cases (c == sep)) [
  | inl hit ↦ absurd (ground (arith, rw hit at h))
  | inr miss ↦ rw (miss, split-append sep s t (rw miss at h)) refl
]

-- An item of a list: trimmed, not empty, and with no comma.
abbrev pub IsItem : Text → Type 0
IsItem item = (trim item ≡ item) × (is_empty item ≡ false) × (contains_char item b',' ≡ false)

split-join_commas :
    (item : Text) (items : List Text)
    → All IsItem (item ∷ items)
    → split b',' (join_commas (item ∷ items)) ≡ item ∷ items
unfolding join_commas
split-join_commas item [] ((_, _, plain), _) = split-one b',' item plain
split-join_commas item (next ∷ items) ((_, _, plain), h) =
    split-append b',' item (join_commas (next ∷ items)) plain
    ∙ ap (λ (t : List Text). item ∷ t) (split-join_commas next items h)

kept :
    (items : List Text) → All IsItem items → keep (λ i. not (is_empty i)) (map trim items) ≡ items
kept [] h = refl
kept (item ∷ items) ((trimmed, filled, _), h) =
    rw (trimmed, filled) (ap (λ (t : List Text). item ∷ t) (kept items h))

-- Items that are trimmed, not empty and without a comma, joined by commas, are read back as they were.
pub parse_csv-join_commas :
    (items : List Text) → All IsItem items → parse_csv (join_commas items) ≡ items
unfolding parse_csv join_commas split trim trim_start trim_end
parse_csv-join_commas [] h = refl
parse_csv-join_commas (item ∷ items) h =
    ap (λ (t : List Text). keep (λ i. not (is_empty i)) (map trim t))
      (split-join_commas item items h)
    ∙ kept (item ∷ items) h

positive_or :
    (found : Option ℕ) (fallback : ℕ) → 0 < fallback → 0 < unwrap_or (positive found) fallback
positive_or none fallback h = h
positive_or (some n) fallback h = ground arith

-- A number that is read from the environment is positive, whatever stands there, if its default is.
pub env_u64-lt :
    (var : Vars) (key : Text) (fallback : ℕ) → 0 < fallback → 0 < env_u64 var key fallback
unfolding env_u64
env_u64-lt var key fallback h = positive_or (parsed (first_env var (key ∷ []))) fallback h

pub env_usize-lt :
    (var : Vars) (key : Text) (fallback : ℕ) → 0 < fallback → 0 < env_usize var key fallback
unfolding env_usize
env_usize-lt var key fallback h = positive_or (parsed (first_env var (key ∷ []))) fallback h

no_empty-keep : (items : List Text) → contains (keep (λ i. not (is_empty i)) items) [] ≡ false
unfolding contains text_eq
no_empty-keep [] = refl
no_empty-keep ([] ∷ items) = no_empty-keep items
no_empty-keep ((c ∷ s) ∷ items) = no_empty-keep items

-- No item of a list that is read is empty.
pub parse_csv-filled : (value : Text) → contains (parse_csv value) [] ≡ false
unfolding parse_csv
parse_csv-filled value = no_empty-keep (map trim (split b',' value))
