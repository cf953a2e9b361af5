-- ===== src/Text/Split.antt =====
-- `split`, `split_once` and the last piece of `rsplit`, at one character.
use gha_indie_worker_rs.Prelude.{
  ℕ, ◌≡◌, false, Option, none, some, List, [], ◌∷◌, ◌++◌, arith, ◌==◌, if◌then◌else◌,
}
use gha_indie_worker_rs.Text.{Text, contains_char}

-- Put a character before the first piece.
abbrev pub push_front : ℕ → List Text → List Text
push_front c [] = (c ∷ []) ∷ []
push_front c (s ∷ ss) = (c ∷ s) ∷ ss

-- `s.split(sep)`: always at least one piece.
unfoldable pub split : ℕ → Text → List Text
split sep [] = [] ∷ []
split sep (c ∷ s) = let rest = split sep s in if c == sep then [] ∷ rest else push_front c rest

abbrev in_front : ℕ → Option (Text × Text) → Option (Text × Text)
in_front c none = none
in_front c (some (a, b)) = some (c ∷ a, b)

-- `s.split_once(sep)`
unfoldable pub split_once : ℕ → Text → Option (Text × Text)
split_once sep [] = none
split_once sep (c ∷ s) =
    let rest = split_once sep s in if c == sep then some ([], s) else in_front c rest

-- `s.rsplit(sep).next()`: what follows the last separator, or the whole text.
unfoldable pub after_last : ℕ → Text → Text
unfolding contains_char
after_last sep [] = []
after_last sep (c ∷ s) =
    if contains_char (c ∷ s) sep
    then (if contains_char s sep then after_last sep s else s)
    else c ∷ s

-- What `split_once` returns puts the text together again, and its first part has no separator.
pub split_once-eq-some :
    (sep : ℕ) (s a b : Text)
    → split_once sep s ≡ some (a, b)
    → (s ≡ a ++ sep ∷ b) × (contains_char a sep ≡ false)
unfolding split_once contains_char
split_once-eq-some sep [] a b h = cc
split_once-eq-some sep (c ∷ s) [] b h = ground arith
split_once-eq-some sep (c ∷ s) (d ∷ a) b h = ground (arith, split_once-eq-some sep s a b)

-- A text with a separator splits.
pub split_once-append :
    (sep : ℕ) (a b : Text)
    → contains_char a sep ≡ false
    → split_once sep (a ++ sep ∷ b) ≡ some (a, b)
unfolding split_once contains_char
split_once-append sep [] b h = ground arith
split_once-append sep (c ∷ a) b h = ground (arith, split_once-append sep a b)
