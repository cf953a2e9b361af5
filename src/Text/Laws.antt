-- ===== src/Text/Laws.antt =====
-- Facts about whole texts: equality, prefixes, lengths.
use gha_indie_worker_rs.Prelude.{
  ℕ, ◌≡◌, refl, ◌↔◌, Bool, true, false, some, [], ◌∷◌, ◌++◌, arith, ◌==◌, ==_iff, Bool-cases, inl,
  inr, all,
}
use gha_indie_worker_rs.Text.{Text, text_eq, starts_with, strip_prefix, contains_char}

pub text_eq_sound : (s t : Text) → text_eq s t ≡ true → s ≡ t
unfolding text_eq
text_eq_sound [] [] h = refl
text_eq_sound [] (b ∷ t) h = cc
text_eq_sound (a ∷ s) [] h = cc
text_eq_sound (a ∷ s) (b ∷ t) h = ground (arith, text_eq_sound s t)

pub text_eq_refl : (s : Text) → text_eq s s ≡ true
unfolding text_eq
text_eq_refl [] = refl
text_eq_refl (a ∷ s) = ground (arith, text_eq_refl s)

pub text_eq_iff : (s t : Text) → (text_eq s t ≡ true) ↔ (s ≡ t)
text_eq_iff s t = (text_eq_sound s t, λ e. rw e (text_eq_refl t))

pub starts_with-append : (p s : Text) → starts_with (p ++ s) p ≡ true
unfolding starts_with
starts_with-append [] [] = refl
starts_with-append [] (c ∷ s) = refl
starts_with-append (c ∷ p) s = ground (arith, starts_with-append p s)

-- A prefix can be split off.
pub starts_with-split : (s p : Text) → starts_with s p ≡ true → (r : Text) × (s ≡ p ++ r)
unfolding starts_with
starts_with-split [] [] h = ([], refl)
starts_with-split (d ∷ s) [] h = (d ∷ s, refl)
starts_with-split [] (c ∷ p) h = cc
starts_with-split (d ∷ s) (c ∷ p) h =
    let (r, e) = starts_with-split s p (ground arith) in
    let same : d ≡ c = ground arith in (r, rw (same, e))

pub strip_prefix-eq-some : (s p r : Text) → strip_prefix s p ≡ some r → s ≡ p ++ r
unfolding strip_prefix
strip_prefix-eq-some [] [] r h = ground arith
strip_prefix-eq-some (d ∷ s) [] r h = ground arith
strip_prefix-eq-some [] (c ∷ p) r h = cc
strip_prefix-eq-some (d ∷ s) (c ∷ p) r h = ground (arith, strip_prefix-eq-some s p r)

pub contains_char-append :
    (s t : Text) (c : ℕ)
    → contains_char s c ≡ false
    → contains_char t c ≡ false
    → contains_char (s ++ t) c ≡ false
unfolding contains_char
contains_char-append [] t c h k = k
contains_char-append (d ∷ s) t c h k = ground (arith, contains_char-append s t c)

-- A text all of whose characters pass a test holds no character that fails it.
pub contains_char_of_all :
    (p : ℕ → Bool) (s : Text) (c : ℕ) → all p s ≡ true → p c ≡ false → contains_char s c ≡ false
unfolding contains_char
contains_char_of_all p [] c h k = refl
contains_char_of_all p (d ∷ s) c h k = elim (Bool-cases (d == c)) [
  | inl same ↦
      let e : d ≡ c = (==_iff d c).0 same in
      let pd : p d ≡ true = ground arith in absurd (false_ne_true (rw (← k, ← e) pd))
  | inr other ↦ ground (arith, contains_char_of_all p s c)
]
  where
    false_ne_true : false ≡ true → ⊥
    false_ne_true e = cc
