-- ===== src/Text/Decimal.antt =====
-- Unsigned numbers in decimal.

use gha_indie_worker_rs.Prelude.{
  ℕ, zero, suc, ◌+◌, ◌-◌, ◌*◌, ◌/◌, ◌%◌, ◌<◌, ◌≡◌, refl, sym, ◌∙◌, ap, true, all, is_empty, false,
  [], ◌∷◌, arith, ltb, Bool-cases, inl, inr, if◌then◌else◌,
}
use gha_indie_worker_rs.Text.{Text, contains_char, is_ascii_digit}

-- The digits of `n` before those of `rest`.
digits_before : ℕ → ℕ → Text → Text
digits_before zero n rest = rest
digits_before (suc fuel) n rest =
    let more = digits_before fuel (n / 10) ((b'0' + n % 10) ∷ rest) in
    if ltb n 10 then (b'0' + n) ∷ rest else more

unfoldable pub decimal : ℕ → Text
unfolding digits_before
decimal n = digits_before (suc n) n []

decimal_test :
    decimal 1732600000123
    ≡ b'1' ∷ b'7' ∷ b'3' ∷ b'2' ∷ b'6' ∷ b'0' ∷ b'0' ∷ b'0' ∷ b'0' ∷ b'0' ∷ b'1' ∷ b'2' ∷ b'3' ∷ []
unfolding decimal
decimal_test = refl

-- The number that a run of digits stands for, after the digits whose number is `acc`.
unfoldable pub value_from : ℕ → Text → ℕ
value_from acc [] = acc
value_from acc (c ∷ s) = value_from (acc * 10 + (c - b'0')) s

value_from-digits_before :
    (fuel n : ℕ) (rest : Text)
    → n < fuel
    → value_from 0 (digits_before fuel n rest) ≡ value_from n rest
unfolding digits_before value_from
value_from-digits_before zero n rest h = absurd (omega arith)
value_from-digits_before (suc fuel) n rest h = elim (Bool-cases (ltb n 10)) [
  | inl small ↦ rw small (ap (λ m. value_from m rest) (omega arith))
  | inr large ↦ rw large (
      value_from-digits_before fuel (n / 10) ((b'0' + n % 10) ∷ rest) (ground arith)
      ∙ ap (λ m. value_from m rest) (omega arith))
]

-- The decimal form of a number determines it.
pub decimal-injective : (m n : ℕ) → decimal m ≡ decimal n → m ≡ n
unfolding decimal value_from
decimal-injective m n h =
    sym (value_from-digits_before (suc m) m [] (omega arith))
    ∙ ap (value_from 0) h
    ∙ value_from-digits_before (suc n) n [] (omega arith)

no_dash-digits_before :
    (fuel n : ℕ) (rest : Text)
    → contains_char rest b'-' ≡ false
    → contains_char (digits_before fuel n rest) b'-' ≡ false
unfolding digits_before contains_char
no_dash-digits_before zero n rest h = h
no_dash-digits_before (suc fuel) n rest h =
    ground (arith, no_dash-digits_before fuel (n / 10) ((b'0' + n % 10) ∷ rest))

pub no_dash-decimal : (n : ℕ) → contains_char (decimal n) b'-' ≡ false
unfolding decimal contains_char
no_dash-decimal n = no_dash-digits_before (suc n) n [] refl

all_digits-digits_before :
    (fuel n : ℕ) (rest : Text)
    → all is_ascii_digit rest ≡ true
    → all is_ascii_digit (digits_before fuel n rest) ≡ true
unfolding digits_before is_ascii_digit
all_digits-digits_before zero n rest h = h
all_digits-digits_before (suc fuel) n rest h =
    ground (arith, all_digits-digits_before fuel (n / 10) ((b'0' + n % 10) ∷ rest))

pub all_digits-decimal : (n : ℕ) → all is_ascii_digit (decimal n) ≡ true
unfolding decimal
all_digits-decimal n = all_digits-digits_before (suc n) n [] refl

filled-digits_before :
    (fuel n c : ℕ) (rest : Text) → is_empty (digits_before fuel n (c ∷ rest)) ≡ false
unfolding digits_before
filled-digits_before zero n c rest = refl
filled-digits_before (suc fuel) n c rest =
    ground (arith, filled-digits_before fuel (n / 10) (b'0' + n % 10) (c ∷ rest))

pub filled-decimal : (n : ℕ) → is_empty (decimal n) ≡ false
unfolding decimal digits_before
filled-decimal n = ground (arith, filled-digits_before n (n / 10) (b'0' + n % 10) [])

pub value_from-decimal : (n : ℕ) → value_from 0 (decimal n) ≡ n
unfolding decimal value_from
value_from-decimal n = value_from-digits_before (suc n) n [] (omega arith)
