-- ===== src/Prelude/Results.antt =====
-- Rust's `Result`, with `?` as bind.
use mathlib.Core.Path.{◌≡◌, refl}
use mathlib.Core.Bool.{Bool, true, false}
use mathlib.Core.Option.{Option, none, some}

pub data Result {ℓ} (Value Failure : Type ℓ) : Type ℓ where
  err : Failure → Result Value Failure
  ok : Value → Result Value Failure

infixl 5 ◌>>=◌
abbrev pub ◌>>=◌ {ℓ} :
    {A B Failure : Type ℓ} → Result A Failure → (A → Result B Failure) → Result B Failure
err failure >>= next = err failure
ok value >>= next = next value

-- `if failed { return Err(e) }`
abbrev pub reject {ℓ} : {E : Type ℓ} → Bool → E → Result (Unit {ℓ}) E
reject true e = err e
reject false e = ok tt

-- `ok_or_else`
abbrev pub ok_or {ℓ} : {A E : Type ℓ} → Option A → E → Result A E
ok_or none e = err e
ok_or (some a) e = ok a

abbrev pub is_ok {ℓ} : {A E : Type ℓ} → Result A E → Bool
is_ok (ok a) = true
is_ok (err e) = false

-- One check after another, where the first has no value of use.
infixl 5 ◌>>◌
abbrev pub ◌>>◌ {ℓ} :
    {A B Failure : Type ℓ} → Result A Failure → Result B Failure → Result B Failure
first >> second = first >>= λ _. second

-- What `?` lets through has gone through both of its steps.
pub >>=-eq-ok {ℓ} :
    {A B Failure : Type ℓ} (first : Result A Failure) (next : A → Result B Failure) {result : B}
    → (first >>= next) ≡ ok result
    → (value : A) × (first ≡ ok value) × (next value ≡ ok result)
>>=-eq-ok (err failure) next passed = cc
>>=-eq-ok (ok value) next passed = (value, refl, passed)

-- A guard that lets through.
pub reject-eq-ok {ℓ} : {E : Type ℓ} (b : Bool) (e : E) → reject b e ≡ ok tt → b ≡ false
reject-eq-ok true e h = cc
reject-eq-ok false e h = refl

pub >>-eq-ok {ℓ} :
    {A B E : Type ℓ} (m : Result A E) (k : Result B E) {b : B}
    → (m >> k) ≡ ok b
    → (a : A) × (m ≡ ok a) × (k ≡ ok b)
>>-eq-ok (ok a) k h = (a, refl, h)
>>-eq-ok (err e) k h = cc

pub ok_or-eq-ok {ℓ} : {A E : Type ℓ} (m : Option A) (e : E) {a : A} → ok_or m e ≡ ok a → m ≡ some a
ok_or-eq-ok none e h = cc
ok_or-eq-ok (some a) e h = cc

pub ok-injective {ℓ} : {A E : Type ℓ} {a b : A} → ◌≡◌ {A = Result A E} (ok a) (ok b) → a ≡ b
ok-injective h = cc
