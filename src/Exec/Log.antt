-- ===== src/Exec/Log.antt =====
-- src/exec.rs: `append_log`, on the bytes of the log file. The bytes of a text are an argument.
use gha_indie_worker_rs.Prelude.{
  ℕ, zero, suc, ◌-◌, ◌≤◌, ◌≡◌, refl, sym, ap, ◌∙◌, Bool, true, Option, none, some, List, [], ◌∷◌,
  ◌++◌, min, leb, ◌==◌, length, take, arith, Bool-cases, inl, inr, ==_iff, if◌then◌else◌,
}
use mathlib.Core.List.{append-nil, append_assoc}

abbrev pub Bytes : Type 0
Bytes = List ℕ

-- The log file, where it is there.
abbrev pub File : Type 0
File = Option Bytes

abbrev pub contents : File → Bytes
contents none = []
contents (some bytes) = bytes

-- `open` says whether the file can be opened, and made where it is not there.
unfoldable pub append_log : File → Bytes → (max_bytes : ℕ) → (opens : Bool) → File
append_log file message max_bytes opens =
    if leb max_bytes (length (contents file))
    then file
    else (let limit = min (max_bytes - length (contents file)) (length message) in
        if limit == 0
        then file
        else if opens
        then some (contents file ++ take limit message)
        else file)

-- The log after a list of messages, where the file opens each time.
unfoldable pub append_all : File → List Bytes → ℕ → File
append_all file [] max_bytes = file
append_all file (message ∷ messages) max_bytes =
    append_all (append_log file message max_bytes true) messages max_bytes

abbrev pub concat_bytes : List Bytes → Bytes
concat_bytes [] = []
concat_bytes (m ∷ ms) = m ++ concat_bytes ms

take-nil : (n : ℕ) → take {A = ℕ} n [] ≡ []
take-nil zero = refl
take-nil (suc n) = refl

take-min : (n : ℕ) (xs : Bytes) → take (min n (length xs)) xs ≡ take n xs
take-min zero xs = let e : min zero (length xs) ≡ zero = omega arith in ap (λ k. take k xs) e
take-min (suc n) [] = take-nil (min (suc n) (length {A = ℕ} []))
take-min (suc n) (x ∷ xs) =
    let e : min (suc n) (suc (length xs)) ≡ suc (min n (length xs)) = omega arith in
    ap (λ k. take k (x ∷ xs)) e ∙ ap (λ (t : Bytes). x ∷ t) (take-min n xs)

take-past :
    (n : ℕ) (xs ys : Bytes) → length xs ≤ n → take n (xs ++ ys) ≡ xs ++ take (n - length xs) ys
take-past n [] ys h = let e : n ≡ n - 0 = omega arith in ap (λ k. take k ys) e
take-past zero (x ∷ xs) ys h = absurd (omega arith)
take-past (suc n) (x ∷ xs) ys h =
    let e : n - length xs ≡ suc n - suc (length xs) = omega arith in
    ap (λ (t : Bytes). x ∷ t) (take-past n xs ys (omega arith) ∙ ap (λ k. xs ++ take k ys) e)

take-take_append : (n : ℕ) (xs ys : Bytes) → take n (take n xs ++ ys) ≡ take n (xs ++ ys)
take-take_append zero xs ys = refl
take-take_append (suc n) [] ys = refl
take-take_append (suc n) (x ∷ xs) ys = ap (λ (t : Bytes). x ∷ t) (take-take_append n xs ys)

take-nothing : (k : ℕ) (xs ys : Bytes) → k ≡ 0 → xs ++ take k ys ≡ xs
take-nothing k xs ys e = rw (e, append-nil) refl

contents-append_log :
    (file : File) (message : Bytes) (max_bytes : ℕ)
    → length (contents file) ≤ max_bytes
    → contents (append_log file message max_bytes true) ≡ take max_bytes (contents file ++ message)
unfolding append_log
contents-append_log file message max_bytes h =
    let past = take-past max_bytes (contents file) message h in
    let room = max_bytes - length (contents file) in
    elim (Bool-cases (leb max_bytes (length (contents file)))) [
      | inl full ↦
          rw full (sym (past ∙ take-nothing _ (contents file) message (ground (arith, full))))
      | inr free ↦ elim (Bool-cases (min room (length message) == 0)) [
        | inl nothing ↦
            rw (free, nothing)
              (sym (
                past
                ∙ ap (λ (t : Bytes). contents file ++ t) (sym (take-min room message))
                ∙ take-nothing _ (contents file) message ((==_iff _ _).0 nothing)))
        | inr some_left ↦
            rw (free, some_left)
              (ap (λ (t : Bytes). contents file ++ t) (take-min room message) ∙ sym past)
      ]
    ]

length-take-le : (n : ℕ) (xs : Bytes) → length (take n xs) ≤ n
length-take-le zero xs = omega arith
length-take-le (suc n) [] = omega arith
length-take-le (suc n) (x ∷ xs) = omega (arith, length-take-le n xs)

-- A log that starts within its bound holds what was in it and the messages, cut off at the bound,
-- after any number of appends.
pub contents-append_all :
    (file : File) (messages : List Bytes) (max_bytes : ℕ)
    → length (contents file) ≤ max_bytes
    → contents (append_all file messages max_bytes)
      ≡ take max_bytes (contents file ++ concat_bytes messages)
unfolding append_all
contents-append_all file [] max_bytes h = sym (
    take-past max_bytes (contents file) [] h
    ∙ ap (λ (t : Bytes). contents file ++ t) (take-nil _)
    ∙ append-nil (contents file))
contents-append_all file (message ∷ messages) max_bytes h =
    let step = contents-append_log file message max_bytes h in
    contents-append_all (append_log file message max_bytes true) messages max_bytes
      (rw step (length-take-le max_bytes (contents file ++ message)))
    ∙ ap (λ (t : Bytes). take max_bytes (t ++ concat_bytes messages)) step
    ∙ take-take_append max_bytes (contents file ++ message) (concat_bytes messages)
    ∙ ap (take max_bytes) (append_assoc (contents file) message (concat_bytes messages))
