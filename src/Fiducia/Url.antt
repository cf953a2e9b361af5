-- ===== src/Fiducia/Url.antt =====
-- src/fiducia.rs: `validate_lock_url`.
use gha_indie_worker_rs.Prelude.{
  ℕ, zero, suc, ◌-◌, ◌≡◌, ◌⊎◌, inl, inr, Bool, true, false, ◌||◌, none, some, [], ◌∷◌, length, drop,
  ◌==◌, Bool-cases, Result, ok, err, ltb, if◌then◌else◌,
}
use gha_indie_worker_rs.Text.{Text, text, text_eq, starts_with, contains_char, strip_prefix}
use gha_indie_worker_rs.Message.{Message, message}

-- `trim_start_matches(p)`: as often as it is there. The fuel is the length of the text.
unfoldable pub strip_all : (fuel : ℕ) → Text → Text → Text
strip_all zero s p = s
strip_all (suc fuel) s p = elim (strip_prefix s p) [ some rest ↦ strip_all fuel rest p | none ↦ s ]

-- `split(['/', ':']).next()`
unfoldable pub host_part : Text → Text
host_part [] = []
host_part (c ∷ s) = let rest = host_part s in if c == b'/' || c == b':' then [] else c ∷ rest

abbrev pub ends_with : Text → Text → Bool
ends_with s p =
    if ltb (length s) (length p) then false else text_eq (drop (length s - length p) s) p

unfoldable pub is_local_host : Text → Bool
is_local_host host =
    ends_with host (text ".svc.cluster.local")
    || text_eq host (text "localhost")
    || text_eq host (text "127.0.0.1")

unfoldable pub validate_lock_url : Text → Result (Unit {0}) Message
validate_lock_url url =
    if contains_char url b'@'
    then err (message "fiducia URL must not embed credentials")
    else if starts_with url (text "https://")
    then ok tt
    else if starts_with url (text "http://")
    then (if is_local_host (host_part (strip_all (length url) url (text "http://")))
        then ok tt
        else err (
            message
              "plain-http fiducia URL is only allowed for in-cluster .svc.cluster.local hosts"))
    else err (message "fiducia URL must be http(s)")

-- A lock service's URL that is accepted.
pub record IsLockUrl (url : Text) : Type 0 where
  pub no_credentials : contains_char url b'@' ≡ false
  pub scheme :
      (starts_with url (text "https://") ≡ true)
      ⊎ ((starts_with url (text "http://") ≡ true)
          × (is_local_host (host_part (strip_all (length url) url (text "http://"))) ≡ true))

err_not_ok : {e : Message} → ◌≡◌ {A = Result (Unit {0}) Message} (err e) (ok tt) → ⊥
err_not_ok h = cc

-- A URL of the lock service that is accepted embeds no credentials, and is https, or http to a host
-- inside the cluster or to this one.
pub validate_lock_url-IsLockUrl : (url : Text) → validate_lock_url url ≡ ok tt → IsLockUrl url
unfolding validate_lock_url
validate_lock_url-IsLockUrl url h = elim (Bool-cases (contains_char url b'@')) [
  | inl at_sign ↦ absurd (err_not_ok (rw at_sign at h))
  | inr plain ↦ record {
    no_credentials = plain;
    scheme = elim (Bool-cases (starts_with url (text "https://"))) [
      | inl secure ↦ inl secure
      | inr open_text ↦ elim (Bool-cases (starts_with url (text "http://"))) [
        | inr other ↦ absurd (err_not_ok (rw (plain, open_text, other) at h))
        | inl http ↦
            elim (Bool-cases
              (is_local_host (host_part (strip_all (length url) url (text "http://"))))) [
                | inl near ↦ inr (http, near)
                | inr far ↦ absurd (err_not_ok (rw (plain, open_text, http, far) at h))
              ]
      ]
    ];
  }
]
