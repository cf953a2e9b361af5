-- ===== src/Profiles/Laws.antt =====
-- src/profiles.rs: a lookup finds the profile of the name, and every profile is fixed and bounded.
use gha_indie_worker_rs.Prelude.{
  ◌≡◌, refl, Bool, true, false, not, ◌&&◌, some, List, [], ◌∷◌, all, find, is_empty, arith,
  Bool-cases, inl, inr,
}
use gha_indie_worker_rs.Text.{
  Text, text, text_eq, trim, trim_start, trim_end, is_whitespace, contains_char,
}
use gha_indie_worker_rs.Text.Laws.{text_eq_sound}
use gha_indie_worker_rs.Text.Split.{after_last}
use gha_indie_worker_rs.Profiles.Steps.{
  ProfileStep, rust_verify_steps, node_verify_steps, python_verify_steps, flutter_verify_steps,
  flutter_android_steps, flutter_web_steps, flutter_linux_steps,
  flutter_linux_desktop_entrypoint_steps, flutter_web_e2e_steps, playwright_steps, puppeteer_steps,
  browser_e2e_steps,
}
use gha_indie_worker_rs.Profiles.{ProfileSpec, specs, find_profile}

-- A step has a name and a script, and its image is not the latest one.
unfoldable pub is_fixed_step : ProfileStep → Bool
is_fixed_step step =
    not (is_empty step.name)
    && not (text_eq (after_last b':' step.image) (text "latest"))
    && not (is_empty (trim step.script))

-- A profile runs on Linux and has steps, all of them fixed.
unfoldable pub is_fixed : ProfileSpec → Bool
is_fixed profile =
    text_eq profile.platform (text "linux")
    && not (is_empty profile.steps)
    && all is_fixed_step profile.steps

all-is_fixed : all is_fixed specs ≡ true
unfolding is_fixed is_fixed_step specs text_eq after_last contains_char trim trim_start trim_end
    is_whitespace rust_verify_steps node_verify_steps python_verify_steps flutter_verify_steps
    flutter_android_steps flutter_web_steps flutter_linux_steps
    flutter_linux_desktop_entrypoint_steps flutter_web_e2e_steps playwright_steps puppeteer_steps
    browser_e2e_steps
all-is_fixed = refl

found-all :
    (p q : ProfileSpec → Bool) (profiles : List ProfileSpec) (profile : ProfileSpec)
    → all q profiles ≡ true
    → find p profiles ≡ some profile
    → (p profile ≡ true) × (q profile ≡ true)
found-all p q [] profile h e = cc
found-all p q (first ∷ rest) profile h e = elim (Bool-cases (p first)) [
  | inl hit ↦
      let same : first ≡ profile = ground arith in
      rw (← same) (hit, and-left (q first) (all q rest) h)
  | inr miss ↦ found-all p q rest profile (and-right (q first) (all q rest) h) (rw miss at e)
]
  where
    and-left : (a b : Bool) → (a && b) ≡ true → a ≡ true
    and-left true b k = refl
    and-left false b k = k

    and-right : (a b : Bool) → (a && b) ≡ true → b ≡ true
    and-right true b k = k
    and-right false b k = cc

-- A profile that is found has the name that was asked for, runs on Linux, and has at least one step;
-- each step has a name, an image that is not the latest one, and a script.
pub find_profile-is_fixed :
    (name : Text) (profile : ProfileSpec)
    → find_profile name ≡ some profile
    → (profile.name ≡ name) × (is_fixed profile ≡ true)
unfolding find_profile
find_profile-is_fixed name profile h =
    let (same, fixed) =
      found-all (λ spec. text_eq spec.name name) is_fixed specs profile all-is_fixed h in
    (text_eq_sound profile.name name same, fixed)
