-- ===== src/Ecr.antt =====
-- src/ecr.rs: the registry of an image reference, and whether it is an Amazon ECR registry. The
-- request of an authorization token and the login itself are not modelled.
use gha_indie_worker_rs.Prelude.{◌&&◌, ◌||◌, Option, none, some, List, [], ◌∷◌, if◌then◌else◌}
use gha_indie_worker_rs.Text.{Text, text, text_eq, contains_char}
use gha_indie_worker_rs.Text.Split.{split}

pub record EcrImage : Type 0 where
  pub registry : Text
  pub region : Text

-- `next().unwrap_or_default()`
abbrev pub first_piece : List Text → Text
first_piece [] = []
first_piece (s ∷ ss) = s

unfoldable pub image_registry : Text → Option Text
image_registry image =
    let first = first_piece (split b'/' image) in
    if contains_char first b'.' || contains_char first b':' || text_eq first (text "localhost")
    then some first
    else none

-- The tests on `parts` with `parts.len() >= 6`: `parts[0]` is not read.
abbrev pub ecr_parts : Text → List Text → Option EcrImage
ecr_parts registry (_ ∷ dkr ∷ ecr ∷ region ∷ amazonaws ∷ tld ∷ _) =
    if text_eq dkr (text "dkr")
      && text_eq ecr (text "ecr")
      && text_eq amazonaws (text "amazonaws")
      && (text_eq tld (text "com") || text_eq tld (text "com.cn"))
    then some (record { registry = registry; region = region })
    else none
ecr_parts registry _ = none

abbrev pub ecr_of_registry : Option Text → Option EcrImage
ecr_of_registry none = none
ecr_of_registry (some registry) = ecr_parts registry (split b'.' registry)

unfoldable pub ecr_image : Text → Option EcrImage
ecr_image image = ecr_of_registry (image_registry image)
