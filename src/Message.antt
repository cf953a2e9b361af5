-- ===== src/Message.antt =====
-- The messages that `format!` builds, as their pieces: a literal, a value shown by `{}`, a value
-- shown by `{:?}`, a number, a duration in milliseconds shown by `{:?}`, the first characters of a
-- JSON value's text. The text that Rust renders from the pieces is not modelled.
use Prim.Native.String.{String}
use gha_indie_worker_rs.Prelude.{ℕ, List, [], ◌∷◌}
use gha_indie_worker_rs.Text.{Text}
use gha_indie_worker_rs.Json.{Value}

pub data Piece : Type 0 where
  lit : String → Piece
  shown debug : Text → Piece
  number : ℕ → Piece
  duration : ℕ → Piece
  json_prefix : ℕ → Value → Piece

abbrev pub Message : Type 0
Message = List Piece

abbrev pub message : String → Message
message s = lit s ∷ []
