-- ===== src/Exec/Host.antt =====
-- src/exec.rs and the calls that the executors make: what they do, in order, with the answers of the
-- host as an argument.
use gha_indie_worker_rs.Prelude.{Bool, Option, List, [], ◌∷◌, ◌++◌, Result, ok, err}
use gha_indie_worker_rs.Text.{Text}
use gha_indie_worker_rs.Message.{Message}
use gha_indie_worker_rs.State.{Counters}

pub record Command : Type 0 where
  pub program : Text
  pub args : List Text
  pub cwd : Text
  pub env : List (Text × Text)
  pub stdin : Option Text

-- `ran` is a command that was spawned or tried to; `logged` is a call of `append_log` on the log.
pub data Action : Type 0 where
  made_dir : Text → Action
  logged : Text → Action
  resolved : Text → Action
  ran : Command → Action
  requested_token : (registry : Text) → Action

-- How `child.wait()` ends under its timeout.
pub data Waited : Type 0 where
  exited : (status : Text) → (success : Bool) → Waited
  wait_failed : Message → Waited
  timed_out : Waited

-- What one read of a line from a pipe gives: a line, the end, or an error.
pub data Read : Type 0 where
  line : Text → Read
  end_of_file : Read
  failed_read : Text → Read

-- The answers of the host, given the actions before. `merge` says from which pipe the next line of
-- the log comes: the two readers append in any order.
pub record Host : Type 0 where
  pub create_dir_all : List Action → Text → Result (Unit {0}) Message
  pub canonicalize : List Action → Text → Result Text Message
  pub var : Text → Option Text
  pub spawn : List Action → Command → Result (Unit {0}) Message
  pub write_stdin : List Action → Command → Result (Unit {0}) Message
  pub stdout : List Action → Command → List Read
  pub stderr : List Action → Command → List Read
  pub merge : List Action → Command → List Bool
  pub wait : List Action → Command → Waited
  pub ecr_password : List Action → Text → Result Text Message

-- An error that is returned, or a panic of `unreachable!`.
pub data Halt : Type 0 where
  failure : Message → Halt
  panicked : Halt

pub record World : Type 0 where
  pub actions : List Action
  pub counters : Counters

abbrev pub Exec : Type 0 → Type 0
Exec A = World → World × Result A Halt

abbrev pub continue : {A B : Type 0} → World → Result A Halt → (A → Exec B) → World × Result B Halt
continue w (ok a) f = f a w
continue w (err halt) f = (w, err halt)

infixl 5 ◌>>=◌
unfoldable pub ◌>>=◌ : {A B : Type 0} → Exec A → (A → Exec B) → Exec B
◌>>=◌ m f w = continue (m w).0 (m w).1 f

infixl 5 ◌>>◌
abbrev pub ◌>>◌ : {A B : Type 0} → Exec A → Exec B → Exec B
◌>>◌ m n = m >>= λ _. n

abbrev pub pure : {A : Type 0} → A → Exec A
pure a w = (w, ok a)

abbrev pub map_err : {A : Type 0} → (Message → Message) → Result A Message → Result A Message
map_err f (ok a) = ok a
map_err f (err e) = err (f e)

-- A result of a function that may fail, with `?`.
abbrev pub lift : {A : Type 0} → Result A Message → Exec A
lift (ok a) w = (w, ok a)
lift (err e) w = (w, err (failure e))

abbrev pub panic : {A : Type 0} → Exec A
panic w = (w, err panicked)

abbrev pub act : Action → Exec (Unit {0})
act a w = (record w { actions = w.actions ++ a ∷ [] }, ok tt)

-- An answer of the host, to an action that is recorded.
abbrev pub ask : {A : Type 0} → Action → (List Action → Result A Message) → Exec A
ask a answer w = lift (answer w.actions) (record w { actions = w.actions ++ a ∷ [] })
