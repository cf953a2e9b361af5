-- ===== src/Exec/Keeps.antt =====
-- src/exec.rs: what holds of every action of an execution, of the value that it returns, and that it
-- does not panic.
use gha_indie_worker_rs.Prelude.{
  ◌≡◌, refl, Bool, true, false, Option, none, some, List, [], ◌∷◌, ◌++◌, All, All-append, Result,
  ok, err, if◌then◌else◌,
}
use gha_indie_worker_rs.Text.{Text}
use gha_indie_worker_rs.Message.{Message}
use gha_indie_worker_rs.Config.{Config}
use gha_indie_worker_rs.Exec.Host.{
  Command, Action, logged, ran, Host, Halt, failure, panicked, World, Exec, continue, ◌>>=◌, ◌>>◌,
  pure, lift, act, ask, map_err,
}
use gha_indie_worker_rs.Exec.Run.{
  log_lines, feed, await_child, end_of, command_of, run_logged_command_inner, output_of,
  status_of_wait,
}

abbrev pub IsOutcome :
    {A : Type 0} → (Action → Type 0) → (A → Type 0) → World × Result A Halt → Type 0
IsOutcome P Q (w, ok a) = All P w.actions × Q a
IsOutcome P Q (w, err (failure e)) = All P w.actions
IsOutcome P Q (w, err panicked) = ⊥

-- From actions of `P`, `m` makes actions of `P`, returns a value of `Q` or an error, and does not
-- panic.
pub record Keeps {A : Type 0} (P : Action → Type 0) (Q : A → Type 0) (m : Exec A) : Type 0 where
  pub outcome : (w : World) → All P w.actions → IsOutcome P Q (m w)

module _ {A B : Type 0} (P : Action → Type 0) (Q : A → Type 0) (R : B → Type 0) where
  IsOutcome-continue :
      (o : World × Result A Halt) (f : A → Exec B)
      → IsOutcome P Q o
      → ((a : A) → Q a → Keeps P R (f a))
      → IsOutcome P R (continue o.0 o.1 f)
  IsOutcome-continue (w, ok a) f (h, q) k = (k a q).outcome w h
  IsOutcome-continue (w, err (failure e)) f h k = h
  IsOutcome-continue (w, err panicked) f h k = absurd h

  pub Keeps->>= :
      (m : Exec A) (f : A → Exec B)
      → Keeps P Q m
      → ((a : A) → Q a → Keeps P R (f a))
      → Keeps P R (m >>= f)
  unfolding ◌>>=◌
  Keeps->>= m f h k = record { outcome = λ w here. IsOutcome-continue (m w) f (h.outcome w here) k }

pub map_err-eq-ok :
    {A : Type 0} (f : Message → Message) (r : Result A Message) {a : A}
    → map_err f r ≡ ok a
    → r ≡ ok a
map_err-eq-ok f (ok a) h = h
map_err-eq-ok f (err e) h = cc

abbrev pub Any : {A : Type 0} → A → Type 0
Any a = Unit

module _ (P : Action → Type 0) where
  pub Keeps->> :
      {A B : Type 0} (R : B → Type 0) (m : Exec A) (n : Exec B)
      → Keeps P Any m
      → Keeps P R n
      → Keeps P R (m >> n)
  Keeps->> R m n h k = Keeps->>= P Any R m (λ _. n) h (λ _ _. k)

  pub Keeps-act : (a : Action) → P a → Keeps P Any (act a)
  Keeps-act a p = record { outcome = λ w h. (All-append P w.actions (a ∷ []) h (p, tt), tt) }

  IsOutcome-lift :
      {A : Type 0} (Q : A → Type 0) (r : Result A Message) (w : World)
      → ((a : A) → r ≡ ok a → Q a)
      → All P w.actions
      → IsOutcome P Q (lift r w)
  IsOutcome-lift Q (ok a) w q h = (h, q a refl)
  IsOutcome-lift Q (err e) w q h = h

  pub Keeps-lift :
      {A : Type 0} (Q : A → Type 0) (r : Result A Message)
      → ((a : A) → r ≡ ok a → Q a)
      → Keeps P Q (lift r)
  Keeps-lift Q r q = record { outcome = λ w h. IsOutcome-lift Q r w q h }

  pub Keeps-pure : {A : Type 0} (Q : A → Type 0) (a : A) → Q a → Keeps P Q (pure a)
  Keeps-pure Q a q = record { outcome = λ w h. (h, q) }

  pub Keeps-ask :
      {A : Type 0} (Q : A → Type 0) (a : Action) (answer : List Action → Result A Message)
      → P a
      → ((before : List Action) (b : A) → answer before ≡ ok b → Q b)
      → Keeps P Q (ask a answer)
  Keeps-ask Q a answer p q = record {
    outcome = λ w h.
        IsOutcome-lift Q (answer w.actions) (record w { actions = w.actions ++ a ∷ [] })
          (q w.actions) (All-append P w.actions (a ∷ []) h (p, tt));
  }

  pub Keeps-if :
      {A : Type 0} (Q : A → Type 0) (b : Bool) (m n : Exec A)
      → (b ≡ true → Keeps P Q m)
      → (b ≡ false → Keeps P Q n)
      → Keeps P Q (if b then m else n)
  Keeps-if Q true m n h k = h refl
  Keeps-if Q false m n h k = k refl

  -- A command that `P` allows, where `P` allows every line of the log.
  module _ (host : Host) (logs : (t : Text) → P (logged t)) where
    Keeps-log_lines : (lines : List Text) → Keeps P Any (log_lines lines)
    unfolding log_lines
    Keeps-log_lines [] = record { outcome = λ w h. (h, tt) }
    Keeps-log_lines (l ∷ lines) =
        Keeps->> Any (act (logged l)) (log_lines lines) (Keeps-act (logged l) (logs l))
          (Keeps-log_lines lines)

    Keeps-feed : (command : Command) (stdin : Option Text) → Keeps P Any (feed host command stdin)
    Keeps-feed command none = record { outcome = λ w h. (h, tt) }
    Keeps-feed command (some input) = record {
      outcome = λ w h. IsOutcome-lift Any _ w (λ a e. tt) h;
    }

    Keeps-await_child :
        (config : Config) (command : Command) → Keeps P Any (await_child host config command)
    Keeps-await_child config command = record {
      outcome = λ w h.
          (Keeps->> Any (log_lines (output_of host w.actions command))
              (lift (
                status_of_wait host command.program config.job_timeout
                  (host.wait w.actions command)))
              (Keeps-log_lines (output_of host w.actions command))
              (Keeps-lift Any
                (status_of_wait host command.program config.job_timeout
                  (host.wait w.actions command))
                (λ a e. tt))).outcome
            w h;
    }

    Keeps-end_of :
        (program : Text) (status : Text × Bool) → Keeps P Any (end_of host program status)
    Keeps-end_of program (status, true) = record { outcome = λ w h. (h, tt) }
    Keeps-end_of program (status, false) = record { outcome = λ w h. h }

    pub Keeps-command :
        (config : Config) (cwd program : Text) (args display_args : List Text) (stdin : Option Text)
        → P (ran (command_of host config cwd program args stdin))
        → Keeps P Any (run_logged_command_inner host config cwd program args display_args stdin)
    unfolding run_logged_command_inner
    Keeps-command config cwd program args display_args stdin p =
        let command = command_of host config cwd program args stdin in
        Keeps->> Any _ _ (Keeps-act _ (logs _)) (
          Keeps->> Any _ _ (Keeps-ask Any _ _ p (λ before b e. tt)) (
            Keeps->> Any _ _ (Keeps-feed command stdin) (
              Keeps->>= P Any Any _ _ (Keeps-await_child config command)
                λ status _. Keeps->> Any _ _ (Keeps-act _ (logs _)) (Keeps-end_of program status))))
