-- ===== src/Exec/Run.antt =====
-- src/exec.rs: a logged command, from its line in the log to its exit status.
use gha_indie_worker_rs.Prelude.{
  ℕ, Bool, true, false, Option, none, some, List, [], ◌∷◌, ◌++◌, Result, ok, err, if◌then◌else◌,
}
use gha_indie_worker_rs.Text.{Text, text, text_eq}
use gha_indie_worker_rs.Message.{Message, lit, shown, duration}
use gha_indie_worker_rs.Config.{Config}
use gha_indie_worker_rs.Exec.Display.{printable_command}
use gha_indie_worker_rs.Exec.Host.{
  Command, Action, logged, ran, Waited, exited, wait_failed, timed_out, Read, line, end_of_file,
  failed_read, Host, Exec, ◌>>=◌, ◌>>◌, pure, lift, act, ask, map_err,
}

-- The lines that one `pipe_reader` appends: up to the end or an error, which is logged too.
unfoldable pub pipe_reader : Text → List Read → List Text
pipe_reader prefix [] = []
pipe_reader prefix (line text ∷ reads) = (prefix ++ text) ∷ pipe_reader prefix reads
pipe_reader prefix (end_of_file ∷ reads) = []
pipe_reader prefix (failed_read error ∷ reads) =
    (prefix ++ (text "failed to read command output: " ++ (error ++ text "\n"))) ∷ []

-- Two lists of lines merged: the next one is of the first list at `true`, and what `order` leaves
-- comes after.
unfoldable pub merged : List Bool → List Text → List Text → List Text
merged [] xs ys = xs ++ ys
merged (true ∷ order) (x ∷ xs) ys = x ∷ merged order xs ys
merged (false ∷ order) xs (y ∷ ys) = y ∷ merged order xs ys
merged (_ ∷ order) xs ys = xs ++ ys

unfoldable pub log_lines : List Text → Exec (Unit {0})
log_lines [] = pure tt
log_lines (l ∷ lines) = act (logged l) >> log_lines lines

abbrev pub inherited : (Text → Option Text) → List Text → List (Text × Text)
inherited var [] = []
inherited var (key ∷ keys) = elim (var key) [
  | some value ↦ (key, value) ∷ inherited var keys
  | none ↦ inherited var keys
]

abbrev pub git_auth : Option Text → List (Text × Text)
git_auth none = []
git_auth (some auth_header) =
    (text "GIT_CONFIG_COUNT", text "1")
    ∷ (text "GIT_CONFIG_KEY_0", text "http.https://github.com/.extraheader")
    ∷ (text "GIT_CONFIG_VALUE_0", auth_header)
    ∷ []

abbrev pub base_env : Text → List (Text × Text)
base_env cwd =
    (text "HOME", cwd)
    ∷ (text "PATH", text "/usr/local/sbin:/usr/local/bin:/usr/sbin:/usr/bin:/sbin:/bin")
    ∷ (text "GIT_TERMINAL_PROMPT", text "0")
    ∷ (text "GIT_ASKPASS", text "/bin/false")
    ∷ []

-- The environment of a command: nothing of the server's own but what is named here.
unfoldable pub command_env :
    (var : Text → Option Text) → Config → (cwd program : Text) → List (Text × Text)
command_env var config cwd program =
    base_env cwd
    ++ ((if text_eq program config.git_bin then git_auth config.git_http_auth_header else [])
        ++ inherited var (
            text "KUBERNETES_SERVICE_HOST"
            ∷ text "KUBERNETES_SERVICE_PORT"
            ∷ text "KUBERNETES_SERVICE_PORT_HTTPS"
            ∷ []))

module _ (host : Host) where
  abbrev pub command_of :
      Config → (cwd program : Text) → List Text → (stdin : Option Text) → Command
  command_of config cwd program args stdin = record {
    program = program;
    args = args;
    cwd = cwd;
    env = command_env host.var config cwd program;
    stdin = stdin;
  }

  -- The input of the child, where it has one.
  abbrev pub feed : Command → Option Text → Exec (Unit {0})
  feed command none w = (w, ok tt)
  feed command (some input) w =
      lift
        (map_err
          (λ (error : Message).
            lit "failed to write stdin for " ∷ shown command.program ∷ lit ": " ∷ error)
          (host.write_stdin w.actions command))
        w

  -- The end of the child. `timeout` is in milliseconds.
  abbrev pub status_of_wait :
      (program : Text) → (job_timeout : ℕ) → Waited → Result (Text × Bool) Message
  status_of_wait program job_timeout (exited status success) = ok (status, success)
  status_of_wait program job_timeout (wait_failed error) =
      err (shown program ∷ lit " failed to wait: " ∷ error)
  status_of_wait program job_timeout timed_out =
      err (shown program ∷ lit " timed out after " ∷ duration job_timeout ∷ [])

  -- What the two readers have appended, and how the child has ended.
  abbrev pub output_of : List Action → Command → List Text
  output_of actions command =
      merged (host.merge actions command) (pipe_reader [] (host.stdout actions command))
        (pipe_reader [] (host.stderr actions command))

  abbrev pub await_child : Config → Command → Exec (Text × Bool)
  await_child config command w =
      (log_lines (output_of w.actions command)
          >> lift (status_of_wait command.program config.job_timeout (host.wait w.actions command)))
        w

  abbrev pub end_of : (program : Text) → (Text × Bool) → Exec (Unit {0})
  end_of program (status, success) =
      if success
      then pure tt
      else lift (err (shown program ∷ lit " exited with " ∷ shown status ∷ []))

  unfoldable pub run_logged_command_inner :
      Config
      → (cwd program : Text) → (args display_args : List Text) → (stdin : Option Text)
      → Exec (Unit {0})
  run_logged_command_inner config cwd program args display_args stdin = do
    let command : Command = record {
      program = program;
      args = args;
      cwd = cwd;
      env = command_env host.var config cwd program;
      stdin = stdin;
    }
    act (logged (text "\n$ " ++ (printable_command program display_args ++ text "\n")))
    ask (ran command) (λ before.
        map_err (λ (error : Message). lit "failed to spawn " ∷ shown program ∷ lit ": " ∷ error)
          (host.spawn before command))
    feed command stdin
    status ← await_child config command
    act (logged (text "exit status: " ++ (status.0 ++ text "\n")))
    end_of program status

  abbrev pub run_logged_command : Config → (cwd program : Text) → List Text → Exec (Unit {0})
  run_logged_command config cwd program args =
      run_logged_command_inner config cwd program args args none

  abbrev pub run_logged_command_with_input :
      Config → (cwd program : Text) → (args display_args : List Text) → Text → Exec (Unit {0})
  run_logged_command_with_input config cwd program args display_args stdin =
      run_logged_command_inner config cwd program args display_args (some stdin)
