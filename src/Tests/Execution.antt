-- ===== src/Tests/Execution.antt =====
-- Tests of the executors and the log.
use gha_indie_worker_rs.Prelude.{
  ◌≡◌, refl, true, none, some, [], ◌∷◌, ◌++◌, take, arith, ok, unwrap_or,
}
use gha_indie_worker_rs.Text.{text}
use gha_indie_worker_rs.Types.{BuildRequest, BuildJobRecord}
use gha_indie_worker_rs.Exec.Host.{Host, exited, line, end_of_file}
use gha_indie_worker_rs.Exec.Keeps.{Keeps, Any}
use gha_indie_worker_rs.Exec.Log.{contents, append_all, contents-append_all, concat_bytes}
use gha_indie_worker_rs.Exec.Display.{redacted_build_args}
use gha_indie_worker_rs.Jobs.Enqueue.{new_record}
use gha_indie_worker_rs.Jobs.Execute.{execute_profile}
use gha_indie_worker_rs.Jobs.Execute.Profile.{IsScripted, execute_profile-IsScripted}
use gha_indie_worker_rs.Jobs.Execute.Build.{execute_build, nerdctl_build_args}
use gha_indie_worker_rs.Jobs.Execute.Build.Planned.{IsPlanned}
use gha_indie_worker_rs.Jobs.Execute.Build.Laws.{execute_build-IsPlanned}
use gha_indie_worker_rs.Jobs.Execute.Build.Redaction.{
  shown_build_args, keys_of, redacted-nerdctl_build_args,
}
use gha_indie_worker_rs.Tests.Validation.{code}
use gha_indie_worker_rs.Tests.Data.{config, initial, profile_request, image_request}

-- A host on which every call succeeds.
abbrev host : Host
host = record {
  create_dir_all = λ before path. ok tt;
  canonicalize = λ before path. ok path;
  var = λ key. none;
  spawn = λ before command. ok tt;
  write_stdin = λ before command. ok tt;
  stdout = λ before command. line (text "done\n") ∷ end_of_file ∷ [];
  stderr = λ before command. [];
  merge = λ before command. [];
  wait = λ before command. exited (text "exit status: 0") true;
  ecr_password = λ before registry. ok (text "token");
}

abbrev image_job : BuildJobRecord
image_job = new_record initial image_request (text "http") 7 7

abbrev profile_job : BuildJobRecord
profile_job = new_record initial profile_request (text "http") 7 7

execute_build-IsPlanned_example :
    Keeps (IsPlanned host config image_job) Any (execute_build host config image_job)
unfolding code new_record
execute_build-IsPlanned_example = execute_build-IsPlanned host config image_job refl refl

execute_profile-IsScripted_example :
    Keeps (IsScripted host config profile_job) Any (execute_profile host config profile_job)
execute_profile-IsScripted_example = execute_profile-IsScripted host config profile_job

-- A build with an argument.
abbrev request_with_arg : BuildRequest
request_with_arg = record image_request { build_args = some ((text "VERSION", text "1.2") ∷ []) }

redacted-nerdctl_build_args_example :
    redacted_build_args
      (nerdctl_build_args config request_with_arg (text "/repo") (text "/repo/Dockerfile"))
    ≡ text "-n"
      ∷ config.containerd_namespace
      ∷ text "build"
      ∷ text "-f"
      ∷ text "/repo/Dockerfile"
      ∷ text "-t"
      ∷ request_with_arg.image
      ∷ (shown_build_args (keys_of (unwrap_or request_with_arg.build_args [])) ++ text "/repo" ∷ [])
unfolding code
redacted-nerdctl_build_args_example =
    redacted-nerdctl_build_args config request_with_arg (text "/repo") (text "/repo/Dockerfile")
      refl refl refl refl

contents-append_all_example :
    contents (append_all none (text "ab" ∷ text "cd" ∷ []) 3)
    ≡ take 3 (contents none ++ concat_bytes (text "ab" ∷ text "cd" ∷ []))
contents-append_all_example = contents-append_all none (text "ab" ∷ text "cd" ∷ []) 3 (omega arith)
