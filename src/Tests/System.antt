-- ===== src/Tests/System.antt =====
-- Tests of the permits.
use gha_indie_worker_rs.Prelude.{◌≤◌, refl, arith, [], ◌∷◌}
use gha_indie_worker_rs.Text.Decimal.{decimal}
use gha_indie_worker_rs.Text.{Text, text, text_eq}
use gha_indie_worker_rs.Jobs.Run.{Readings, take_permit, release, clean_up, leave_job, conclude_job}
use gha_indie_worker_rs.Jobs.System.{
  System, Step, waiting, locking, permit, Reach, here, next, phase_of, set_phase,
}
use gha_indie_worker_rs.Jobs.System.Permits.{count_tasks, IsBalanced}
use gha_indie_worker_rs.Jobs.System.Steps.{Reach-IsBalanced, Reach-running-le}
use gha_indie_worker_rs.Jobs.Claims.Holders.{count_holders}
use gha_indie_worker_rs.Jobs.Claims.Invariant.{IsConsistent}
use gha_indie_worker_rs.Jobs.System.Consistent.{Step-IsConsistent}
use gha_indie_worker_rs.Text.{contains}
use gha_indie_worker_rs.Jobs.Map.{lookup}
use gha_indie_worker_rs.Tests.Data.{initial, image_request, no_counts}
use gha_indie_worker_rs.Prelude.{◌≡◌, none, some, Bool-cases, inl, inr, ok}
use gha_indie_worker_rs.Jobs.Enqueue.{job_id, has_request_id, new_record}
use gha_indie_worker_rs.Validation.Fields.{clean_optional}
use gha_indie_worker_rs.Types.{BuildJobRecord, running}
use gha_indie_worker_rs.Fiducia.{disabled}
use gha_indie_worker_rs.Jobs.System.{
  executing, cleaning, leaving, concluding, finished, finish, clean, leave, conclude,
}
use gha_indie_worker_rs.Jobs.System.Refines.{IsLive}
use gha_indie_worker_rs.Jobs.System.Runs.{steps, Life, Reach-Life, executing_has_job}
use gha_indie_worker_rs.Jobs.System.Progress.{Answers}
use gha_indie_worker_rs.Jobs.System.Drain.{IsDrained, Reach-IsDrained}

-- One job waits for its permit.
abbrev before : System
before = record { app = initial; tasks = (text "build-7-1", waiting) ∷ [] }

abbrev after : System
after = record {
  app = take_permit initial;
  tasks = set_phase (text "build-7-1") locking ((text "build-7-1", waiting) ∷ []);
}

before-IsBalanced : IsBalanced 2 before
unfolding count_tasks
before-IsBalanced = record { permits = refl; running = refl }

run : Reach before after
unfolding phase_of text_eq
run = next {t = before} here (permit (text "build-7-1") refl (omega arith))

Reach-IsBalanced_example : IsBalanced 2 after
Reach-IsBalanced_example = Reach-IsBalanced 2 (omega arith) before after before-IsBalanced run

Reach-running-le_example : after.app.counters.running ≤ 2
Reach-running-le_example = Reach-running-le 2 (omega arith) before after before-IsBalanced run

before-IsConsistent : IsConsistent before.app
unfolding count_holders contains
before-IsConsistent = record { held = λ r. refl; fresh = tt; keyed = tt; distinct = tt }

step : Step before after
unfolding phase_of text_eq
step = permit (text "build-7-1") refl (omega arith)

Step-IsConsistent_example : IsConsistent after.app
Step-IsConsistent_example = Step-IsConsistent before after before-IsConsistent (omega arith) step

abbrev empty : System
empty = record { app = initial; tasks = [] }

-- A job with no request id is running, and its task executes.
abbrev running_id : Text
running_id = job_id 7 1

abbrev running_job : BuildJobRecord
running_job = record (new_record initial image_request (text "http") 7 7) { status = running }

abbrev executes : System
executes = record {
  app = record initial {
    jobs = (running_id, running_job) ∷ [];
    permits = 1;
    counters = record no_counts { submitted = 1; running = 1 };
  };
  tasks = (running_id, executing none) ∷ [];
}

executes-IsConsistent : IsConsistent executes.app
unfolding count_holders contains has_request_id clean_optional new_record lookup
executes-IsConsistent = record {
  held = λ r. refl;
  fresh = ((7, 1, refl, omega arith), tt);
  keyed = (refl, tt);
  distinct = (refl, tt);
}

executes-IsLive : IsLive executes
unfolding phase_of lookup
executes-IsLive = record {
  consistent = executes-IsConsistent;
  below = ((7, 1, refl, omega arith), tt);
  distinct = (refl, tt);
  agree = λ id. elim (Bool-cases (text_eq running_id id)) [
    | inl same ↦ rw same refl
    | inr other ↦ rw other refl
  ];
}

-- The job ends with success.
abbrev unlocked : System
unlocked = record {
  app = release executes.app none;
  tasks = set_phase running_id (cleaning (ok tt)) executes.tasks;
}

abbrev cleaned : System
cleaned = record {
  app = clean_up unlocked.app running_id;
  tasks = set_phase running_id (leaving (ok tt)) unlocked.tasks;
}

abbrev left : System
left = record {
  app = leave_job cleaned.app (ok tt);
  tasks = set_phase running_id (concluding (ok tt)) cleaned.tasks;
}

abbrev end_time : Readings
end_time = record { at = 10; event = 11; critical = 11 }

abbrev ended : System
ended = record {
  app = conclude_job left.app running_id (ok tt) end_time;
  tasks = set_phase running_id finished left.tasks;
}

ending : Reach executes ended
unfolding phase_of set_phase text_eq job_id decimal
ending =
    next {t = left}
      (next {t = cleaned}
        (next {t = unlocked} (next {t = executes} here (finish running_id none (ok tt) refl))
          (clean running_id (ok tt) refl))
        (leave running_id (ok tt) refl))
      (conclude running_id (ok tt) end_time refl)

Reach-Life_example : IsLive ended × Life executes ended
unfolding ending steps
Reach-Life_example = Reach-Life executes ended executes-IsLive ending (omega arith)

executing_has_job_example :
    (job : BuildJobRecord) × (lookup running_id executes.app.jobs ≡ some job)
    × (job.status ≡ running)
unfolding steps phase_of text_eq job_id decimal
executing_has_job_example =
    executing_has_job executes executes running_id none executes-IsLive here (omega arith) refl

-- The lock service is disabled and each execution succeeds.
abbrev answers : Answers
answers = record {
  lock_of = λ id. disabled;
  result_of = λ id. ok tt;
  locked_at = λ id. record { at = 8; event = 8; critical = 8 };
  started_at = λ id. record { at = 9; event = 9; critical = 9 };
  ended_at = λ id. record { at = 10; event = 11; critical = 11 };
}

Reach-IsDrained_example : IsDrained answers 2 before
unfolding phase_of
Reach-IsDrained_example =
    Reach-IsDrained answers 2 before (omega arith) (omega arith) before-IsBalanced (refl, tt)
