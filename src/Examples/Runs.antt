-- ===== src/Examples/Runs.antt =====
-- Runs and instances for sigiledd/src/jobs.rs. The toy schedule fires at every instant.
use sigiled.Base.{
  ◌<◌, ◌≤◌, ◌↔◌, ◌⊎◌, get_elem?, ℕ, suc, ◌≡◌, refl, String, true, false, Option, none, some, List,
  [], ◌∷◌, ◌++◌, map, contains, pos, arith,
}
use sigiled.Jobs.Runs.{
  JobRunRecord, running, succeeded, timeout, skipped_locked, flush_failed, runs_for, is_inflight,
  key, hydrate, job_branch, run_verdict, max_runs, update_first,
}
use sigiled.Jobs.Engine.{
  JobManifest, Task, Engine, trigger, RunReplies, execute_run, run_block, finished_record,
  skipped_record, running_record,
}
use sigiled.Jobs.Latch.{fire, here, next, boot, task_key, Reach-exclusive}
use sigiled.Jobs.History.{same_stamp-misfiled}
use sigiled.Auth.Policy.{Actor, driver_role}
use sigiled.Jobs.Verbs.{jobs_are, run, accepted, scheduler_tick}
use sigiled.Jobs.Verbs.Ticks.{Due, scheduler_tick-is_inflight}
use sigiled.Jobs.Schedule.{Cron, fires, ticks}
use sigiled.Jobs.Schedule.Windows.{IsSchedule, Shown, ticks_see}

abbrev nightly : JobManifest
nightly = record {
  name = "nightly";
  cron = "0 3 * * *";
  command = "make nightly";
  timeout_minutes = 10;
  hc_ping = none;
  secrets = [];
}

abbrev replies : RunReplies
replies = record {
  env = λ v. none;
  mirror = none;
  image = none;
  build_error = none;
  create = none;
  healthy = none;
  boot = none;
  exec = none;
  exit = some (pos 0);
  timed_out = false;
  flushed = true;
  now = 20;
}

abbrev idle : Engine
idle = boot []

abbrev busy : Engine
busy = (trigger "proj" nightly "20260101-030000" 10 idle).0

Reach-exclusive_example :
    ((project job : String)
      → is_inflight busy.jobs project job ≡ contains (map task_key busy.tasks) (key project job))
    × ((before after : List Task) (t : Task)
        → busy.tasks ≡ before ++ t ∷ after
        → contains (map task_key (before ++ after)) (task_key t) ≡ false)
Reach-exclusive_example =
    Reach-exclusive {s = busy} (next (here []) (fire idle "proj" nightly "20260101-030000" 10))

abbrev task : Task
task = record {
  project = "proj";
  manifest = nightly;
  branch = job_branch "nightly" "20260101-030000";
}

free : is_inflight idle.jobs "proj" "nightly" ≡ false
unfolding is_inflight hydrate
free = refl

same_stamp-misfiled_example :
    let branch = job_branch "nightly" "20260101-030000" in
    (rest : List JobRunRecord) × (runs_for
        (execute_run task replies (trigger "proj" nightly "20260101-030000" 11 busy).0).jobs
        "proj"
        "nightly"
      ≡ finished_record (run_block nightly replies) 20 (skipped_record "proj" nightly branch 11)
        ∷ (running_record "proj" nightly branch 10 ∷ rest))
same_stamp-misfiled_example =
    same_stamp-misfiled "proj" nightly "20260101-030000" 10 11 idle replies free

abbrev every : ℕ → Option ℕ
every from = some (suc from)

abbrev cron : Cron
cron = record { next_after = λ expression. some every }

abbrev Any : ℕ → Type 0
Any t = Unit

every-IsSchedule : IsSchedule every Any
every-IsSchedule = record {
  later = λ from t e. (ground arith, tt);
  earliest = λ from t h a. (suc from, refl, omega arith);
}

ticks_see_example :
    ((t : ℕ)
      → 3 < t
      → t ≤ 9
      → Any t
      → (n : ℕ) × Shown cron "* * * * *" every Any refl every-IsSchedule 3 (5 ∷ 9 ∷ []) n t)
    × ((n : ℕ)
        → get_elem? (ticks cron "* * * * *" 3 (5 ∷ 9 ∷ [])) n ≡ some (fires true)
        → (t : ℕ) × Any t
          × Shown cron "* * * * *" every Any refl every-IsSchedule 3 (5 ∷ 9 ∷ []) n t)
ticks_see_example = ticks_see cron "* * * * *" every Any refl every-IsSchedule 3 (5 ∷ 9 ∷ [])

abbrev claude : Actor
claude = record { driver = "claude"; role = driver_role; approval = none }

abbrev declared : List JobManifest
declared = nightly ∷ []

abbrev first_run : JobRunRecord
first_run = running_record "proj" nightly (job_branch "nightly" "20260101-030000") 10

fired :
    run claude [] true "proj" "nightly" "20260101-030000" 10 (jobs_are declared) idle
    ≡ (busy, accepted first_run)
unfolding run sigiled.Auth.Policy.authorize sigiled.Auth.Policy.requires_approval is_inflight
    hydrate trigger sigiled.Jobs.Runs.try_claim
fired = refl

scheduler_tick-is_inflight_example :
    (is_inflight
        (scheduler_tick cron 3 7 "20260101-030000" (("proj", jobs_are declared) ∷ []) idle).jobs
        "proj"
        "nightly"
      ≡ true)
    ↔ ((is_inflight idle.jobs "proj" "nightly" ≡ true)
        ⊎ Due cron 3 7 (("proj", jobs_are declared) ∷ []) "proj" "nightly")
scheduler_tick-is_inflight_example =
    scheduler_tick-is_inflight cron 3 7 "20260101-030000" (("proj", jobs_are declared) ∷ []) idle
      "proj" "nightly"
