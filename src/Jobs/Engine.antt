-- ===== src/Jobs/Engine.antt =====
-- sigiledd/src/jobs.rs, `trigger` and `execute_run`. A spawned run is a task that waits in the
-- state until the environment ends it, at any later time; what the container runtime, the
-- environment variables and the clock answer in a run are inputs. Persisting is not modelled.
use sigiled.Base.{
  ℕ, String, Bool, true, false, Option, none, some, List, [], ◌∷◌, ◌++◌, ℤ, str_append,
}
use sigiled.Jobs.Runs.{
  RunState, running, succeeded, error, skipped_locked, Detail, previous_in_flight, secret_not_set,
  session_image, outside, JobRunRecord, JobsState, push_run, update_run, try_claim, release,
  run_verdict, job_branch,
}

pub record JobManifest : Type 0 where
  pub name : String
  pub cron : String
  pub command : String
  pub timeout_minutes : ℕ
  pub hc_ping : Option String
  pub secrets : List (String × String)

pub record Task : Type 0 where
  pub project : String
  pub manifest : JobManifest
  pub branch : String

pub record JobEvent : Type 0 where
  pub project : String
  pub at : ℕ
  pub job : String
  pub branch : String
  pub state : RunState

pub record Engine : Type 0 where
  pub jobs : JobsState
  pub events : List JobEvent
  pub tasks : List Task

pub data Triggered : Type 0 where
  started : JobRunRecord → Triggered
  already_in_flight : String → Triggered

abbrev pub skipped_record : String → JobManifest → String → ℕ → JobRunRecord
skipped_record project jm branch now = record {
  project = project;
  job = jm.name;
  branch = branch;
  state = skipped_locked;
  started_epoch = now;
  finished_epoch = some now;
  exit = none;
  detail = some previous_in_flight;
}

abbrev pub running_record : String → JobManifest → String → ℕ → JobRunRecord
running_record project jm branch now = record {
  project = project;
  job = jm.name;
  branch = branch;
  state = running;
  started_epoch = now;
  finished_epoch = none;
  exit = none;
  detail = none;
}

trigger_with : String → JobManifest → String → ℕ → Engine → JobsState × Bool → Engine × Triggered
trigger_with project jm branch now s (jobs, false) = (
  record s {
    jobs = push_run (skipped_record project jm branch now) jobs;
    events =
        s.events
        ++ record {
          project = project;
          at = now;
          job = jm.name;
          branch = branch;
          state = skipped_locked;
        }
          ∷ [];
  },
  already_in_flight jm.name,
)
trigger_with project jm branch now s (jobs, true) =
    let rec = running_record project jm branch now in
    (
      record s {
        jobs = push_run rec jobs;
        tasks = record { project = project; manifest = jm; branch = branch } ∷ s.tasks;
      },
      started rec,
    )

unfoldable pub trigger : String → JobManifest → String → ℕ → Engine → Engine × Triggered
unfolding trigger_with
trigger project jm stamp now s =
    trigger_with project jm (job_branch jm.name stamp) now s (try_claim project jm.name s.jobs)

-- What the outside answers along one run: `none` is success, a text the failure's reason.
pub record RunReplies : Type 0 where
  pub env : String → Option String
  pub mirror : Option String
  pub image : Option String
  pub build_error : Option String
  pub create : Option String
  pub healthy : Option String
  pub boot : Option String
  pub exec : Option String
  pub exit : Option ℤ
  pub timed_out : Bool
  pub flushed : Bool
  pub now : ℕ

-- What the run's block leaves: its verdict, whether it acquired a container, and the exit code.
pub record RunEnd : Type 0 where
  pub state : RunState
  pub detail : Option Detail
  pub acquired : Bool
  pub exit : Option ℤ

abbrev ended : Bool → Detail → RunEnd
ended acquired reason = record {
  state = error;
  detail = some reason;
  acquired = acquired;
  exit = none;
}

-- The first secret whose variable is not set.
missing_secret : (String → Option String) → List (String × String) → Option Detail
missing_secret env [] = none
missing_secret env ((name, var) ∷ more) = elim (env var) [
  | none ↦ some (secret_not_set name var)
  | some v ↦ missing_secret env more
]

abbrev step_or : Bool → (String → Detail) → Option String → RunEnd → RunEnd
step_or acquired reason none rest = rest
step_or acquired reason (some e) rest = ended acquired (reason e)

run_done : RunReplies → RunEnd
run_done r =
    let (state, detail) = run_verdict r.timed_out r.exit r.flushed in
    record { state = state; detail = detail; acquired = true; exit = r.exit }

run_after_secrets : RunReplies → Option Detail → RunEnd
unfolding run_done
run_after_secrets r (some d) = ended false d
run_after_secrets r none = step_or false outside r.mirror (
    step_or false outside r.image (
      step_or false session_image r.build_error (
        step_or false outside r.create (
          step_or true outside r.healthy
            (step_or true outside r.boot (step_or true outside r.exec (run_done r)))))))

unfoldable pub run_block : JobManifest → RunReplies → RunEnd
unfolding missing_secret run_after_secrets
run_block jm r = run_after_secrets r (missing_secret r.env jm.secrets)

-- The URL that is pinged: the variable's, with "/fail" behind it unless the run succeeded.
ping_url : RunState → Option String → Option String
ping_url state none = none
ping_url succeeded (some url) = some url
ping_url state (some url) = some (str_append url "/fail")

abbrev env_of : (String → Option String) → Option String → Option String
env_of env none = none
env_of env (some var) = env var

unfoldable pub ping : JobManifest → RunReplies → Option String
unfolding ping_url
ping jm r = ping_url (run_block jm r).state (env_of r.env jm.hc_ping)

abbrev pub finished_record : RunEnd → ℕ → JobRunRecord → JobRunRecord
finished_record e now r = record r {
  state = e.state;
  finished_epoch = some now;
  exit = e.exit;
  detail = e.detail;
}

-- `execute_run` from its first line to its last, where a runtime is configured.
unfoldable pub execute_run : Task → RunReplies → Engine → Engine
execute_run t r s =
    let e = run_block t.manifest r in
    record s {
      jobs =
          release t.project t.manifest.name
            (update_run t.project t.manifest.name t.branch (finished_record e r.now) s.jobs);
      events =
          s.events
          ++ record {
            project = t.project;
            at = r.now;
            job = t.manifest.name;
            branch = t.branch;
            state = e.state;
          }
            ∷ [];
    }
