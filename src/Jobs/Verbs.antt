-- ===== src/Jobs/Verbs.antt =====
-- sigiledd/src/jobs.rs, the verb `run` and `scheduler_tick`. The manifest of a project, as its
-- refresh answers it, is an input, and so is the stamp of the local time, to the second.
pub mod Steps
pub mod Ticks
use sigiled.Base.{
  ℕ, String, Bool, true, false, not, Option, none, some, List, [], ◌∷◌, if◌then◌else◌, str_eq,
  find as find_first,
}
use sigiled.Auth.Approvals.{ApprovalStore}
use sigiled.Auth.Policy.{Actor, Denial, Decision, ok, denied, authorize, job_run}
use sigiled.Jobs.Runs.{JobRunRecord, is_inflight}
use sigiled.Jobs.Engine.{JobManifest, Engine, Triggered, started, already_in_flight, trigger}
use sigiled.Jobs.Schedule.{Cron, Fires, fires, bad_cron, fires_between}

-- The answer of `manifest_of`: the jobs, a broken manifest, or no repository.
pub data Manifest : Type 0 where
  jobs_are : List JobManifest → Manifest
  broken : String → Manifest
  unavailable : Manifest

pub data RunReply : Type 0 where
  forbidden : Denial → RunReply
  broken_manifest : String → RunReply
  unknown_project unknown_job no_runtime : RunReply
  in_flight : String → RunReply
  accepted : JobRunRecord → RunReply

run_triggered : Engine × Triggered → Engine × RunReply
run_triggered (s, started rec) = (s, accepted rec)
run_triggered (s, already_in_flight job) = (s, in_flight job)

run_found : Bool → String → String → ℕ → Engine → Option JobManifest → Engine × RunReply
unfolding run_triggered
run_found runtime project stamp now s none = (s, unknown_job)
run_found runtime project stamp now s (some jm) =
    if is_inflight s.jobs project jm.name
    then (s, in_flight jm.name)
    else if runtime
    then run_triggered (trigger project jm stamp now s)
    else (s, no_runtime)

run_known : Bool → String → String → String → ℕ → Engine → Manifest → Engine × RunReply
unfolding run_found
run_known runtime project job stamp now s (broken detail) = (s, broken_manifest detail)
run_known runtime project job stamp now s unavailable = (s, unknown_project)
run_known runtime project job stamp now s (jobs_are jobs) =
    run_found runtime project stamp now s (find_first jobs (λ j. str_eq j.name job))

run_allowed :
    Decision (Unit {0})
    → Bool
    → String
    → String
    → String
    → ℕ
    → Engine
    → Manifest
    → Engine × RunReply
unfolding run_known
run_allowed (denied d) runtime project job stamp now s manifest = (s, forbidden d)
run_allowed (ok u) runtime project job stamp now s manifest =
    run_known runtime project job stamp now s manifest

-- The verb `run`.
unfoldable pub run :
    Actor
    → ApprovalStore
    → Bool
    → String
    → String
    → String
    → ℕ
    → Manifest
    → Engine
    → Engine × RunReply
unfolding run_allowed
run actor approvals runtime project job stamp now manifest s =
    run_allowed (authorize actor job_run (some project) approvals now) runtime project job stamp now
      s manifest

fire_if : Fires → String → JobManifest → String → ℕ → Engine → Engine
fire_if (fires true) project jm stamp now s = (trigger project jm stamp now s).0
fire_if (fires false) project jm stamp now s = s
fire_if bad_cron project jm stamp now s = s

fire_all : Cron → ℕ → ℕ → String → String → Engine → List JobManifest → Engine
unfolding fire_if
fire_all c last now project stamp s [] = s
fire_all c last now project stamp s (jm ∷ more) =
    fire_all c last now project stamp
      (fire_if (fires_between c jm.cron last now) project jm stamp now s) more

tick_project : Cron → ℕ → ℕ → String → String → Engine → Manifest → Engine
unfolding fire_all
tick_project c last now project stamp s (jobs_are jobs) = fire_all c last now project stamp s jobs
tick_project c last now project stamp s (broken detail) = s
tick_project c last now project stamp s unavailable = s

-- `scheduler_tick` over the projects and their manifests.
unfoldable pub scheduler_tick : Cron → ℕ → ℕ → String → List (String × Manifest) → Engine → Engine
unfolding tick_project
scheduler_tick c last now stamp [] s = s
scheduler_tick c last now stamp ((project, manifest) ∷ more) s =
    scheduler_tick c last now stamp more (tick_project c last now project stamp s manifest)
