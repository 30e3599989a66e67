-- ===== src/Jobs/Verbs/Steps.antt =====
-- The verb `run` of sigiledd/src/jobs.rs, as a step of the engine.
use sigiled.Base.{
  ℕ, ◌≡◌, refl, String, Bool, true, false, Option, none, some, List, inl, inr, arith, str_eq,
  eq_iff, find as find_first, Bool-cases,
}
use sigiled.Auth.Approvals.{ApprovalStore}
use sigiled.Auth.Policy.{Actor, Decision, ok, denied}
use sigiled.Jobs.Runs.{JobRunRecord, key, is_inflight, try_claim, push_run, job_branch}
use sigiled.Jobs.Engine.{JobManifest, Engine, started, trigger, running_record}
use sigiled.Jobs.Verbs.{
  Manifest, jobs_are, broken, unavailable, accepted, run, run_allowed, run_known, run_found,
  run_triggered,
}

trigger-started :
    (project : String) (jm : JobManifest) (stamp : String) (now : ℕ) (s : Engine)
    → is_inflight s.jobs project jm.name ≡ false
    → ((trigger project jm stamp now s).1
        ≡ started (running_record project jm (job_branch jm.name stamp) now))
      × (is_inflight (trigger project jm stamp now s).0.jobs project jm.name ≡ true)
unfolding trigger try_claim push_run is_inflight
trigger-started project jm stamp now s free = (
  ground (arith, eq_iff (key project jm.name) (key project jm.name)),
  ground (arith, eq_iff (key project jm.name) (key project jm.name)),
)

-- What an accepted run has met, and what it leaves.
abbrev pub Accepts :
    Bool → String → String → String → ℕ → Manifest → Engine → Engine → JobRunRecord → Type 0
Accepts runtime project job stamp now manifest s s' rec =
    (runtime ≡ true)
    × ((jobs : List JobManifest) × (jm : JobManifest) × (manifest ≡ jobs_are jobs)
        × (find_first jobs (λ j. str_eq j.name job) ≡ some jm)
        × (is_inflight s.jobs project jm.name ≡ false)
        × (s' ≡ (trigger project jm stamp now s).0)
        × (is_inflight s'.jobs project jm.name ≡ true)
        × (rec ≡ running_record project jm (job_branch jm.name stamp) now))

run_found-Accepts :
    (runtime : Bool) (project job stamp : String) (now : ℕ) (s s' : Engine) (rec : JobRunRecord)
    (jobs : List JobManifest) (o : Option JobManifest)
    → find_first jobs (λ j. str_eq j.name job) ≡ o
    → run_found runtime project stamp now s o ≡ (s', accepted rec)
    → Accepts runtime project job stamp now (jobs_are jobs) s s' rec
unfolding run_found run_triggered
run_found-Accepts runtime project job stamp now s s' rec jobs none e h = absurd (ground arith)
run_found-Accepts false project job stamp now s s' rec jobs (some jm) e h = absurd (ground arith)
run_found-Accepts true project job stamp now s s' rec jobs (some jm) e h =
    elim (Bool-cases (is_inflight s.jobs project jm.name)) [
      | inl y ↦ absurd (ground (arith, y))
      | inr n ↦
          let (begun, held) = trigger-started project jm stamp now s n in
          let same : s' ≡ (trigger project jm stamp now s).0 = ground (arith, n, begun) in
          (refl, (jobs, jm, refl, e, n, same, rw same held, ground (arith, n, begun)))
    ]

run_known-Accepts :
    (runtime : Bool) (project job stamp : String) (now : ℕ) (s s' : Engine) (rec : JobRunRecord)
    (m : Manifest)
    → run_known runtime project job stamp now s m ≡ (s', accepted rec)
    → Accepts runtime project job stamp now m s s' rec
unfolding run_known
run_known-Accepts runtime project job stamp now s s' rec (jobs_are jobs) h =
    run_found-Accepts runtime project job stamp now s s' rec jobs _ refl h
run_known-Accepts runtime project job stamp now s s' rec (broken d) h = absurd (ground arith)
run_known-Accepts runtime project job stamp now s s' rec unavailable h = absurd (ground arith)

run_allowed-Accepts :
    (d : Decision (Unit {0})) (runtime : Bool) (project job stamp : String) (now : ℕ)
    (s s' : Engine) (rec : JobRunRecord) (m : Manifest)
    → run_allowed d runtime project job stamp now s m ≡ (s', accepted rec)
    → Accepts runtime project job stamp now m s s' rec
unfolding run_allowed
run_allowed-Accepts (denied d) runtime project job stamp now s s' rec m h = absurd (ground arith)
run_allowed-Accepts (ok u) runtime project job stamp now s s' rec m h =
    run_known-Accepts runtime project job stamp now s s' rec m h

-- The verb `run` accepts a run only with a runtime and for a job that the project's manifest
-- declares and that is not in flight; then the job is in flight, and the reply is the record of
-- a run that has just started.
pub run-Accepts :
    (actor : Actor) (approvals : ApprovalStore) (runtime : Bool) (project job stamp : String)
    (now : ℕ) (m : Manifest) (s s' : Engine) (rec : JobRunRecord)
    → run actor approvals runtime project job stamp now m s ≡ (s', accepted rec)
    → Accepts runtime project job stamp now m s s' rec
unfolding run
run-Accepts actor approvals runtime project job stamp now m s s' rec h =
    run_allowed-Accepts _ runtime project job stamp now s s' rec m h
