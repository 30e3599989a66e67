-- ===== src/Jobs/History.antt =====
-- The run records of sigiledd/src/jobs.rs.
use sigiled.Base.{
  ℕ, zero, suc, ◌≡◌, ◌≢◌, ◌↔◌, negsuc, refl, ap, ◌∙◌, String, Bool, true, false, not, Option, none,
  some, List, [], ◌∷◌, map, inl, inr, arith, str_eq, eq_iff, contains, retain, Assoc, Bool-cases,
  take, get, get-insert, ℤ, pos, Option-cases, All,
}
use sigiled.Jobs.Runs.{
  running, succeeded, timeout, skipped_locked, flush_failed, JobRunRecord, JobsState, key, push_run,
  update_run, update_first, is_inflight, try_claim, release, hydrate, job_branch, runs_for,
  max_runs, run_verdict, or_empty, abort_all, abort_running,
}
use sigiled.Jobs.Engine.{
  JobManifest, Task, Engine, skipped_record, running_record, trigger, RunReplies, execute_run,
  run_block, finished_record,
}

-- The verdict of a command that ran: a time-out wins over the exit code, success is exit code 0,
-- and a failed flush is told by the detail and changes no state.
pub run_verdict_cases :
    (timed_out : Bool) (exit : Option ℤ) (flushed : Bool)
    → let v = run_verdict timed_out exit flushed in
      ((v.0 ≡ timeout) ↔ (timed_out ≡ true))
      × ((v.0 ≡ succeeded) ↔ ((timed_out ≡ false) × (exit ≡ some (pos 0))))
      × ((v.1 ≡ some flush_failed) ↔ (flushed ≡ false))
unfolding run_verdict
run_verdict_cases timed_out exit flushed = (
  (λ h. ground arith, λ h. ground arith),
  (λ h. (ground arith, success exit timed_out flushed h), λ h. ground arith),
  (λ h. ground arith, λ h. ground arith),
)
  where
    success :
        (exit : Option ℤ) (timed_out flushed : Bool)
        → (run_verdict timed_out exit flushed).0 ≡ succeeded
        → exit ≡ some (pos 0)
    success exit true flushed h = cc
    success none false flushed h = cc
    success (some (pos zero)) false flushed h = refl
    success (some (pos (suc n))) false flushed h = cc
    success (some (negsuc n)) false flushed h = cc

-- A trigger writes the newest record of its job: `running`, if the job was not in flight, else
-- `skipped_locked`. It keeps the older records, of which it drops those past the twentieth.
pub trigger-runs_for :
    (project : String) (jm : JobManifest) (stamp : String) (now : ℕ) (s : Engine)
    → (rec : JobRunRecord) × (runs_for (trigger project jm stamp now s).0.jobs project jm.name
        ≡ take max_runs (rec ∷ runs_for s.jobs project jm.name))
      × (rec.branch ≡ job_branch jm.name stamp)
      × ((rec.state ≡ running) ↔ (is_inflight s.jobs project jm.name ≡ false))
      × ((rec.state ≡ skipped_locked) ↔ (is_inflight s.jobs project jm.name ≡ true))
unfolding trigger try_claim push_run runs_for is_inflight
trigger-runs_for project jm stamp now s =
    let k = key project jm.name in
    let branch = job_branch jm.name stamp in
    let old = or_empty (get k s.jobs.runs) in
    let skipped = skipped_record project jm branch now in
    let run = running_record project jm branch now in
    elim (Bool-cases (contains s.jobs.inflight k)) [
      | inl y ↦ (
        skipped,
        ground (arith, get-insert k k (take max_runs (skipped ∷ old)) s.jobs.runs, eq_iff k k),
        refl,
        (λ e. cc, λ e. cc),
        (λ e. y, λ e. refl),
      )
      | inr n ↦ (
        run,
        ground (arith, get-insert k k (take max_runs (run ∷ old)) s.jobs.runs, eq_iff k k),
        refl,
        (λ e. n, λ e. refl),
        (λ e. cc, λ e. cc),
      )
    ]

trigger_free :
    (project : String) (jm : JobManifest) (stamp : String) (now : ℕ) (s : Engine)
    → is_inflight s.jobs project jm.name ≡ false
    → let one = (trigger project jm stamp now s).0 in
      (runs_for one.jobs project jm.name
        ≡ take max_runs (
            running_record project jm (job_branch jm.name stamp) now
            ∷ runs_for s.jobs project jm.name))
      × (is_inflight one.jobs project jm.name ≡ true)
unfolding trigger try_claim push_run runs_for is_inflight
trigger_free project jm stamp now s free =
    let k = key project jm.name in
    let run = running_record project jm (job_branch jm.name stamp) now in
    let old = or_empty (get k s.jobs.runs) in
    (
      ground (arith, get-insert k k (take max_runs (run ∷ old)) s.jobs.runs, eq_iff k k),
      ground (arith, eq_iff k k),
    )

trigger_held :
    (project : String) (jm : JobManifest) (stamp : String) (now : ℕ) (s : Engine)
    → is_inflight s.jobs project jm.name ≡ true
    → runs_for (trigger project jm stamp now s).0.jobs project jm.name
      ≡ take max_runs (
          skipped_record project jm (job_branch jm.name stamp) now
          ∷ runs_for s.jobs project jm.name)
unfolding trigger try_claim push_run runs_for is_inflight
trigger_held project jm stamp now s held =
    let k = key project jm.name in
    let skipped = skipped_record project jm (job_branch jm.name stamp) now in
    let old = or_empty (get k s.jobs.runs) in
    ground (arith, get-insert k k (take max_runs (skipped ∷ old)) s.jobs.runs, eq_iff k k)

update_run-runs_for :
    (project job branch : String) (f : JobRunRecord → JobRunRecord) (s : JobsState)
    → runs_for (update_run project job branch f s) project job
      ≡ update_first branch f (runs_for s project job)
unfolding update_run runs_for update_first
update_run-runs_for project job branch f s =
    let k = key project job in
    elim (Option-cases (get k s.runs)) [
      | inl e ↦ ground arith
      | inr (rs, e) ↦ ground (arith, get-insert k k (update_first branch f rs) s.runs, eq_iff k k)
    ]

release-runs_for :
    (project job p j : String) (s : JobsState)
    → runs_for (release project job s) p j ≡ runs_for s p j
unfolding release runs_for
release-runs_for project job p j s = refl

others_gone :
    (k : String) (ks : List String) → contains (retain (λ x. not (str_eq x k)) ks) k ≡ false
others_gone k [] = refl
others_gone k (x ∷ ks) = ground (arith, others_gone k ks)

release-is_inflight :
    (project job : String) (s : JobsState) → is_inflight (release project job s) project job ≡ false
unfolding release is_inflight
release-is_inflight project job s = others_gone (key project job) s.inflight

-- The end of a run completes the newest record of its branch with the run's state, exit code and
-- detail, and touches no other record of the job; then the job is no longer in flight.
pub execute_run-runs_for :
    (t : Task) (r : RunReplies) (s : Engine)
    → (runs_for (execute_run t r s).jobs t.project t.manifest.name
        ≡ update_first t.branch
            (finished_record (run_block t.manifest r) r.now)
            (runs_for s.jobs t.project t.manifest.name))
      × (is_inflight (execute_run t r s).jobs t.project t.manifest.name ≡ false)
unfolding execute_run
execute_run-runs_for t r s =
    let f = finished_record (run_block t.manifest r) r.now in
    let j = update_run t.project t.manifest.name t.branch f s.jobs in
    (
      release-runs_for t.project t.manifest.name t.project t.manifest.name j
          ∙ update_run-runs_for t.project t.manifest.name t.branch f s.jobs,
      release-is_inflight t.project t.manifest.name j,
    )

update_first_head :
    (branch : String) (f : JobRunRecord → JobRunRecord) (a b : JobRunRecord)
    (rs : List JobRunRecord)
    → a.branch ≡ branch
    → update_first branch f (a ∷ (b ∷ rs)) ≡ f a ∷ (b ∷ rs)
unfolding update_first
update_first_head branch f a b rs e = ground (arith, eq_iff a.branch branch)

-- Two fires of a job in the same second: the skip's record has the branch of the run that is in
-- flight and is newer, so the run's end completes the skip's record, and the run's own record
-- stays `running`.
pub same_stamp-misfiled :
    (project : String) (jm : JobManifest) (stamp : String) (now later : ℕ) (s : Engine)
    (r : RunReplies)
    → is_inflight s.jobs project jm.name ≡ false
    → let branch = job_branch jm.name stamp in
      let twice = (trigger project jm stamp later (trigger project jm stamp now s).0).0 in
      let t : Task = record { project = project; manifest = jm; branch = branch } in
      (rest : List JobRunRecord) × (runs_for (execute_run t r twice).jobs project jm.name
        ≡ finished_record (run_block jm r) r.now (skipped_record project jm branch later)
          ∷ (running_record project jm branch now ∷ rest))
same_stamp-misfiled project jm stamp now later s r free =
    let branch = job_branch jm.name stamp in
    let one = (trigger project jm stamp now s).0 in
    let old = runs_for s.jobs project jm.name in
    let t : Task = record { project = project; manifest = jm; branch = branch } in
    let two = (trigger project jm stamp later one).0 in
    let first = trigger_free project jm stamp now s free in
    let second = trigger_held project jm stamp later one first.1 in
    (
      take 18 (take 19 old),
      (execute_run-runs_for t r two).0
          ∙ ap (update_first branch (finished_record (run_block jm r) r.now)) (
              second
              ∙ ap (λ rs. take max_runs (skipped_record project jm branch later ∷ rs)) first.0)
          ∙ update_first_head branch (finished_record (run_block jm r) r.now)
              (skipped_record project jm branch later) (running_record project jm branch now) _
              refl,
    )

abort_running-settled : (r : JobRunRecord) → (abort_running r).state ≢ running
unfolding abort_running
abort_running-settled r = ground arith

map_aborted : (rs : List JobRunRecord) → All (λ r. r.state ≢ running) (map abort_running rs)
map_aborted [] = tt
map_aborted (r ∷ rs) = (abort_running-settled r, map_aborted rs)

abort_all-settled :
    (k : String) (m : Assoc (List JobRunRecord))
    → All (λ r. r.state ≢ running) (or_empty (get k (abort_all m)))
unfolding get abort_all
abort_all-settled k [] = tt
abort_all-settled k ((j, rs) ∷ m) = elim (Bool-cases (str_eq j k)) [
  | inl y ↦ rw y (map_aborted rs)
  | inr n ↦ rw n (abort_all-settled k m)
]

-- After a restart no run is reported as running, whatever the snapshot said: the process that
-- ran it is gone.
pub hydrate-settled :
    (snapshot : Assoc (List JobRunRecord)) (project job : String)
    → All (λ r. r.state ≢ running) (runs_for (hydrate snapshot) project job)
unfolding hydrate runs_for
hydrate-settled snapshot project job = abort_all-settled (key project job) snapshot
