-- ===== src/Jobs/Latch.antt =====
-- The interleavings of fires, ends and restarts of sigiledd/src/jobs.rs, and its in-flight latch.
use mathlib.Core.List.{map-append}
use sigiled.Base.{
  ℕ, ◌≡◌, refl, sym, ap, ◌∙◌, subst, String, false, not, List, [], ◌∷◌, ◌++◌, map, arith, str_eq,
  eq_iff, contains, retain, Assoc,
}
use sigiled.Jobs.Runs.{
  JobRunRecord, JobsState, key, push_run, update_run, is_inflight, try_claim, release, hydrate,
}
use sigiled.Jobs.Engine.{
  JobManifest, Task, Engine, trigger, RunReplies, execute_run, run_block, finished_record,
}

abbrev pub task_key : Task → String
task_key t = key t.project t.manifest.name

-- What can happen to the engine: the scheduler or a caller fires a job; a run that waits ends,
-- with whatever replies; the process restarts from a snapshot, and its tasks are gone.
pub data Step : Engine → Engine → Type 0 where
  fire :
      (s : Engine) (project : String) (jm : JobManifest) (stamp : String) (now : ℕ)
      → Step s (trigger project jm stamp now s).0
  finish :
      (s : Engine) (before after : List Task) (t : Task) (r : RunReplies)
      → s.tasks ≡ before ++ t ∷ after
      → Step s (record (execute_run t r s) { tasks = before ++ after })
  restart :
      (s : Engine) (snapshot : Assoc (List JobRunRecord))
      → Step s (record s { jobs = hydrate snapshot; tasks = [] })

abbrev pub boot : Assoc (List JobRunRecord) → Engine
boot snapshot = record { jobs = hydrate snapshot; events = []; tasks = [] }

pub data Reach : Engine → Type 0 where
  here : (snapshot : Assoc (List JobRunRecord)) → Reach (boot snapshot)
  next : {s t : Engine} → Reach s → Step s t → Reach t

abbrev pub Distinct : List String → Type 0
Distinct [] = Unit
Distinct (k ∷ ks) = (contains ks k ≡ false) × Distinct ks

abbrev others : String → List String → List String
others k ks = retain (λ x. not (str_eq x k)) ks

others_none : (k : String) (ks : List String) → contains ks k ≡ false → others k ks ≡ ks
others_none k [] h = refl
others_none k (x ∷ ks) h = ground (arith, others_none k ks)

contains-middle :
    (k x : String) (xs ys : List String)
    → contains (xs ++ k ∷ ys) x ≡ false
    → (contains (xs ++ ys) x ≡ false) × (str_eq k x ≡ false)
contains-middle k x [] ys h = (ground arith, ground arith)
contains-middle k x (z ∷ xs) ys h = let ih = contains-middle k x xs ys in ground (arith, ih)

Distinct-middle :
    (k : String) (xs ys : List String)
    → Distinct (xs ++ k ∷ ys)
    → Distinct (xs ++ ys) × (contains (xs ++ ys) k ≡ false)
Distinct-middle k [] ys h = (h.1, h.0)
Distinct-middle k (x ∷ xs) ys h =
    let (d, c) = Distinct-middle k xs ys h.1 in
    let (m, e) = contains-middle k x xs ys h.0 in ((m, d), ground (arith, eq_iff k x, eq_iff x k))

others-middle :
    (k : String) (xs ys : List String)
    → Distinct (xs ++ k ∷ ys)
    → others k (xs ++ k ∷ ys) ≡ xs ++ ys
others-middle k [] ys h = ground (arith, eq_iff k k, others_none k ys h.0)
others-middle k (x ∷ xs) ys h =
    let (m, e) = contains-middle k x xs ys h.0 in
    ground (arith, eq_iff k x, eq_iff x k, others-middle k xs ys h.1)

-- The latch holds exactly the jobs of the runs that wait, each once.
pub record IsLatched (s : Engine) : Type 0 where
  pub latch : s.jobs.inflight ≡ map task_key s.tasks
  pub distinct : Distinct s.jobs.inflight

update_run-inflight :
    (project job branch : String) (f : JobRunRecord → JobRunRecord) (s : JobsState)
    → (update_run project job branch f s).inflight ≡ s.inflight
unfolding update_run
update_run-inflight project job branch f s = ground arith

fire-IsLatched :
    (s : Engine) (project : String) (jm : JobManifest) (stamp : String) (now : ℕ)
    → IsLatched s
    → IsLatched (trigger project jm stamp now s).0
unfolding trigger try_claim push_run
fire-IsLatched s project jm stamp now h = ground arith

finish-IsLatched :
    (s : Engine) (before after : List Task) (t : Task) (r : RunReplies)
    → s.tasks ≡ before ++ t ∷ after
    → IsLatched s
    → IsLatched (record (execute_run t r s) { tasks = before ++ after })
unfolding execute_run release
finish-IsLatched s before after t r e h =
    let keys : s.jobs.inflight ≡ map task_key before ++ task_key t ∷ map task_key after =
      h.latch ∙ ap (map task_key) e ∙ map-append task_key before (t ∷ after) in
    let apart = subst Distinct keys h.distinct in
    let same =
      update_run-inflight t.project t.manifest.name t.branch
        (finished_record (run_block t.manifest r) r.now) s.jobs in
    let left =
      ap (others (task_key t)) (same ∙ keys)
      ∙ others-middle (task_key t) (map task_key before) (map task_key after) apart in
    record {
      latch = left ∙ sym (map-append task_key before after);
      distinct =
          subst Distinct (sym left)
            (Distinct-middle (task_key t) (map task_key before) (map task_key after) apart).0;
    }

Step-IsLatched : {s t : Engine} → Step s t → IsLatched s → IsLatched t
unfolding hydrate
Step-IsLatched (fire s project jm stamp now) h = fire-IsLatched s project jm stamp now h
Step-IsLatched (finish s before after t r e) h = finish-IsLatched s before after t r e h
Step-IsLatched (restart s snapshot) h = record { latch = refl; distinct = tt }

pub Reach-IsLatched : {s : Engine} → Reach s → IsLatched s
unfolding hydrate
Reach-IsLatched (here snapshot) = record { latch = refl; distinct = tt }
Reach-IsLatched (next r st) = Step-IsLatched st (Reach-IsLatched r)

-- In every state that the engine can reach, a job is in flight exactly if a run of it waits to
-- end, and no other run of that job waits: runs of one job never overlap, and the latch is never
-- left behind.
pub Reach-exclusive :
    {s : Engine}
    → Reach s
    → ((project job : String)
        → is_inflight s.jobs project job ≡ contains (map task_key s.tasks) (key project job))
      × ((before after : List Task) (t : Task)
          → s.tasks ≡ before ++ t ∷ after
          → contains (map task_key (before ++ after)) (task_key t) ≡ false)
unfolding is_inflight
Reach-exclusive {s} reach =
    let h = Reach-IsLatched reach in
    (
      λ project job. rw h.latch,
      λ before after t e.
          let keys : s.jobs.inflight ≡ map task_key before ++ task_key t ∷ map task_key after =
            h.latch ∙ ap (map task_key) e ∙ map-append task_key before (t ∷ after) in
          rw (map-append task_key before after)
            (Distinct-middle (task_key t) (map task_key before) (map task_key after)
              (subst Distinct keys h.distinct)).1,
    )
