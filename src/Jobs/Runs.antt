-- ===== src/Jobs/Runs.antt =====
-- sigiledd/src/jobs.rs, `JobRunRecord` and `JobsState`. The state names are constructors, and a
-- detail's text is a constructor with what the text quotes.
use sigiled.Base.{
  ℕ, String, Bool, true, false, not, Option, none, some, List, [], ◌∷◌, if◌then◌else◌, str_eq,
  str_append, contains, retain, take, map, Assoc, get, insert, ℤ, is_zero,
}

pub data RunState : Type 0 where
  running succeeded failed timeout error skipped_locked aborted : RunState

-- Why a run ended in `error`, or what the record adds to its state.
pub data Detail : Type 0 where
  restarted_mid_run flush_failed previous_in_flight : Detail
  secret_not_set : String → String → Detail
  session_image outside : String → Detail

pub record JobRunRecord : Type 0 where
  pub project : String
  pub job : String
  pub branch : String
  pub state : RunState
  pub started_epoch : ℕ
  pub finished_epoch : Option ℕ
  pub exit : Option ℤ
  pub detail : Option Detail

pub record JobsState : Type 0 where
  pub runs : Assoc (List JobRunRecord)
  pub inflight : List String

unfoldable pub key : String → String → String
key project job = str_append project (str_append "/" job)

abbrev pub or_empty : Option (List JobRunRecord) → List JobRunRecord
or_empty none = []
or_empty (some rs) = rs

unfoldable pub runs_for : JobsState → String → String → List JobRunRecord
runs_for s project job = or_empty (get (key project job) s.runs)

abbrev pub max_runs : ℕ
max_runs = 20

unfoldable pub push_run : JobRunRecord → JobsState → JobsState
push_run rec s =
    let k = key rec.project rec.job in
    record s { runs = insert k (take max_runs (rec ∷ or_empty (get k s.runs))) s.runs }

-- `iter_mut().find` and a change of what it finds.
unfoldable pub update_first :
    String → (JobRunRecord → JobRunRecord) → List JobRunRecord → List JobRunRecord
update_first branch f [] = []
update_first branch f (r ∷ rs) =
    let rest = update_first branch f rs in if str_eq r.branch branch then f r ∷ rs else r ∷ rest

update_found :
    String
    → String
    → (JobRunRecord → JobRunRecord)
    → Option (List JobRunRecord)
    → JobsState
    → JobsState
update_found k branch f none s = s
update_found k branch f (some rs) s = record s { runs = insert k (update_first branch f rs) s.runs }

unfoldable pub update_run :
    String → String → String → (JobRunRecord → JobRunRecord) → JobsState → JobsState
unfolding update_found
update_run project job branch f s =
    let k = key project job in update_found k branch f (get k s.runs) s

unfoldable pub is_inflight : JobsState → String → String → Bool
is_inflight s project job = contains s.inflight (key project job)

-- `HashSet::insert`: whether the key was absent.
unfoldable pub try_claim : String → String → JobsState → JobsState × Bool
try_claim project job s =
    if contains s.inflight (key project job)
    then (s, false)
    else (record s { inflight = key project job ∷ s.inflight }, true)

unfoldable pub release : String → String → JobsState → JobsState
release project job s = record s {
  inflight = retain (λ k. not (str_eq k (key project job))) s.inflight;
}

abbrev pub is_running : RunState → Bool
is_running running = true
is_running _ = false

unfoldable pub abort_running : JobRunRecord → JobRunRecord
abort_running r =
    if is_running r.state then record r { state = aborted; detail = some restarted_mid_run } else r

unfoldable pub abort_all : Assoc (List JobRunRecord) → Assoc (List JobRunRecord)
abort_all [] = []
abort_all ((k, rs) ∷ m) = (k, map abort_running rs) ∷ abort_all m

-- The boot-time `hydrate`, on the fresh state of a new process.
unfoldable pub hydrate : Assoc (List JobRunRecord) → JobsState
unfolding abort_all
hydrate snapshot = record { runs = abort_all snapshot; inflight = [] }

verdict_state : Bool → Option ℤ → RunState
verdict_state true exit = timeout
verdict_state false none = failed
verdict_state false (some code) = if is_zero code then succeeded else failed

flush_detail : Bool → Option Detail
flush_detail true = none
flush_detail false = some flush_failed

-- A time-out takes precedence; a failed flush is told in the detail and leaves the state.
unfoldable pub run_verdict : Bool → Option ℤ → Bool → RunState × Option Detail
unfolding verdict_state flush_detail
run_verdict timed_out exit flushed = (verdict_state timed_out exit, flush_detail flushed)

-- `job-<name>-<stamp>`; the stamp is the local time to the second.
unfoldable pub job_branch : String → String → String
job_branch job stamp = str_append "job-" (str_append job (str_append "-" stamp))
