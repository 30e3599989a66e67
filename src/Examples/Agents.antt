-- ===== src/Examples/Agents.antt =====
-- Runs and instances for ide-agent/src/activity.rs and ide-agent/src/durable.rs: an editor that has
-- sent one packet, and a repository with one saved change.
use sigiled.Base.{
  ℕ, ◌≡◌, refl, sym, ap, ◌∙◌, ◌<◌, ◌||◌, ◌&&◌, String, Bool, true, false, Option, none, some, List,
  [], ◌∷◌, arith, str_eq, contains, if◌then◌else◌,
}
use sigiled.Routine.{Gives, ok}
use sigiled.Agent.Activity.{
  Activity, Observation, ActivityRequest, default, require_observation, activity, busy, is_another,
  report_execution, are_distinct,
}
use sigiled.Agent.Activity.Served.{Served, heard}
use sigiled.Agent.Activity.Commands.{IsBounded, activity-IsBounded, report_execution-busy}
use sigiled.Agent.Durable.{Repository, Outside, Requests, checkpoint_mode}
use sigiled.Agent.Durable.Steps.{Proper}
use sigiled.Agent.Durable.Pushes.{Pushed, checkpoint_mode-Pushed}

abbrev packet : Observation
packet = record {
  observer = "v3:editor-1";
  sequence = "1";
  terminals = record { id = "terminal-1"; integrated = true } ∷ [];
  executions = [];
  event = none;
}

abbrev report : ActivityRequest
report = record {
  generation = "0";
  event = "observation";
  execution_id = none;
  observation = some packet;
}

-- Ten seconds behind the start, and fifteen, in nanoseconds.
abbrev then_heard : ℕ
then_heard = 10000000000

abbrev later : ℕ
later = 15000000000

abbrev seen : List (ℕ × Observation)
seen = heard 0 report then_heard []

abbrev state : Activity
state = (activity 0 report then_heard (require_observation (default 0))).0

abbrev reached : Served 0 seen state
reached = Served.next (Served.start (default 0)) report then_heard

abbrev running : Activity
running = record (default 0) { commands = "build:1" ∷ [] }

none_twice : are_distinct (default 0).commands ≡ true
unfolding are_distinct
none_twice = refl

activity-IsBounded_example : IsBounded (activity 0 report then_heard (default 0)).0.commands
activity-IsBounded_example =
    activity-IsBounded 0 report then_heard (default 0) (omega arith, none_twice)

abbrev names_build : Option String → Bool
names_build none = true
names_build (some x) = str_eq x "build:1"

abbrev other_build : Option String
other_build = some "build:2"

abbrev this_build : Option String
this_build = some "build:1"

another : other_build ≡ this_build → ⊥
another e = absurd (ground (arith, ap names_build e))

report_execution-busy_example :
    (contains (report_execution "command_end" (some "build:2") 7 running).0.commands "build:1"
      ≡ true)
    × (busy (report_execution "command_end" (some "build:2") 7 running).0 later ≡ true)
report_execution-busy_example =
    report_execution-busy "build:1" "command_end" (some "build:2") 7 later running refl
      λ e. absurd (another e)

abbrev repository : Repository
repository = record { branch = "session/ab12"; remote = "git@example:proj.git" }

-- A repository at one commit, with nothing to commit.
abbrev answers : List String → Requests → Option String
answers [] t = none
answers (verb ∷ args) t =
    if str_eq verb "symbolic-ref"
    then some "session/ab12"
    else if str_eq verb "remote"
    then some "git@example:proj.git"
    else if str_eq verb "rev-parse"
    then some "c0ffee"
    else some ""

abbrev clean : Outside
clean = record {
  lock_answer = λ t. some true;
  exists_answer = λ name t. false;
  git_answer = answers;
}

checkpoint_mode-Pushed_example :
    Gives
      (λ head u. Pushed clean repository true head u × Proper clean repository u)
      (Proper clean repository)
      (checkpoint_mode clean repository true true [])
checkpoint_mode-Pushed_example =
    checkpoint_mode-Pushed clean repository true true [] Proper.none_yet

checkpoint_answer : (checkpoint_mode clean repository true true []).0 ≡ ok "c0ffee"
unfolding checkpoint_mode sigiled.Routine.◌>>=◌ sigiled.Agent.Durable.lock
    sigiled.Agent.Durable.validate sigiled.Routine.fail_unless sigiled.Base.strip_prefix
    sigiled.Routine.pure sigiled.Agent.Durable.require_absent sigiled.Agent.Durable.expect
    sigiled.Agent.Durable.run_git sigiled.Agent.Durable.commit_if_dirty
    sigiled.Agent.Durable.push_head sigiled.Agent.Durable.validate_at
    sigiled.Agent.Durable.require_cleanliness
checkpoint_answer = refl
