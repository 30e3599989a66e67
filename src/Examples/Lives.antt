-- ===== src/Examples/Lives.antt =====
-- Runs and instances for sigiledd/src/sessions.rs and sigiledd/src/reaper.rs: one live session of
-- "proj", and an outside that grants everything.
use sigiled.Base.{
  ◌≡◌, ◌⊎◌, refl, String, true, false, none, some, List, [], ◌∷◌, get, adjust, insert, remove,
}
use sigiled.Auth.Policy.{Actor, driver_role, close_session, authorize, requires_approval}
use sigiled.Sessions.Records.{
  SessionRecord, Records, session_container, live_records, active, creating, hydrate_records,
  authorized, handoff_pending, binding_safe, clear_debt, container, mark, push_debt, vm_name,
}
use sigiled.Sessions.World.{
  persist, mint, destroy, World, Outside, ff, ◌>>=◌, get_record, pure, refuse_unless, or_fail, gets,
  ask, ask_for, change_debts, change_records, failure, note, obtain, record_event, reply_with,
  require, some_or_fail, try_persist,
}
use sigiled.Auth.Approvals.{live}
use sigiled.Sessions.Ends.{Sat}
use sigiled.Sessions.Close.{
  Config, close_expected, close_checked, known, close_allowed, require_ownership, accept_outcome,
  begin, close_finished, close_reconciled, drop_branch, flush_record, push_deletion,
  require_destroy, require_flush, require_mirror, settle_outcome,
}
use sigiled.Sessions.Close.Requests.{is_ordered}
use sigiled.Sessions.Close.Order.{close_expected-Ordered}
use sigiled.Sessions.Close.Settles.{Closed, Permit, close_expected-Closed}
use sigiled.Sessions.Recycle.{Provision, recycle, rebind}
use sigiled.Sessions.Sweep.{reap_pass}
use sigiled.Sessions.Sweep.Spared.{Spared, reap_pass-Spared}
use sigiled.Sessions.Open.{open_inner}
use sigiled.Sessions.Open.Ways.{Opens}
use sigiled.Sessions.Open.Allocations.{MayOpen, open_inner-Opens}
use sigiled.Sessions.Recycle.Crashes.{rebind_crash}
use sigiled.Sessions.Recycle.Heirs.{Recycled, MayRecycle}
use sigiled.Sessions.Recycle.Generations.{recycle-Recycled}
use sigiled.Sessions.Reap.{reap}
use sigiled.Sessions.Reap.Idle.{Reaped, MayReap, reap-Reaped}
use sigiled.Sessions.Boot.{hydrate_records-Recovered, Recovered}
use sigiled.Sessions.Orphans.{find_orphan, text_leb}
use sigiled.Sessions.Orphans.Least.{Held, find_orphan-Held}
use sigiled.Sessions.Orphans.Listed.{Exists}

abbrev pub claude : Actor
claude = record { driver = "claude"; role = driver_role; approval = none }

abbrev pub session : SessionRecord
session = record {
  handoff = none;
  session_id = "ab12";
  project = "proj";
  branch = "session/ab12";
  head = "c0ffee";
  stale = false;
  actor = claude;
  token = some "token";
  binding = some (record {
    container = "vm-s-ab12-g0";
    endpoint = "https://api.example/s/s-ab12-g0/";
    generation = 0;
    ide_started = false;
  });
  lifecycle = active;
  generation = 0;
  error = none;
  image = none;
  runtime_owned = true;
}

abbrev records : Records
records = ("ab12", session) ∷ []

abbrev world : World
world = record {
  records = records;
  debts = [];
  events = [];
  disk = record { records = records; debts = []; events = [] };
  trace = [];
}

abbrev granting : Outside
granting = record {
  statuses = λ t. none;
  idles = λ t. some 4000;
  persists = λ t. true;
  ide_finishes = λ t. true;
  flushes = λ t. true;
  destroys = λ t. true;
  mirrors = λ t. true;
  fetches = λ t. true;
  touched = λ t. true;
  merges = λ t. some (ff "beef");
  pushes = λ t. true;
  accepts = λ t. true;
  heads = λ t. some "beef";
  layers = λ t. none;
  images = λ t. some (record { used = "base"; build_error = none });
  creates = λ t. true;
  boots = λ t. some "beef";
  is_healthy = λ t. true;
  mints = λ t. "new token";
  ids = λ t. "ef56";
  branches = λ t. some "session/ab12\norigin/session/cd34\n";
  repos = λ t. true;
  new_branches = λ t. true;
}

abbrev config : Config
config = record { runtime = true; repos_dir = true }

there : get "ab12" records ≡ some session
unfolding get
there = refl

closes : (close_expected granting config claude [] 5 "ab12" none world).1.records ≡ []
unfolding close_expected ◌>>=◌ close_checked get_record known get pure close_allowed refuse_unless
    authorized authorize requires_approval handoff_pending require_ownership or_fail gets
    binding_safe live adjust insert remove accept_outcome begin close_finished close_reconciled
    drop_branch flush_record push_deletion require_destroy require_flush require_mirror
    settle_outcome clear_debt container mark push_debt vm_name ask ask_for change_debts
    change_records failure note obtain record_event reply_with require some_or_fail try_persist
closes = refl

close_expected-Closed_example :
    Sat
      (Closed (Permit claude close_session [] 5 none session) records "ab12" session)
      (λ u v. ⊥)
      (close_expected granting config claude [] 5 "ab12" none world)
close_expected-Closed_example =
    close_expected-Closed granting config records "ab12" session there claude [] 5 none world refl

abbrev site : Provision
site = record { domain = "example"; ide_enabled = λ project. false; incomplete = λ project. false }

recycle-Recycled_example :
    Sat
      (Recycled (MayRecycle claude [] 5 session) true records "ab12" session)
      (λ u v. ⊥)
      (recycle granting config site claude [] 5 "ab12" world)
recycle-Recycled_example =
    recycle-Recycled granting config site records "ab12" session there refl claude [] 5 world refl

reap-Reaped_example :
    Sat
      (Reaped (MayReap (some 0) session) records "ab12" session)
      (λ u v. ⊥)
      (reap granting config "ab12" "idle" (some 0) 3600 world)
reap-Reaped_example =
    reap-Reaped granting config records "ab12" session there (some 0) "idle" 3600 world refl

abbrev half_open : Records
half_open = ("ab12", record session { lifecycle = creating }) ∷ []

hydrate_records-Recovered_example :
    ((get "ab12" (hydrate_records half_open) ≡ none) × (get "ab12" half_open ≡ none))
    ⊎ ((r x : SessionRecord) × (get "ab12" half_open ≡ some r)
        × (get "ab12" (hydrate_records half_open) ≡ some x)
        × Recovered half_open r x)
hydrate_records-Recovered_example = hydrate_records-Recovered half_open "ab12"

abbrev refs : String
refs = "session/ab12\norigin/session/cd34\n"

find_orphan-Held_example :
    ((text b : String) × (some refs ≡ some text)
      × (find_orphan (some refs) "proj" [] records ≡ some b)
      × Exists text b
      × (¬ Held "proj" [] records b)
      × ((c : String) → Exists text c → ¬ Held "proj" [] records c → text_leb b c ≡ true))
    ⊎ ((find_orphan (some refs) "proj" [] records ≡ none)
        × ((text c : String) → some refs ≡ some text → Exists text c → Held "proj" [] records c))
find_orphan-Held_example = find_orphan-Held (some refs) "proj" [] records

picked : find_orphan (some refs) "proj" [] records ≡ some "session/cd34"
unfolding find_orphan sigiled.Git.split_lines sigiled.Base.strip_prefix
    sigiled.Sessions.Orphans.strip_origins sigiled.Sessions.Orphans.trim
    sigiled.Sessions.Orphans.codes_leb sigiled.Sessions.Records.debts_for get
picked = refl

close_expected-Ordered_example :
    Sat
      (λ r w. is_ordered session w.trace ≡ true)
      (λ u v. ⊥)
      (close_expected granting config claude [] 5 "ab12" none world)
unfolding get
close_expected-Ordered_example =
    close_expected-Ordered granting config "ab12" session refl claude [] 5 none world refl refl

rebind_crash_example :
    Sat
      (λ r w. Unit)
      (λ y v.
        (get "ab12" (hydrate_records v.disk.records) ≡ some y)
        × (y.lifecycle ≡ active)
        × (y.generation ≡ 1)
        × (y.token ≡ some "new token")
        × (container y ≡ session_container "ab12" 1)
        × (y.runtime_owned ≡ false)
        × (v.trace ≡ persist true ∷ (mint ∷ (destroy (container session) true ∷ []))))
      (rebind granting config site "ab12" (record session { head = "beef"; generation = 1 }) world)
rebind_crash_example = rebind_crash granting config site "ab12" session "beef" world refl refl

open_inner-Opens_example :
    Sat
      (Opens (MayOpen site claude [] 5 "proj") true records claude "proj" true)
      (λ u v. ⊥)
      (open_inner granting config site claude [] 5 "proj" none true world)
open_inner-Opens_example =
    open_inner-Opens granting config site records claude [] 5 "proj" true none world refl

reap_pass-Spared_example :
    Spared granting config 3600
      (live_records records)
      world
      (reap_pass granting config 3600 world).1.records
      "ab12"
reap_pass-Spared_example = reap_pass-Spared granting config 3600 world "ab12"
