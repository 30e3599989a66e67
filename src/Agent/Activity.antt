-- ===== src/Agent/Activity.antt =====
-- ide-agent/src/activity.rs, the agent's record of what the editor's user does, with the handler
-- `activity` and the reply of `status` of ide-agent/src/main.rs. An `Instant` is a number of
-- nanoseconds, and the instant of each call is an argument. A `HashSet` is a list without
-- repetitions.
pub mod Served
pub mod Custody
pub mod Commands
pub mod Lease
use Prim.Native.Nat.{◌/◌}
use Prim.Native.Char.{code}
use sigiled.Base.{
  ℕ, zero, suc, ◌+◌, ◌*◌, ◌-◌, ◌^◌, String, Bool, true, false, not, ◌&&◌, ◌||◌, Option, none, some,
  List, [], ◌∷◌, ◌==◌, ltb, leb, if◌then◌else◌, is_none, is_some, str_append, str_eq, codes, all,
  any, length, retain, contains, strip_prefix, decimal, map,
}
use sigiled.Sessions.World.{ProviderStatus}

pub record Activity : Type 0 where
  pub last : ℕ
  pub commands : List String
  pub uncertain : Bool
  pub observation_required : Bool
  pub observer : Option String
  pub sequence : ℕ
  pub observed_at : Option ℕ
  pub unsupported : Bool
  pub conflict : Bool
  pub incomplete : Bool

pub record Terminal : Type 0 where
  pub id : String
  pub integrated : Bool

pub record Observation : Type 0 where
  pub observer : String
  pub sequence : String
  pub terminals : List Terminal
  pub executions : List String
  pub event : Option String

abbrev pub default : ℕ → Activity
default now = record {
  last = now;
  commands = [];
  uncertain = false;
  observation_required = false;
  observer = none;
  sequence = 0;
  observed_at = none;
  unsupported = false;
  conflict = false;
  incomplete = false;
}

unfoldable pub require_observation : Activity → Activity
require_observation a = record a {
  observation_required = true;
  observer = none;
  observed_at = none;
  sequence = 0;
  conflict = false;
  incomplete = false;
}

unfoldable pub stopped : Activity → Activity
stopped a = record a { observation_required = false; commands = [] }

-- `elapsed().as_secs()`.
unfoldable pub elapsed_secs : ℕ → ℕ → ℕ
elapsed_secs at now = (now - at) / 1000000000

pub data Report : Type 0 where
  not_required : Report
  conflict : Report
  incomplete : Report
  missing : Report
  stale : Report
  unsupported : Report
  ready : Report

abbrev since : Option ℕ → Bool → ℕ → Report
since none foreign now = Report.missing
since (some at) foreign now =
    if leb 10 (elapsed_secs at now)
    then Report.stale
    else if foreign
    then Report.unsupported
    else Report.ready

unfoldable pub observation : Activity → ℕ → Report
observation a now =
    if not a.observation_required
    then Report.not_required
    else if a.conflict
    then Report.conflict
    else if a.incomplete
    then Report.incomplete
    else since a.observed_at a.unsupported now

abbrev pub is_assured : Report → Bool
is_assured Report.not_required = true
is_assured Report.ready = true
is_assured _ = false

abbrev pub is_nil {ℓ} : {A : Type ℓ} → List A → Bool
is_nil [] = true
is_nil (x ∷ xs) = false

unfoldable pub busy : Activity → ℕ → Bool
busy a now = a.uncertain || not (is_nil a.commands) || not (is_assured (observation a now))

unfoldable pub idle_secs : Activity → ℕ → ℕ
idle_secs a now = elapsed_secs a.last now

abbrev is_digit : ℕ → Bool
is_digit c = leb b'0' c && leb c b'9'

abbrev is_id_char : ℕ → Bool
is_id_char c =
    is_digit c || (leb b'a' c && leb c b'z') || (leb b'A' c && leb c b'Z') || c == b'-' || c == b':'

-- The test of an identifier. A text whose characters all pass is ASCII, so that its code points
-- are its bytes.
unfoldable pub is_id : String → Bool
is_id s = not (str_eq s "") && leb (length (codes s)) 128 && all (codes s) is_id_char

-- The value of decimal digits behind a value; none at another character.
unfoldable pub digits_from : ℕ → List ℕ → Option ℕ
digits_from n [] = some n
digits_from n (c ∷ cs) =
    let rest = digits_from (n * 10 + (c - b'0')) cs in if is_digit c then rest else none

abbrev pub below : ℕ → Option ℕ → Option ℕ
below bound none = none
below bound (some n) = if ltb n bound then some n else none

unfoldable pub unsigned : List ℕ → Option ℕ
unsigned [] = none
unsigned (c ∷ cs) = below (2 ^ 64) (digits_from 0 (c ∷ cs))

-- `str::parse::<u64>`, which takes a leading plus sign.
abbrev pub parse_from : List ℕ → Option ℕ
parse_from [] = none
parse_from (c ∷ cs) =
    let plain = unsigned (c ∷ cs) in let rest = unsigned cs in if c == b'+' then rest else plain

abbrev pub canonical : String → Option ℕ → Option ℕ
canonical text none = none
canonical text (some n) = if str_eq (decimal n) text && not (n == 0) then some n else none

-- The number of a packet, which is written without a sign or leading zeros.
unfoldable pub sequence_of : String → Option ℕ
sequence_of text = canonical text (parse_from (codes text))

abbrev pub is_another : Option String → String → Bool
is_another none o = false
is_another (some p) o = not (str_eq p o)

unfoldable pub are_distinct : List String → Bool
are_distinct [] = true
are_distinct (x ∷ xs) = not (contains xs x) && are_distinct xs

abbrev is_event : Option String → Bool
is_event none = true
is_event (some e) = str_eq e "command_start" || str_eq e "command_end"

abbrev terminal_ids : List Terminal → List String
terminal_ids ts = map (λ t. t.id) ts

-- The tests that make a packet of the current version complete.
unfoldable pub is_complete : Observation → Bool
is_complete v =
    leb (length v.terminals) 256
    && leb (length v.executions) 4096
    && all (terminal_ids v.terminals) is_id
    && all v.executions is_id
    && is_event v.event
    && are_distinct (terminal_ids v.terminals)
    && are_distinct v.executions

unfoldable pub overflows : Observation → Bool
overflows v = any v.terminals (λ t. str_eq t.id "observation-overflow")

unfoldable pub is_unsupported : Observation → Bool
is_unsupported v = any v.terminals (λ t. not t.integrated)

unfoldable pub is_current : String → Bool
is_current observer = is_some (strip_prefix "v3:" observer)

-- `observe` from the place where the packet is newer evidence of the bound observer.
unfoldable pub observe_newer : Observation → ℕ → Activity → Activity × Bool
observe_newer v now a =
    if not (is_current v.observer)
    then (record a { incomplete = true }, false)
    else if not (is_complete v)
    then (record a { incomplete = true }, false)
    else if overflows v
    then (record a { incomplete = true }, true)
    else (
      record a {
        incomplete = false;
        observed_at = some now;
        unsupported = is_unsupported v;
        commands = v.executions;
        last = if is_some v.event then now else a.last;
      },
      true,
    )

unfoldable pub observe_numbered : Observation → ℕ → Activity → ℕ → Activity × Bool
observe_numbered v now a n =
    if is_another a.observer v.observer
    then (record a { conflict = true }, false)
    else if a.conflict || leb n a.sequence
    then (a, false)
    else observe_newer v now (record a { observer = some v.observer; sequence = n })

abbrev pub number_of : Observation → Option ℕ
number_of v = if is_id v.observer then sequence_of v.sequence else none

abbrev observe_if : Observation → ℕ → Activity → Option ℕ → Activity × Bool
observe_if v now a none = (a, false)
observe_if v now a (some n) = observe_numbered v now a n

unfoldable pub observe : Observation → ℕ → Activity → Activity × Bool
observe v now a = observe_if v now a (number_of v)

abbrev pub is_action : String → Bool
is_action event = str_eq event "edit" || str_eq event "save" || str_eq event "selection"

unfoldable pub report : String → ℕ → Activity → Activity × Bool
report event now a = if is_action event then (record a { last = now }, true) else (a, false)

-- `HashSet::remove`.
unfoldable pub take_out : String → List String → List String
take_out x xs = retain (λ y. not (str_eq y x)) xs

-- `HashSet::insert`.
unfoldable pub put_in : String → List String → List String
put_in x xs = if contains xs x then xs else x ∷ xs

abbrev command_start : String → ℕ → Activity → Activity
command_start id now a =
    if leb 4096 (length a.commands)
    then record a { last = now; uncertain = true }
    else record a { last = now; commands = put_in id a.commands }

abbrev command_end : String → ℕ → Activity → Activity
command_end id now a =
    if contains a.commands id then record a { last = now; commands = take_out id a.commands } else a

abbrev run_command : String → Option String → ℕ → Activity → Activity × Bool
run_command event none now a = (a, false)
run_command event (some id) now a =
    if not (is_id id)
    then (a, false)
    else if str_eq event "command_start"
    then (command_start id now a, true)
    else (command_end id now a, true)

unfoldable pub report_execution : String → Option String → ℕ → Activity → Activity × Bool
report_execution event id now a =
    if str_eq event "command_start" || str_eq event "command_end"
    then run_command event id now a
    else report event now a

pub record ActivityRequest : Type 0 where
  pub generation : String
  pub event : String
  pub execution_id : Option String
  pub observation : Option Observation

abbrev pub observe_given : Option Observation → ℕ → Activity → Activity × Bool
observe_given none now a = (a, false)
observe_given (some v) now a = observe v now a

-- The handler `activity`: none is its reply CONFLICT, some its verdict on the request.
unfoldable pub activity : ℕ → ActivityRequest → ℕ → Activity → Activity × Option Bool
activity generation r now a =
    if not (str_eq r.generation (decimal generation))
    then (a, none)
    else if str_eq r.event "observation"
    then told (observe_given r.observation now a)
    else told (report_execution r.event r.execution_id now a)
  where
    told : Activity × Bool → Activity × Option Bool
    told p = (p.0, some p.1)

abbrev name_of : Report → String
name_of Report.not_required = "not_required"
name_of Report.conflict = "conflict"
name_of Report.incomplete = "incomplete"
name_of Report.missing = "missing"
name_of Report.stale = "stale"
name_of Report.unsupported = "unsupported"
name_of Report.ready = "ready"

-- What the reply of `status` tells of the activity.
unfoldable pub status : ℕ → Bool → Activity → ℕ → ProviderStatus
status generation checkpoint_busy a now = record {
  generation = some generation;
  contract = some "terminal-observation-v4";
  observation = some (name_of (observation a now));
  busy = some (busy a now || checkpoint_busy);
  idle_secs = some (idle_secs a now);
}
