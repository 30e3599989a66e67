-- ===== src/Agent/Activity/Commands.antt =====
-- The set of known commands of ide-agent/src/activity.rs, and the watermark of its packets.
use sigiled.Base.{
  ℕ, ◌≡◌, ◌≢◌, refl, sym, ap, ◌≤◌, inl, inr, String, Bool, true, false, not, ◌&&◌, ◌||◌, Option,
  none, some, List, [], ◌∷◌, arith, leb, is_some, str_eq, eq_iff, if-both, decimal, Option-cases,
  Bool-cases, length, contains, retain, length-retain-le,
}
use sigiled.Agent.Activity.{
  Activity, Observation, ActivityRequest, activity, observe, observe_numbered, observe_newer,
  report_execution, report, busy, is_complete, is_current, overflows, is_another, number_of, is_id,
  run_command, is_action, put_in, take_out, observe_given, are_distinct, is_nil,
}

-- The commands are a set of bounded size.
abbrev pub IsBounded : List String → Type 0
IsBounded xs = (length xs ≤ 4096) × (are_distinct xs ≡ true)

contains-take_out :
    (x y : String) (xs : List String)
    → contains (take_out x xs) y ≡ (contains xs y && not (str_eq y x))
unfolding take_out
contains-take_out x y [] = refl
contains-take_out x y (z ∷ xs) =
    ground (arith, eq_iff z x, eq_iff z y, eq_iff y x, contains-take_out x y xs)

take_out-IsBounded : (x : String) (xs : List String) → IsBounded xs → IsBounded (take_out x xs)
unfolding take_out are_distinct
take_out-IsBounded x xs (small, distinct) =
    (ground (arith, small, length-retain-le (λ y. not (str_eq y x)) xs), go xs distinct)
  where
    go :
        (ys : List String)
        → are_distinct ys ≡ true
        → are_distinct (retain (λ y. not (str_eq y x)) ys) ≡ true
    go [] e = refl
    go (y ∷ ys) e = ground (arith, e, go ys, contains-take_out x y ys)

put_in-IsBounded :
    (x : String) (xs : List String)
    → leb 4096 (length xs) ≡ false
    → IsBounded xs
    → IsBounded (put_in x xs)
unfolding put_in are_distinct
put_in-IsBounded x xs room (small, distinct) =
    if-both IsBounded (contains xs x) (λ e. (small, distinct))
      λ e. (ground (arith, room), ground (arith, e, distinct))

command-IsBounded :
    (event : String) (id : Option String) (now : ℕ) (a : Activity)
    → IsBounded a.commands
    → IsBounded (run_command event id now a).0.commands
command-IsBounded event none now a b = b
command-IsBounded event (some id) now a b =
    if-both P (not (is_id id)) (λ e. b)
      λ e.
        if-both P (str_eq event "command_start")
          (λ e.
            if-both Q (leb 4096 (length a.commands)) (λ e. b)
              λ room. put_in-IsBounded id a.commands room b)
          λ e. if-both Q (contains a.commands id) (λ e. take_out-IsBounded id a.commands b) λ e. b
  where
    P : Activity × Bool → Type 0
    P p = IsBounded p.0.commands

    Q : Activity → Type 0
    Q a = IsBounded a.commands

report_execution-IsBounded :
    (event : String) (id : Option String) (now : ℕ) (a : Activity)
    → IsBounded a.commands
    → IsBounded (report_execution event id now a).0.commands
unfolding report_execution report
report_execution-IsBounded event id now a b =
    if-both P (str_eq event "command_start" || str_eq event "command_end")
      (λ e. command-IsBounded event id now a b) λ e. if-both P (is_action event) (λ e. b) λ e. b
  where
    P : Activity × Bool → Type 0
    P p = IsBounded p.0.commands

observe-IsBounded :
    (v : Observation) (now : ℕ) (a : Activity)
    → IsBounded a.commands
    → IsBounded (observe v now a).0.commands
unfolding observe observe_numbered observe_newer is_complete
observe-IsBounded v now a b = elim (Option-cases (number_of v)) [
  | inl bad ↦ rw bad b
  | inr (n, good) ↦ rw good (
      if-both P (is_another a.observer v.observer) (λ e. b)
        λ e.
          if-both P (a.conflict || leb n a.sequence) (λ e. b)
            λ e.
              if-both P (not (is_current v.observer)) (λ e. b)
                λ e.
                  if-both P (not (is_complete v)) (λ e. b)
                    λ whole.
                      if-both P (overflows v) (λ e. b)
                        λ e. (ground (arith, whole), ground (arith, whole)))
]
  where
    P : Activity × Bool → Type 0
    P p = IsBounded p.0.commands

-- Whatever the request, the agent never knows more than 4096 commands, nor one twice.
pub activity-IsBounded :
    (generation : ℕ) (r : ActivityRequest) (now : ℕ) (a : Activity)
    → IsBounded a.commands
    → IsBounded (activity generation r now a).0.commands
unfolding activity
activity-IsBounded generation r now a b =
    elim (Bool-cases (str_eq r.generation (decimal generation))) [
      | inr other ↦ rw other b
      | inl ours ↦ elim (Bool-cases (str_eq r.event "observation")) [
        | inl packet ↦ rw (ours, packet) (given r.observation)
        | inr event ↦ rw (ours, event) (report_execution-IsBounded r.event r.execution_id now a b)
      ]
    ]
  where
    given : (v : Option Observation) → IsBounded (observe_given v now a).0.commands
    given none = b
    given (some v) = observe-IsBounded v now a b

contains-is_nil : (id : String) (xs : List String) → contains xs id ≡ true → is_nil xs ≡ false
contains-is_nil id [] e = ground (arith, e)
contains-is_nil id (x ∷ xs) e = refl

known_busy :
    (id : String) (later : ℕ) (a : Activity) → contains a.commands id ≡ true → busy a later ≡ true
unfolding busy
known_busy id later a e = ground (arith, contains-is_nil id a.commands e)

contains-put_in :
    (x y : String) (xs : List String) → contains xs y ≡ true → contains (put_in x xs) y ≡ true
unfolding put_in
contains-put_in x y xs e = ground (arith, e)

run_command_known :
    (id : String) (event : String) (x : Option String) (now : ℕ) (a : Activity)
    → contains a.commands id ≡ true
    → (x ≡ some id → str_eq event "command_start" ≡ true)
    → contains (run_command event x now a).0.commands id ≡ true
run_command_known id event none now a known other = known
run_command_known id event (some i) now a known other =
    if-both P (not (is_id i)) (λ e. known)
      λ e.
        if-both P (str_eq event "command_start")
          (λ e.
            if-both Q (leb 4096 (length a.commands)) (λ e. known)
              λ e. contains-put_in i id a.commands known)
          λ ends.
            if-both Q (contains a.commands i)
              (λ e.
                ground
                  (arith, known, contains-take_out i id a.commands, eq_iff id i, different ends))
              λ e. known
  where
    P : Activity × Bool → Type 0
    P p = contains p.0.commands id ≡ true

    Q : Activity → Type 0
    Q a = contains a.commands id ≡ true

    different : str_eq event "command_start" ≡ false → id ≢ i
    different ends e = ground (arith, ends, other (ap some (sym e)))

-- A command that the agent knows keeps it busy, through whatever the editor then reports of
-- actions or of commands, other than the end of that very command.
pub report_execution-busy :
    (id : String) (event : String) (x : Option String) (now later : ℕ) (a : Activity)
    → contains a.commands id ≡ true
    → (x ≡ some id → str_eq event "command_end" ≡ false)
    → (contains (report_execution event x now a).0.commands id ≡ true)
      × (busy (report_execution event x now a).0 later ≡ true)
unfolding report_execution report
report_execution-busy id event x now later a known other = (still, known_busy id later _ still)
  where
    P : Activity × Bool → Type 0
    P p = contains p.0.commands id ≡ true

    still : P (report_execution event x now a)
    still =
        if-both P (str_eq event "command_start" || str_eq event "command_end")
          (λ e. run_command_known id event x now a known (λ s. ground (arith, e, other s)))
          λ e. if-both P (is_action event) (λ e. known) λ e. known

observe_numbered-sequence :
    (v : Observation) (now : ℕ) (a : Activity) (n : ℕ)
    → n ≤ a.sequence
    → ((observe_numbered v now a n).1 ≡ false)
      × ((observe_numbered v now a n).0
          ≡ record a { conflict = a.conflict || is_another a.observer v.observer })
unfolding observe_numbered
observe_numbered-sequence v now a n old =
    if-both P (is_another a.observer v.observer)
      (λ other. (refl, ap marked (ground (arith, other))))
      λ same.
        if-both P (a.conflict || leb n a.sequence) (λ e. (refl, ap marked (ground (arith, same))))
          λ new. absurd (ground (arith, new, old))
  where
    marked : Bool → Activity
    marked c = record a { conflict = c }

    P : Activity × Bool → Type 0
    P r = (r.1 ≡ false) × (r.0 ≡ marked (a.conflict || is_another a.observer v.observer))

-- A packet that has no proper observer or number, or whose number is not above the watermark, is
-- refused, and changes nothing but that a proper packet of another observer marks the conflict.
pub observe-sequence :
    (v : Observation) (now : ℕ) (a : Activity)
    → ((n : ℕ) → number_of v ≡ some n → n ≤ a.sequence)
    → ((observe v now a).1 ≡ false)
      × ((observe v now a).0 ≡ record a {
        conflict = a.conflict || (is_some (number_of v) && is_another a.observer v.observer);
      })
unfolding observe
observe-sequence v now a old = elim (Option-cases (number_of v)) [
  | inl bad ↦ rw bad (refl, ap marked (ground arith))
  | inr (n, good) ↦ rw good (observe_numbered-sequence v now a n (old n good))
]
  where
    marked : Bool → Activity
    marked c = record a { conflict = c }
