-- ===== src/Agent/Activity/Served.antt =====
-- The requests that the handler `activity` of ide-agent/src/main.rs serves from the editor's start
-- on, in any order and at any instants.
use sigiled.Base.{ℕ, not, Option, none, some, List, [], ◌∷◌, ◌++◌, if◌then◌else◌, str_eq, decimal}
use sigiled.Agent.Activity.{Activity, Observation, ActivityRequest, require_observation, activity}

abbrev pub given : ℕ → Option Observation → List (ℕ × Observation)
given now none = []
given now (some v) = (now, v) ∷ []

-- The packets that a request puts before the ones heard so far.
unfoldable pub heard : ℕ → ActivityRequest → ℕ → List (ℕ × Observation) → List (ℕ × Observation)
heard generation r now seen =
    if not (str_eq r.generation (decimal generation))
    then seen
    else if str_eq r.event "observation"
    then given now r.observation ++ seen
    else seen

-- A state that the agent reaches from the editor's start, with the packets heard since.
pub data Served (generation : ℕ) : List (ℕ × Observation) → Activity → Type 0 where
  start : (a : Activity) → Served generation [] (require_observation a)
  next :
      {seen : List (ℕ × Observation)} {a : Activity}
      → Served generation seen a
      → (r : ActivityRequest) (now : ℕ)
      → Served generation (heard generation r now seen) (activity generation r now a).0
