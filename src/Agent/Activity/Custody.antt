-- ===== src/Agent/Activity/Custody.antt =====
-- The custody of the editor's observer in ide-agent/src/activity.rs.
use mathlib.Core.List.{Memᴰ}
use sigiled.Base.{ℕ, ◌≡◌, true, false, none, some, List, is_some}
use sigiled.Agent.Activity.{
  Activity, Observation, is_complete, is_current, overflows, is_unsupported, number_of,
}
use sigiled.Agent.Activity.Served.{Served}

-- A packet that counts as evidence of its observer's editor.
abbrev pub Vouches : Observation → Type 0
Vouches v = (is_current v.observer ≡ true) × (is_complete v ≡ true) × (overflows v ≡ false)

-- What the state keeps of the packets heard.
pub record Custody (seen : List (ℕ × Observation)) (a : Activity) : Type 0 where
  pub required : a.observation_required ≡ true
  pub unbound : a.observer ≡ none → a.sequence ≡ 0
  pub witnessed :
      (at : ℕ)
      → a.observed_at ≡ some at
      → (v : Observation) × Memᴰ (at, v) seen
        × Vouches v
        × (is_unsupported v ≡ a.unsupported)
        × (a.observer ≡ some v.observer)
  pub bound :
      a.conflict ≡ false
      → (at : ℕ) (v : Observation) → Memᴰ (at, v) seen
      → is_some (number_of v) ≡ true
      → a.observer ≡ some v.observer
