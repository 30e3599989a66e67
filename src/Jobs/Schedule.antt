-- ===== src/Jobs/Schedule.antt =====
-- sigiledd/src/jobs.rs, `fires_between` and the scheduler's windows. The `cron` crate is a
-- parameter: whether an expression parses, and its first fire after an instant. Instants are
-- numbers; the loop's ticks are given by the instants at which it wakes.
pub mod Windows
use sigiled.Base.{
  ℕ, String, Bool, true, false, Option, none, some, List, [], ◌∷◌, leb, str_append, if◌then◌else◌,
}

-- What the program uses of the `cron` crate: `none` is an expression that does not parse.
pub record Cron : Type 0 where
  pub next_after : String → Option (ℕ → Option ℕ)

pub data Fires : Type 0 where
  fires : Bool → Fires
  bad_cron : Fires

within : ℕ → Option ℕ → Bool
within to none = false
within to (some t) = leb t to

fires_with : ℕ → ℕ → Option (ℕ → Option ℕ) → Fires
unfolding within
fires_with from to none = bad_cron
fires_with from to (some next) = fires (within to (next from))

unfoldable pub fires_between : Cron → String → ℕ → ℕ → Fires
unfolding fires_with
fires_between c expression from to = fires_with from to (c.next_after (str_append "0 " expression))

-- The ticks of the loop at which the job is triggered: `last` is where the window opens, and the
-- instants are those at which the loop wakes.
pub ticks : Cron → String → ℕ → List ℕ → List Fires
ticks c expression last [] = []
ticks c expression last (now ∷ nows) =
    fires_between c expression last now ∷ ticks c expression now nows
