-- ===== src/Sessions/Sweep.antt =====
-- sigiledd/src/reaper.rs, `reap_pass`: one sweep over the live sessions.
pub mod Spared
use sigiled.Base.{
  ℕ, suc, ◌+◌, String, Bool, true, false, Option, none, some, List, [], ◌∷◌, leb, if◌then◌else◌,
  str_append, decimal,
}
use sigiled.Sessions.Records.{SessionRecord, container, live_records}
use sigiled.Sessions.World.{
  World, Response, reaped, Step, go, reply, Handler, pure, ◌>>=◌, Outside, agent_idle, ask_for,
}
use sigiled.Sessions.Close.{Config}
use sigiled.Sessions.Reap.{idle_record, reap}

module _ (out : Outside) (cfg : Config) where
  abbrev measure_from : SessionRecord → Option ℕ → Handler (Option ℕ)
  measure_from r none = pure none
  measure_from r (some idle) = idle_record out cfg r idle

  -- How long a session has been idle: none where the agent or the provider does not tell.
  unfoldable pub measure : SessionRecord → Handler (Option ℕ)
  measure r = ask_for out.idles (agent_idle (container r)) >>= measure_from r

  abbrev is_reaped : Step (Unit {0}) → Bool
  is_reaped (go u) = false
  is_reaped (reply reaped) = true
  is_reaped (reply other) = false

  abbrev pub reason : ℕ → String
  reason idle = str_append "idle " (str_append (decimal idle) "s")

  -- The sessions reaped by a reaping, zero or one, and the state it leaves.
  abbrev pub counted : Step (Unit {0}) × World → ℕ × World
  counted (s, w) = (if is_reaped s then 1 else 0, w)

  abbrev pub judge : ℕ → SessionRecord → Step (Option ℕ) × World → ℕ × World
  judge idle_max r (go none, w) = (0, w)
  judge idle_max r (go (some idle), w) =
      let taken =
        counted (reap out cfg r.session_id (reason idle) (some r.generation) idle_max w) in
      if leb idle_max idle then taken else (0, w)
  judge idle_max r (reply other, w) = (0, w)

  abbrev pub visit_from : ℕ → SessionRecord → Option String → World → ℕ × World
  visit_from idle_max r none w = (0, w)
  visit_from idle_max r (some token) w = judge idle_max r (measure r w)

  abbrev pub visit : ℕ → SessionRecord → World → ℕ × World
  visit idle_max r w = visit_from idle_max r r.token w

  unfoldable pub sweep : ℕ → List SessionRecord → World → ℕ × World
  sweep idle_max [] w = (0, w)
  sweep idle_max (r ∷ rs) w =
      let (n, v) = visit idle_max r w in let (m, u) = sweep idle_max rs v in (n + m, u)

  unfoldable pub reap_pass : ℕ → World → ℕ × World
  reap_pass idle_max w = if cfg.runtime then sweep idle_max (live_records w.records) w else (0, w)
