-- ===== src/Sessions/Reap.antt =====
-- sigiledd/src/reaper.rs, `reap_generation_min`, and sigiledd/src/ide.rs, `idle_record`. Seconds
-- are machine integers of 64 bits, which are compared and never added here.
pub mod Idle
use sigiled.Base.{
  ℕ, String, Bool, true, false, not, ◌&&◌, ◌||◌, Option, none, some, ◌==◌, leb, ltb, if◌then◌else◌,
  is_some, is_none, str_eq, remove,
}
use sigiled.Sessions.Records.{
  SessionRecord, Lifecycle, active, closing, Failure, flush_failed, cleanup_failed, handoff_pending,
  container, is_active, u64_max,
}
use sigiled.Sessions.World.{
  World, skipped, reaped, Handler, pure, reply_with, ◌>>=◌, ◌>>◌, Outside, ProviderStatus, status,
  ask, ask_for, get_record, change_records, record_event, session_reaped, try_persist, or_fail,
  require, refuse_unless, destroy,
}
use sigiled.Sessions.Close.{Config, ide_started, flush_record, require_ownership, begin}

abbrev same_text : Option String → String → Bool
same_text none s = false
same_text (some t) s = str_eq t s

unfoldable pub observation_authority : ProviderStatus → Bool
observation_authority s =
    same_text s.contract "terminal-observation-v4"
    && (same_text s.observation "ready" || same_text s.observation "not_required")

abbrev is_generation : Option ℕ → ℕ → Bool
is_generation none g = false
is_generation (some h) g = h == g

abbrev is_busy : Option Bool → Bool
is_busy none = false
is_busy (some b) = b

-- What `idle_record` makes of the provider's status.
unfoldable pub idle_of : SessionRecord → ℕ → Option ProviderStatus → Option ℕ
idle_of r agent_idle none = none
idle_of r agent_idle (some s) =
    if not (is_generation s.generation r.generation)
    then none
    else if not (observation_authority s)
    then none
    else if is_busy s.busy
    then some 0
    else elim s.idle_secs [
      | none ↦ none
      | some i ↦ some (if ltb i agent_idle then i else agent_idle)
    ]

abbrev pub expectation_met : Option ℕ → SessionRecord → Bool
expectation_met none r = true
expectation_met (some g) r = g == r.generation && is_active r.lifecycle

abbrev pub is_idle : Option ℕ → ℕ → Bool
is_idle none minimum = false
is_idle (some idle) minimum = leb minimum idle

unfoldable pub found_or_skip : Option SessionRecord → Handler SessionRecord
found_or_skip none = reply_with skipped
found_or_skip (some r) = pure r

module _ (out : Outside) (cfg : Config) where
  unfoldable pub idle_record : SessionRecord → ℕ → Handler (Option ℕ)
  idle_record r agent_idle =
      if not (ide_started r)
      then pure (some agent_idle)
      else ask_for out.statuses (status (container r)) >>= λ s. pure (idle_of r agent_idle s)

  unfoldable pub require_idle : Option ℕ → ℕ → SessionRecord → Handler (Unit {0})
  require_idle expected minimum r =
      if is_some expected
      then (do idle ← idle_record r u64_max; refuse_unless (is_idle idle minimum) skipped)
      else pure tt

  unfoldable pub take_down : String → SessionRecord → Handler (Unit {0})
  take_down id r =
      if cfg.runtime
      then (do
        or_fail out id flush_failed (is_some r.token)
        require out id flush_failed (flush_record out cfg r)
        require out id cleanup_failed (ask out.destroys (destroy (container r))))
      else pure tt

  unfoldable pub reap_found : String → String → Option ℕ → ℕ → SessionRecord → Handler (Unit {0})
  reap_found id reason expected minimum r = do
    refuse_unless (expectation_met expected r) skipped
    refuse_unless (not (handoff_pending r)) skipped
    require_ownership out cfg id r
    require_idle expected minimum r
    begin out cfg id closing
    take_down id r
    change_records (remove id)
    record_event r.project (session_reaped id r.branch)
    try_persist out
    reply_with reaped

  -- `reap_generation_min`: `reaped` is the code's `true`, any other reply its `false`.
  unfoldable pub reap : String → String → Option ℕ → ℕ → Handler (Unit {0})
  reap id reason expected minimum = do
    found ← get_record id
    r ← found_or_skip found
    reap_found id reason expected minimum r
