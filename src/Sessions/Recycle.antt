-- ===== src/Sessions/Recycle.antt =====
-- sigiledd/src/sessions.rs, `recycle`, in its parts: the checks up to the durable `recycling`
-- mark, the former generation's reconciliation, the new container, and the reply. Also
-- sigiledd/src/ide.rs, `prepare_layer`. Generations are machine integers of 64 bits.
pub mod Heirs
pub mod Generations
pub mod Crashes
use sigiled.Base.{
  ℕ, ◌+◌, String, Bool, true, false, not, ◌&&◌, ◌||◌, Option, none, some, ltb, if◌then◌else◌,
  is_some, str_append, decimal,
}
use sigiled.Auth.Policy.{Actor, Action, recycle as recycle_action}
use sigiled.Auth.Approvals.{ApprovalStore}
use sigiled.Sessions.Records.{
  SessionRecord, WorkspaceBinding, Lifecycle, active, recycling, Failure, generation_exhausted,
  fetch_failed, boot_failed, cleanup_failed, persist_failed, create_failed, handoff_pending,
  container, session_container, authorized, put, u64_max,
}
use sigiled.Sessions.World.{
  World, forbidden, conflict, recycled, Handler, pure, reply_with, ◌>>=◌, ◌>>◌, Outside,
  ImageChoice, rev_parse, prepare_image, ide_layer, destroy, create, healthy, boot,
  session_recycled, ask, ask_for, get_record, change_records, record_event, try_persist, mint_token,
  or_fail, require, obtain, refuse_unless,
}
use sigiled.Sessions.Close.{Config, known, require_ownership, require_flush, require_mirror, begin}

-- The domain of the endpoints, the projects whose declaration enables the IDE, and those whose
-- creation is not complete.
pub record Provision : Type 0 where
  pub domain : String
  pub ide_enabled : String → Bool
  pub incomplete : String → Bool

module _ (out : Outside) (cfg : Config) (site : Provision) where
  unfoldable pub session_endpoint : String → ℕ → String
  session_endpoint id generation = str_append "https://api." (
      str_append site.domain (
        str_append "/s/s-" (str_append id (str_append "-g" (str_append (decimal generation) "/")))))

  unfoldable pub recycle_allowed :
      Actor → ApprovalStore → ℕ → String → SessionRecord → Handler SessionRecord
  recycle_allowed actor approvals now id r = do
    refuse_unless (authorized actor r recycle_action approvals now) forbidden
    refuse_unless (not (handoff_pending r)) conflict
    require_ownership out cfg id r
    or_fail out id generation_exhausted (ltb r.generation u64_max)
    begin out cfg id recycling
    pure r

  -- The head of the branch, after the former container's work is on it.
  unfoldable pub recycle_reconciled : String → SessionRecord → Handler SessionRecord
  recycle_reconciled id r = do
    require_flush out cfg id r
    require_mirror out cfg id r
    head ← obtain out id fetch_failed (ask_for out.heads (rev_parse r.branch))
    pure (record r { head = head; generation = r.generation + 1 })

  -- `prepare_layer`.
  unfoldable pub prepare_layer : Bool → String → ImageChoice → Handler ImageChoice
  prepare_layer enabled name choice =
      if not enabled || is_some choice.build_error
      then pure choice
      else ask_for out.layers (ide_layer name) >>= λ layer.
          pure (elim layer [ none ↦ choice | some image ↦ record choice { used = image } ])

  -- A `put` whose snapshot must reach the disk.
  unfoldable pub put_durably : String → SessionRecord → Handler (Unit {0})
  put_durably id r = do change_records (put r); require out id persist_failed (try_persist out)

  abbrev pub rebound : String → String → SessionRecord → SessionRecord
  rebound id token r = record r {
    binding = some (record {
      container = session_container id r.generation;
      endpoint = session_endpoint id r.generation;
      generation = r.generation;
      ide_started = false;
    });
    token = some token;
    runtime_owned = false;
  }

  -- The former container is gone; the next binding and token are durable before they are used.
  unfoldable pub rebind : String → SessionRecord → Handler SessionRecord
  rebind id r = do
    require out id cleanup_failed (ask out.destroys (destroy (container r)))
    token ← mint_token out
    put_durably id (rebound id token r)
    pure (rebound id token r)

  unfoldable pub choose_image : String → ImageChoice → SessionRecord → Handler SessionRecord
  choose_image id first r = do
    choice ← prepare_layer (site.ide_enabled r.project) first.used first
    put_durably id
        (record r { image = some choice.used; runtime_owned = false; lifecycle = recycling })
    pure (record r { image = some choice.used; runtime_owned = false; lifecycle = recycling })

  abbrev or_empty : Option String → String
  or_empty none = ""
  or_empty (some s) = s

  unfoldable pub start_container : String → SessionRecord → Handler SessionRecord
  start_container id r = do
    require out id create_failed (ask out.creates (create (container r) (or_empty r.image)))
    put_durably id (record r { runtime_owned = true })
    require out id boot_failed (ask out.is_healthy (healthy (container r)))
    head ← obtain out id boot_failed (ask_for out.boots (boot (container r) r.branch))
    pure (record r { runtime_owned = true; head = head })

  unfoldable pub replace_container : String → SessionRecord → Handler SessionRecord
  replace_container id r =
      if cfg.runtime
      then (do
        choice ← obtain out id boot_failed (ask_for out.images (prepare_image r.project))
        bound ← rebind id r
        chosen ← choose_image id choice bound
        start_container id chosen)
      else pure r

  unfoldable pub recycle_finished : String → SessionRecord → Handler (Unit {0})
  recycle_finished id r = do
    change_records (put (record r { lifecycle = active; error = none }))
    record_event r.project (session_recycled id r.head)
    require out id persist_failed (try_persist out)
    reply_with (recycled (record r { lifecycle = active; error = none }))

  unfoldable pub recycle_found : String → SessionRecord → Handler (Unit {0})
  recycle_found id r = do
    next ← recycle_reconciled id r
    renewed ← replace_container id next
    recycle_finished id renewed

  -- The handler `recycle`.
  unfoldable pub recycle : Actor → ApprovalStore → ℕ → String → Handler (Unit {0})
  recycle actor approvals now id = do
    found ← get_record id
    r ← known found
    allowed ← recycle_allowed actor approvals now id r
    recycle_found id allowed
