-- ===== src/Sessions/Close.antt =====
-- sigiledd/src/sessions.rs, `close_expected`, in its three parts: the checks up to the durable
-- `closing` mark, the reconciliation up to the durable outcome, and the clean-up. Also the parts
-- that it shares with `recycle`, and sigiledd/src/ide.rs, `flush_record`.
pub mod Keeps
pub mod Settles
pub mod Requests
pub mod Checks
pub mod Order
use sigiled.Base.{
  ℕ, String, Bool, true, false, not, ◌&&◌, ◌||◌, Option, none, some, ◌==◌, if◌then◌else◌,
  str_append, is_some, is_none, get, remove,
}
use sigiled.Auth.Policy.{Actor, Action, close_session}
use sigiled.Auth.Approvals.{ApprovalStore}
use sigiled.Sessions.Records.{
  SessionRecord, WorkspaceBinding, MergeDebt, Lifecycle, closing, Failure,
  legacy_ownership_ambiguous, persist_failed, mirror_failed, flush_failed, fetch_failed,
  merge_failed, push_failed, cleanup_failed, runtime_not_owned, runtime_unavailable,
  handoff_pending, container, binding_safe, mark, authorized, push_debt, clear_debt,
}
use sigiled.Sessions.World.{
  World, Response, not_found, forbidden, conflict, closed, Handler, pure, reply_with, ◌>>=◌, ◌>>◌,
  Call, ide_finish, flush, destroy, mirror, fetch, push, changed_paths, delete_branch, observe,
  merge, accept_handoff, Outside, MergeOutcome, ff, merged, debt, session_closed, ask, ask_for,
  get_record, gets, change_records, change_debts, record_event, note, try_persist, failure, or_fail,
  require, obtain, refuse_unless,
}

-- Whether a container runtime is configured, and whether a folder of repositories is.
pub record Config : Type 0 where
  pub runtime : Bool
  pub repos_dir : Bool

unfoldable pub known : Option SessionRecord → Handler SessionRecord
known none = reply_with not_found
known (some r) = pure r

abbrev pub ide_started : SessionRecord → Bool
ide_started r = elim r.binding [ none ↦ false | some b ↦ b.ide_started ]

abbrev pub same_generation : Option ℕ → ℕ → Bool
same_generation none g = true
same_generation (some e) g = e == g

abbrev pub merged_cleanly : MergeOutcome → Bool
merged_cleanly (ff sha) = true
merged_cleanly (merged sha) = true
merged_cleanly (debt d) = false

abbrev pub outcome_sha : MergeOutcome → String
outcome_sha (ff sha) = sha
outcome_sha (merged sha) = sha
outcome_sha (debt d) = d.ours.sha

module _ (out : Outside) (cfg : Config) where
  -- `flush_record`.
  unfoldable pub flush_record : SessionRecord → Handler Bool
  flush_record r =
      if handoff_pending r
      then pure false
      else if ide_started r
      then ask out.ide_finishes (ide_finish (container r))
      else if cfg.runtime && is_some r.token
      then ask out.flushes (flush (container r))
      else pure true

  -- The record's container can be reached, is no other record's, and is this session's own.
  unfoldable pub require_ownership : String → SessionRecord → Handler (Unit {0})
  require_ownership id r = do
    or_fail out id runtime_unavailable (not (is_some r.token && not cfg.runtime))
    safe ← gets (λ w. binding_safe r w.records)
    or_fail out id legacy_ownership_ambiguous safe
    or_fail out id runtime_not_owned (not (cfg.runtime && (not r.runtime_owned || is_none r.token)))

  unfoldable pub require_flush : String → SessionRecord → Handler (Unit {0})
  require_flush id r =
      if cfg.runtime && is_some r.token
      then require out id flush_failed (flush_record r)
      else pure tt

  unfoldable pub require_mirror : String → SessionRecord → Handler (Unit {0})
  require_mirror id r = do
    if cfg.runtime
        then require out id mirror_failed (ask out.mirrors (mirror r.project))
        else or_fail out id mirror_failed cfg.repos_dir
    if cfg.runtime then require out id fetch_failed (ask out.fetches (fetch r.branch)) else pure tt

  -- The mark that is durable before anything is touched.
  unfoldable pub begin : String → Lifecycle → Handler (Unit {0})
  begin id lifecycle = do
    change_records (mark id lifecycle none)
    require out id persist_failed (try_persist out)

  unfoldable pub close_allowed :
      Actor → ApprovalStore → ℕ → String → Option ℕ → SessionRecord → Handler SessionRecord
  close_allowed actor approvals now id expected r = do
    refuse_unless (same_generation expected r.generation) conflict
    refuse_unless (authorized actor r close_session approvals now) forbidden
    refuse_unless (not (handoff_pending r)) conflict
    require_ownership id r
    begin id closing
    pure r

  unfoldable pub close_checked :
      Actor → ApprovalStore → ℕ → String → Option ℕ → Handler SessionRecord
  close_checked actor approvals now id expected = do
    found ← get_record id
    r ← known found
    close_allowed actor approvals now id expected r

  unfoldable pub settle_outcome : String → SessionRecord → MergeOutcome → Handler (Unit {0})
  settle_outcome id r (debt d) = change_debts (push_debt r.project d)
  settle_outcome id r (ff sha) =
      if cfg.runtime then require out id push_failed (ask out.pushes (push "master")) else pure tt
  settle_outcome id r (merged sha) =
      if cfg.runtime then require out id push_failed (ask out.pushes (push "master")) else pure tt

  unfoldable pub accept_outcome : String → SessionRecord → MergeOutcome → Handler (Unit {0})
  accept_outcome id r outcome =
      if merged_cleanly outcome
      then (do
        note (observe (outcome_sha outcome))
        require out id persist_failed (ask out.accepts (accept_handoff (outcome_sha outcome))))
      else pure tt

  unfoldable pub close_reconciled : String → SessionRecord → Handler (MergeOutcome × Bool)
  close_reconciled id r = do
    require_flush id r
    require_mirror id r
    touched ← ask out.touched (λ b. changed_paths r.branch)
    outcome ← obtain out id merge_failed (ask_for out.merges (merge r.branch))
    settle_outcome id r outcome
    accept_outcome id r outcome
    require out id persist_failed (try_persist out)
    pure (outcome, touched)

  unfoldable pub require_destroy : String → SessionRecord → Handler (Unit {0})
  require_destroy id r =
      if cfg.runtime
      then require out id cleanup_failed (ask out.destroys (destroy (container r)))
      else pure tt

  unfoldable pub push_deletion : SessionRecord → Handler Bool
  push_deletion r =
      if cfg.runtime then ask out.pushes (push (str_append ":" r.branch)) else pure true

  unfoldable pub drop_branch : SessionRecord → MergeOutcome → Handler (Unit {0})
  drop_branch r outcome =
      if merged_cleanly outcome
      then (do
        push_deletion r
        note (delete_branch r.branch)
        change_debts (clear_debt r.project r.branch))
      else pure tt

  unfoldable pub close_finished : String → SessionRecord → MergeOutcome × Bool → Handler (Unit {0})
  close_finished id r (outcome, touched) = do
    require_destroy id r
    drop_branch r outcome
    change_records (remove id)
    record_event r.project
        (session_closed id (merged_cleanly outcome) (outcome_sha outcome) touched)
    try_persist out
    reply_with (closed outcome touched)

  -- The handler `close_expected`.
  unfoldable pub close_expected : Actor → ApprovalStore → ℕ → String → Option ℕ → Handler (Unit {0})
  close_expected actor approvals now id expected = do
    r ← close_checked actor approvals now id expected
    result ← close_reconciled id r
    close_finished id r result
