-- ===== src/Sessions/Open.antt =====
-- sigiledd/src/sessions.rs, `open_inner`, in its parts: the checks, the reservation that is durable
-- before anything is made, the repository and the branch, the container, and the reply. Also the
-- verb `open` and `open_human`, which call it.
pub mod Ways
pub mod Allocations
use sigiled.Base.{
  ℕ, String, Bool, true, false, not, ◌&&◌, ◌||◌, Option, none, some, List, [], ◌∷◌, ◌==◌, ltb, leb,
  if◌then◌else◌, is_none, is_some, str_append, codes, all, remove, length, strip_prefix, retain,
  values, str_eq,
}
use sigiled.Auth.Policy.{Actor, open_session, authorize, Decision, ok, denied}
use sigiled.Auth.Approvals.{ApprovalStore}
use sigiled.Sessions.Records.{
  SessionRecord, WorkspaceBinding, Records, MergeDebt, Lifecycle, active, creating, Failure,
  persist_failed, mirror_failed, create_failed, boot_failed, session_container, debts_for, put,
}
use sigiled.Sessions.Orphans.{find_orphan}
use sigiled.Sessions.World.{
  World, Response, not_found, forbidden, conflict, bad_request, unavailable, opened, Handler, pure,
  reply_with, ◌>>=◌, ◌>>◌, Outside, ImageChoice, mirror, session_refs, has_repo, prepare_image,
  new_branch, rev_parse, session_opened, ask, ask_for, get_record, gets, change_records,
  record_event, try_persist, mint_token, fresh_id, or_fail, require, obtain, refuse_unless,
}
use sigiled.Sessions.Close.{Config}
use sigiled.Sessions.Recycle.{
  Provision, session_endpoint, prepare_layer, put_durably, start_container,
}

abbrev pub is_allowed {ℓ} : {A : Type ℓ} → Decision A → Bool
is_allowed (ok a) = true
is_allowed (denied d) = false

abbrev is_alphanumeric : ℕ → Bool
is_alphanumeric c =
    (leb b'0' c && leb c b'9') || (leb b'a' c && leb c b'z') || (leb b'A' c && leb c b'Z')

-- The test of a project's slug.
abbrev pub is_slug : String → Bool
is_slug project =
    not (str_eq project "")
    && all (codes project) (λ c. is_alphanumeric c || c == b'-' || c == b'_')

abbrev pub is_nil {ℓ} : {A : Type ℓ} → List A → Bool
is_nil [] = true
is_nil (x ∷ xs) = false

abbrev pub with_branch : SessionRecord → Option String → SessionRecord
with_branch r none = r
with_branch r (some branch) = record r { branch = branch; stale = true }

abbrev pub orphan_of : Option String → String → World → Option String
orphan_of refs project w = find_orphan refs project w.debts w.records

module _ (out : Outside) (cfg : Config) (site : Provision) where
  unfoldable pub open_allowed : Actor → ApprovalStore → ℕ → String → Handler (Unit {0})
  open_allowed actor approvals now project = do
    refuse_unless (is_allowed (authorize actor open_session (some project) approvals now)) forbidden
    refuse_unless (not (site.incomplete project)) conflict
    refuse_unless (is_slug project) bad_request

  unfoldable pub chosen_id : Option String → Handler String
  chosen_id (some id) = pure id
  chosen_id none = fresh_id out

  unfoldable pub require_unused : String → String → Bool → Handler (Unit {0})
  require_unused id project allow_orphan = do
    found ← get_record id
    refuse_unless (is_none found) conflict
    debts ← gets (λ w. debts_for w.debts project)
    refuse_unless (allow_orphan || is_nil debts) conflict

  abbrev pub first_binding : String → WorkspaceBinding
  first_binding id = record {
    container = session_container id 1;
    endpoint = session_endpoint out cfg site id 1;
    generation = 1;
    ide_started = false;
  }

  abbrev pub reserved : Actor → String → String → Option String → SessionRecord
  reserved actor project id token = record {
    handoff = none;
    session_id = id;
    project = project;
    branch = str_append "session/" id;
    head = "";
    stale = false;
    actor = actor;
    token = token;
    binding = if cfg.runtime then some (first_binding id) else none;
    lifecycle = creating;
    generation = 1;
    error = none;
    image = none;
    runtime_owned = false;
  }

  unfoldable pub first_token : Handler (Option String)
  first_token = if cfg.runtime then mint_token out >>= (λ token. pure (some token)) else pure none

  unfoldable pub reserve : Actor → String → String → Handler SessionRecord
  reserve actor project id = do
    token ← first_token
    put_durably out cfg site id (reserved actor project id token)
    pure (reserved actor project id token)

  -- The reservation is taken back.
  unfoldable pub give_up {ℓ} : {A : Type ℓ} → String → Response → Handler A
  give_up id r = do change_records (remove id); try_persist out; reply_with r

  unfoldable pub or_give_up : String → Response → Bool → Handler (Unit {0})
  or_give_up id r true = pure tt
  or_give_up id r false = give_up id r

  unfoldable pub require_repo : String → String → Handler (Unit {0})
  require_repo id project =
      if cfg.runtime then require out id mirror_failed (ask out.mirrors (mirror project)) else (do
        or_give_up id unavailable cfg.repos_dir
        there ← ask out.repos (has_repo project)
        or_give_up id not_found there)

  unfoldable pub choose_branch : Bool → SessionRecord → Handler SessionRecord
  choose_branch allow_orphan r =
      if allow_orphan
      then (do
        refs ← ask_for out.branches session_refs
        orphan ← gets (orphan_of refs r.project)
        pure (with_branch r orphan))
      else pure r

  unfoldable pub image_chosen : String → ImageChoice → SessionRecord → Handler SessionRecord
  image_chosen id first r = do
    choice ← prepare_layer out cfg site (site.ide_enabled r.project) first.used first
    put_durably out cfg site id (record r { image = some choice.used })
    pure (record r { image = some choice.used })

  unfoldable pub require_branch : String → SessionRecord → Handler (Unit {0})
  require_branch id r =
      if r.stale
      then pure tt
      else require out id create_failed (ask out.new_branches (new_branch r.branch))

  unfoldable pub make_workspace : String → SessionRecord → Handler SessionRecord
  make_workspace id r =
      if cfg.runtime
      then (do
        choice ← obtain out id boot_failed (ask_for out.images (prepare_image r.project))
        chosen ← image_chosen id choice r
        start_container out cfg site id chosen)
      else (do
        require_branch id r
        head ← obtain out id boot_failed (ask_for out.heads (rev_parse r.branch))
        pure (record r { head = head }))

  unfoldable pub open_finished : String → SessionRecord → Handler (Unit {0})
  open_finished id r = do
    change_records (put (record r { lifecycle = active }))
    record_event r.project (session_opened id r.branch r.stale)
    require out id persist_failed (try_persist out)
    reply_with (opened (record r { lifecycle = active }))

  unfoldable pub open_reserved : String → Bool → SessionRecord → Handler (Unit {0})
  open_reserved id allow_orphan r = do
    require_repo id r.project
    branched ← choose_branch allow_orphan r
    put_durably out cfg site id branched
    made ← make_workspace id branched
    open_finished id made

  unfoldable pub open_unused : Actor → String → Bool → String → Handler (Unit {0})
  open_unused actor project allow_orphan id = do
    require_unused id project allow_orphan
    r ← reserve actor project id
    open_reserved id allow_orphan r

  -- `open_inner`.
  unfoldable pub open_inner :
      Actor → ApprovalStore → ℕ → String → Option String → Bool → Handler (Unit {0})
  open_inner actor approvals now project selected allow_orphan = do
    open_allowed actor approvals now project
    id ← chosen_id selected
    open_unused actor project allow_orphan id

  -- The verb `open`.
  unfoldable pub open_verb : Actor → ApprovalStore → ℕ → String → Handler (Unit {0})
  open_verb actor approvals now project = open_inner actor approvals now project none true

  abbrev is_hexdigit : ℕ → Bool
  is_hexdigit c =
      (leb b'0' c && leb c b'9') || (leb b'a' c && leb c b'f') || (leb b'A' c && leb c b'F')

  -- `len` counts bytes, which are the code points of a text of hexadecimal digits.
  abbrev pub may_select : Actor → String → Bool
  may_select actor id =
      is_some (strip_prefix "human:" actor.driver)
      && length (codes id) == 32
      && all (codes id) is_hexdigit

  -- `open_human`, with the check of the debts outside the locks.
  unfoldable pub open_human : Actor → ApprovalStore → ℕ → String → String → Handler (Unit {0})
  open_human actor approvals now project id = do
    refuse_unless (may_select actor id) forbidden
    debts ← gets (λ w. debts_for w.debts project)
    refuse_unless (is_nil debts) conflict
    open_inner actor approvals now project (some id) false
