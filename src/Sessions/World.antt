-- ===== src/Sessions/World.antt =====
-- What the session handlers share: the state with the persisted snapshot, the requests to the
-- outside (the container runtime, git, the disk, random tokens), and handlers that may reply
-- early. An answer of the outside may depend on all requests so far, so nothing is assumed of
-- it; each request is kept in `trace` with its answer, newest first. A handler holds the lock of
-- its session from the record's lookup to its reply, so it runs alone on that record.
use sigiled.Base.{
  ℕ, String, Bool, true, false, Option, none, some, List, [], ◌∷◌, ◌++◌, if◌then◌else◌, get,
  is_some,
}
use sigiled.Sessions.Records.{SessionRecord, MergeDebt, Records, Debts, failed, Failure, mark}

pub data Event : Type 0 where
  session_opened : String → String → Bool → Event
  session_closed : String → Bool → String → Bool → Event
  session_recycled : String → String → Event
  session_reaped : String → String → Event

pub data Call : Type 0 where
  persist : Bool → Call
  ide_finish flush destroy healthy : String → Bool → Call
  mirror fetch rev_parse push new_branch : String → Bool → Call
  changed_paths delete_branch observe : String → Call
  merge accept_handoff prepare_image ide_layer : String → Bool → Call
  create boot : String → String → Bool → Call
  mint : Call
  status : String → Bool → Call
  agent_idle : String → Bool → Call
  session_refs : Bool → Call
  has_repo : String → Bool → Call
  random_id : Call

pub data MergeOutcome : Type 0 where
  ff merged : String → MergeOutcome
  debt : MergeDebt → MergeOutcome

-- The image that was chosen for a container.
pub record ImageChoice : Type 0 where
  pub used : String
  pub build_error : Option String

-- The answer of a provider to `status`; a field that is missing or of another type is `none`.
pub record ProviderStatus : Type 0 where
  pub generation : Option ℕ
  pub contract : Option String
  pub observation : Option String
  pub busy : Option Bool
  pub idle_secs : Option ℕ

pub record Outside : Type 0 where
  pub statuses : List Call → Option ProviderStatus
  -- The agent's own idle time of a container.
  pub idles : List Call → Option ℕ
  pub persists : List Call → Bool
  pub ide_finishes : List Call → Bool
  pub flushes : List Call → Bool
  pub destroys : List Call → Bool
  pub mirrors : List Call → Bool
  pub fetches : List Call → Bool
  pub touched : List Call → Bool
  pub merges : List Call → Option MergeOutcome
  pub pushes : List Call → Bool
  pub accepts : List Call → Bool
  pub heads : List Call → Option String
  -- The image of `ide_layer`; its binding has not started.
  pub layers : List Call → Option String
  pub images : List Call → Option ImageChoice
  pub creates : List Call → Bool
  pub boots : List Call → Option String
  pub is_healthy : List Call → Bool
  pub mints : List Call → String
  pub ids : List Call → String
  pub branches : List Call → Option String
  pub repos : List Call → Bool
  pub new_branches : List Call → Bool

pub record Snapshot : Type 0 where
  pub records : Records
  pub debts : Debts
  pub events : List (String × Event)

pub record World : Type 0 where
  pub records : Records
  pub debts : Debts
  pub events : List (String × Event)
  pub disk : Snapshot
  pub trace : List Call

pub data Response : Type 0 where
  preserved : Failure → String → Response
  not_found forbidden conflict : Response
  closed : MergeOutcome → Bool → Response
  recycled : SessionRecord → Response
  reaped skipped : Response
  bad_request unavailable : Response
  opened : SessionRecord → Response

pub data Step {ℓ} (A : Type ℓ) : Type ℓ where
  go : A → Step A
  reply : Response → Step A

abbrev pub Handler {ℓ} : Type ℓ → Type ℓ
Handler A = World → Step A × World

module _ {ℓ} {A : Type ℓ} where
  unfoldable pub pure : A → Handler A
  pure a w = (go a, w)

  unfoldable pub reply_with : Response → Handler A
  reply_with r w = (reply r, w)

module _ {ℓ κ} {A : Type ℓ} {B : Type κ} where
  abbrev pub continue : Step A → (A → Handler B) → World → Step B × World
  continue (go a) f w = f a w
  continue (reply r) f w = (reply r, w)

  infixl 5 ◌>>=◌ ◌>>◌
  unfoldable pub ◌>>=◌ : Handler A → (A → Handler B) → Handler B
  ◌>>=◌ m f w = let (s, w') = m w in continue s f w'

  abbrev pub ◌>>◌ : Handler A → Handler B → Handler B
  m >> n = m >>= λ _. n

-- A request whose answer is a Boolean or an optional value.
unfoldable pub ask : (List Call → Bool) → (Bool → Call) → Handler Bool
ask answer call w = let b = answer w.trace in (go b, record w { trace = call b ∷ w.trace })

unfoldable pub ask_for {ℓ} :
    {A : Type ℓ} → (List Call → Option A) → (Bool → Call) → Handler (Option A)
ask_for answer call w =
    let o = answer w.trace in (go o, record w { trace = call (is_some o) ∷ w.trace })

unfoldable pub get_record : String → Handler (Option SessionRecord)
get_record id w = (go (get id w.records), w)

unfoldable pub gets {ℓ} : {A : Type ℓ} → (World → A) → Handler A
gets f w = (go (f w), w)

unfoldable pub change_records : (Records → Records) → Handler (Unit {0})
change_records f w = (go tt, record w { records = f w.records })

unfoldable pub change_debts : (Debts → Debts) → Handler (Unit {0})
change_debts f w = (go tt, record w { debts = f w.debts })

unfoldable pub record_event : String → Event → Handler (Unit {0})
record_event project event w = (go tt, record w { events = w.events ++ (project, event) ∷ [] })

unfoldable pub note : Call → Handler (Unit {0})
note call w = (go tt, record w { trace = call ∷ w.trace })

abbrev snapshot_of : World → Snapshot
snapshot_of w = record { records = w.records; debts = w.debts; events = w.events }

module _ (out : Outside) where
  -- `AppState::try_persist`; `persist` ignores the answer.
  unfoldable pub try_persist : Handler Bool
  try_persist w =
      let done = out.persists w.trace in
      (
        go done,
        record w { disk = if done then snapshot_of w else w.disk; trace = persist done ∷ w.trace },
      )

  unfoldable pub mint_token : Handler String
  mint_token w = (go (out.mints w.trace), record w { trace = mint ∷ w.trace })

  -- `SessionState::session_id`.
  unfoldable pub fresh_id : Handler String
  fresh_id w = (go (out.ids w.trace), record w { trace = random_id ∷ w.trace })

  -- `failure`: the record stays, marked as failed, for recovery.
  unfoldable pub failure {ℓ} : {A : Type ℓ} → String → Failure → Handler A
  failure id code = do
    change_records (mark id failed (some code))
    try_persist
    reply_with (preserved code id)

  unfoldable pub or_fail : String → Failure → Bool → Handler (Unit {0})
  or_fail id code true = pure tt
  or_fail id code false = failure id code

  -- A step whose refusal ends the handler with the failure.
  unfoldable pub require : String → Failure → Handler Bool → Handler (Unit {0})
  require id code m = m >>= or_fail id code

  unfoldable pub some_or_fail {ℓ} : {A : Type ℓ} → String → Failure → Option A → Handler A
  some_or_fail id code (some a) = pure a
  some_or_fail id code none = failure id code

  unfoldable pub obtain {ℓ} : {A : Type ℓ} → String → Failure → Handler (Option A) → Handler A
  obtain id code m = m >>= some_or_fail id code

-- A refusal that changes nothing.
unfoldable pub refuse_unless : Bool → Response → Handler (Unit {0})
refuse_unless true r = pure tt
refuse_unless false r = reply_with r
