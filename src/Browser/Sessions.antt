-- ===== src/Browser/Sessions.antt =====
-- The use of sessions in sigiledd/src/browser/mod.rs: `Inner::session`, `Inner::mutation`,
-- `resolve_session`, the extractor of `BrowserContext`, and `logout`.
use sigiled.Base.{
  ℕ, ◌+◌, String, Bool, true, false, not, ◌&&◌, ◌||◌, Option, none, some, leb, if◌then◌else◌,
  str_eq, get, remove, adjust, keep,
}
use sigiled.Auth.Policy.{Actor}
use sigiled.Routine.{Result, ok, err, or_err, pure, fail_unless, lift, gets, change, ◌>>=◌, ◌>>◌}
use sigiled.Browser.Requests.{
  Error, login_required, forbidden, Headers, single, is_text, cookie, origin,
}
use sigiled.Browser.Store.{
  Config, Transaction, Credentials, Session, Store, Action, Verified, session_cookie, login_cookie,
  equal_in_constant_time, live, prune,
}

pub record BrowserContext : Type 0 where
  pub session_id : String
  pub actor : Actor
  pub subject : String
  pub csrf : String
  pub absolute : ℕ
  pub idle_expires : ℕ

abbrev pub of_origin : String → Option Session → Option Session
of_origin o none = none
of_origin o (some s) = if str_eq s.origin o then some s else none

abbrev pub is_expected : Option String → String → Bool
is_expected none csrf = false
is_expected (some v) csrf = equal_in_constant_time v csrf

abbrev pub set_credentials : Credentials → Session → Session
set_credentials c s = record s { credentials = c }

abbrev pub seen_at : Bool → ℕ → Session → Session
seen_at activity now s = if activity then record s { last_seen = now } else s

abbrev pub or_old : Option String → String → Option String
or_old none old = some old
or_old (some new) old = some new

abbrev pub refreshed : Verified → String → Credentials
refreshed v old = record {
  actor = v.actor;
  display_name = v.display_name;
  access = v.access_token;
  refresh = or_old v.refresh_token old;
  expires = v.expires;
}

-- `RefreshGuard` with its flag set: the session ends with a failure.
abbrev pub ended_on_failure {ℓ} :
    {A : Type ℓ} → String → Result Error A × Store → Result Error A × Store
ended_on_failure id (ok a, s) = (ok a, s)
ended_on_failure id (err e, s) = (err e, record s { sessions = remove id s.sessions })

unfoldable pub or_end_session {ℓ} : {A : Type ℓ} → String → Action A → Action A
or_end_session id m store = ended_on_failure id (m store)

-- `Inner::mutation`.
unfoldable pub mutation : Headers → Session → Action (Unit {0})
mutation h s = do
  fail_unless (is_text (single h "origin") s.origin) (forbidden "invalid_origin")
  fail_unless (is_expected (single h "x-sigil-csrf") s.csrf) (forbidden "invalid_csrf")

module _ (cfg : Config) where
  -- `Inner::session`.
  unfoldable pub session : Headers → String → ℕ → Action (String × Session)
  session h o now = do
    id ← lift (or_err login_required (cookie h session_cookie))
    change (prune cfg now)
    found ← gets (λ store. of_origin o (get id store.sessions))
    s ← lift (or_err login_required found)
    pure (id, s)

  -- Prunes, and takes the session if it is still there.
  unfoldable pub present : String → ℕ → Action Session
  present id now = do
    change (prune cfg now)
    found ← gets (λ store. get id store.sessions)
    lift (or_err login_required found)

  -- The provider's answer is none where it refuses or the request is cancelled.
  unfoldable pub refresh : String → Option String → Option Verified → ℕ → Action (Unit {0})
  refresh id token answer later = or_end_session id (do
    old ← lift (or_err login_required token)
    v ← lift (or_err login_required answer)
    present id later
    change (λ store. record store {
      sessions = adjust id (set_credentials (refreshed v old)) store.sessions;
    }))

  abbrev pub context : String → Session → BrowserContext
  context id s = record {
    session_id = id;
    actor = s.credentials.actor;
    subject = s.subject;
    csrf = s.csrf;
    absolute = s.absolute;
    idle_expires =
        if leb (s.last_seen + cfg.idle_seconds) s.absolute
        then s.last_seen + cfg.idle_seconds
        else s.absolute;
  }

  -- `resolve_session`, with the instants of its first lock, behind the wait for the credentials,
  -- behind the provider's answer, and at its last lock. It is one step: the requests that the
  -- store may serve while the provider is asked are not modelled.
  unfoldable pub resolve_session :
      String → Bool → Option Verified → ℕ → ℕ → ℕ → ℕ → Action BrowserContext
  resolve_session id activity answer first waited later last = do
    s ← present id first
    fail_unless (live cfg s waited) login_required
    if leb s.credentials.expires (waited + 30)
        then refresh id s.credentials.refresh answer later
        else pure tt
    found ← present id last
    change (λ store. record store { sessions = adjust id (seen_at activity last) store.sessions })
    pure (context id (seen_at activity last found))

  -- The extractor of `BrowserContext`; a method that reads is GET or HEAD.
  unfoldable pub from_request_parts :
      Bool → Headers → Option Verified → ℕ → ℕ → ℕ → ℕ → Action BrowserContext
  from_request_parts is_reading h answer first waited later last = do
    o ← lift (origin cfg.origins h)
    (id, s) ← session h o first
    if is_reading then pure tt else mutation h s
    resolve_session id true answer first waited later last

  abbrev pub is_cancelled : String → String → Option String → Transaction → Bool
  is_cancelled id o binding t =
      is_text t.replaces_session id || (str_eq t.origin o && is_text binding t.binding)

  abbrev pub logged_out : String → String → Option String → Store → Store
  logged_out id o binding store = record {
    logins = keep (λ t. not (is_cancelled id o binding t)) store.logins;
    sessions = remove id store.sessions;
  }

  unfoldable pub logout : Headers → ℕ → Action (Unit {0})
  logout h now = do
    o ← lift (origin cfg.origins h)
    (id, s) ← session h o now
    mutation h s
    change (logged_out id o (cookie h login_cookie))
