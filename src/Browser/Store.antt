-- ===== src/Browser/Store.antt =====
-- The login transactions and the sessions of sigiledd/src/browser/mod.rs: `login`, `callback`,
-- `resolve_session`, the extractor of `BrowserContext` and `logout`. The instants, the random
-- texts and the identity provider's answers are arguments. A callback is two parts, between which
-- the provider is asked and other requests are served.
use sigiled.Base.{
  ℕ, ◌+◌, String, Bool, true, false, not, ◌&&◌, ◌||◌, Option, none, some, List, ltb, leb,
  if◌then◌else◌, is_some, str_eq, codes, all, length, Assoc, get, insert, remove, adjust, keep,
}
use sigiled.Auth.Policy.{Actor}
use sigiled.Auth.Token.{constant_time_eq}
use sigiled.Sessions.Records.{u64_max}
use sigiled.Routine.{or_err, Run, pure, fail, fail_unless, lift, gets, change, ◌>>=◌, ◌>>◌}
use sigiled.Browser.Requests.{
  Error, login_required, entropy_unavailable, forbidden, capacity, Headers, cookie, origin,
  return_path,
}

pub record Config : Type 0 where
  pub origins : List String
  pub issuer : String
  pub absolute_seconds : ℕ
  pub idle_seconds : ℕ

pub record Transaction : Type 0 where
  pub binding : String
  pub origin : String
  pub nonce : String
  pub verifier : String
  pub return_to : String
  pub expires : ℕ
  pub in_flight : Bool
  pub replaces_session : Option String

pub record Credentials : Type 0 where
  pub actor : Actor
  pub display_name : Option String
  pub access : String
  pub refresh : Option String
  pub expires : ℕ

pub record Session : Type 0 where
  pub origin : String
  pub subject : String
  pub nonce : String
  pub csrf : String
  pub absolute : ℕ
  pub last_seen : ℕ
  pub credentials : Credentials

pub record Store : Type 0 where
  pub logins : Assoc Transaction
  pub sessions : Assoc Session

abbrev pub Action {ℓ} : Type ℓ → Type ℓ
Action A = Run Store Error A

abbrev pub session_cookie : String
session_cookie = "__Host-sigil_session"

abbrev pub login_cookie : String
login_cookie = "__Host-sigil_login"

abbrev pub login_ttl : ℕ
login_ttl = 300

abbrev pub max_logins : ℕ
max_logins = 1024

abbrev pub max_sessions : ℕ
max_sessions = 4096

unfoldable pub saturating_add : ℕ → ℕ → ℕ
saturating_add a b = if leb u64_max (a + b) then u64_max else a + b

abbrev pub equal_in_constant_time : String → String → Bool
equal_in_constant_time a b = constant_time_eq (codes a) (codes b)

-- The query's fields, in ASCII; none where a field comes twice.
abbrev pub Query : Type 0
Query = Option (Assoc String)

abbrev pub or_text : String → Option String → String
or_text d none = d
or_text d (some s) = s

-- The four texts that a login draws.
pub record Fresh : Type 0 where
  pub state_id : String
  pub binding : String
  pub nonce : String
  pub verifier : String

-- What `Provider::verify` makes of the tokens, with the tokens.
pub record Verified : Type 0 where
  pub subject : String
  pub actor : Actor
  pub display_name : Option String
  pub expires : ℕ
  pub access_token : String
  pub refresh_token : Option String

-- A callback that waits for the provider.
pub record Attempt : Type 0 where
  pub state_id : String
  pub origin : String
  pub tx : Transaction

abbrev is_given : Option Session → String → Bool
is_given none origin = false
is_given (some s) origin = str_eq s.origin origin

abbrev is_same : Option String → String → Bool
is_same none id = false
is_same (some j) id = str_eq j id

abbrev pub holds_session : Option String → Store → Bool
holds_session none store = false
holds_session (some id) store = is_some (get id store.sessions)

abbrev pub without_replaced : Option String → Assoc Session → Assoc Session
without_replaced none sessions = sessions
without_replaced (some id) sessions = remove id sessions

unfoldable pub drop_login : String → Store → Store
drop_login id store = record store { logins = remove id store.logins }

-- `LoginGuard`: whatever becomes of the attempt, its transaction ends.
unfoldable pub guarded {ℓ} : {A : Type ℓ} → String → Action A → Action A
guarded id m store = let (r, after) = m store in (r, drop_login id after)

abbrev pub without_binding : Option String → Store → Store
without_binding none store = store
without_binding (some old) store = record store {
  logins = keep (λ t. not (str_eq t.binding old)) store.logins;
}

module _ (cfg : Config) where
  unfoldable pub live : Session → ℕ → Bool
  live s now = ltb now s.absolute && ltb now (saturating_add s.last_seen cfg.idle_seconds)

  unfoldable pub prune : ℕ → Store → Store
  prune now store = record {
    logins = keep (λ t. ltb now t.expires) store.logins;
    sessions = keep (λ s. live s now) store.sessions;
  }

  -- The session of the request's cookie that a login may replace later.
  abbrev replaced : Option String → String → Store → Option String
  replaced none origin store = none
  replaced (some id) origin store =
      if is_given (get id store.sessions) origin then some id else none

  abbrev pub transaction : Fresh → String → String → Option String → ℕ → Transaction
  transaction fresh origin return_to replaces now = record {
    binding = fresh.binding;
    origin = origin;
    nonce = fresh.nonce;
    verifier = fresh.verifier;
    return_to = return_to;
    expires = now + login_ttl;
    in_flight = false;
    replaces_session = replaces;
  }

  -- The part of `login` that holds the store.
  unfoldable pub begin_login : Headers → Fresh → String → String → ℕ → Action (Unit {0})
  begin_login h fresh origin return_to now = do
    change (prune now)
    replaces ← gets (replaced (cookie h session_cookie) origin)
    change (without_binding (cookie h login_cookie))
    logins ← gets (λ s. s.logins)
    fail_unless (ltb (length logins) max_logins) (capacity "login_capacity")
    change (λ s. record s {
      logins = insert fresh.state_id (transaction fresh origin return_to replaces now) s.logins;
    })

  unfoldable pub login : Headers → Query → Option Fresh → ℕ → Action Fresh
  login h query drawn now = do
    o ← lift (origin cfg.origins h)
    q ← lift (or_err login_required query)
    fail_unless (all q (λ (k, v). str_eq k "return_to")) login_required
    fail_unless (return_path (or_text "/" (get "return_to" q))) (forbidden "invalid_return_path")
    fresh ← lift (or_err entropy_unavailable drawn)
    begin_login h fresh o (or_text "/" (get "return_to" q)) now
    pure fresh

  -- The first lock of `callback`: the transaction is claimed for this attempt.
  unfoldable pub claim : String → String → String → ℕ → Action Attempt
  claim state_id origin binding now = do
    change (prune now)
    found ← gets (λ s. get state_id s.logins)
    tx ← lift (or_err login_required found)
    fail_unless
        (not (
          tx.in_flight
          || not (str_eq tx.origin origin)
          || not (equal_in_constant_time binding tx.binding)))
        login_required
    change
        (λ s. record s { logins = adjust state_id (λ t. record t { in_flight = true }) s.logins })
    pure (record { state_id = state_id; origin = origin; tx = record tx { in_flight = true } })

  abbrev is_code : Option String → Bool
  is_code none = false
  is_code (some s) = not (str_eq s "") && leb (length (codes s)) 2048

  abbrev is_foreign : Option String → Bool
  is_foreign none = false
  is_foreign (some iss) = not (str_eq iss cfg.issuer)

  -- The tests of the provider's reply in the query.
  abbrev pub is_answered : Assoc String → Bool
  is_answered q =
      not (is_some (get "error" q) || is_foreign (get "iss" q)) && is_code (get "code" q)

  abbrev pub still_claimed : Attempt → Option Transaction → Bool
  still_claimed a none = false
  still_claimed a (some t) =
      t.in_flight && str_eq t.binding a.tx.binding && str_eq t.origin a.tx.origin

  abbrev pub new_session : Attempt → Verified → String → ℕ → Session
  new_session a v csrf now = record {
    origin = a.origin;
    subject = v.subject;
    nonce = a.tx.nonce;
    csrf = csrf;
    absolute = now + cfg.absolute_seconds;
    last_seen = now;
    credentials = record {
      actor = v.actor;
      display_name = v.display_name;
      access = v.access_token;
      refresh = v.refresh_token;
      expires = v.expires;
    };
  }

  abbrev pub entered : Attempt → String → Session → Store → Store
  entered a id s store = record {
    logins = remove a.state_id store.logins;
    sessions = insert id s (without_replaced a.tx.replaces_session store.sessions);
  }

  -- The last lock of `callback`.
  unfoldable pub enter : Attempt → String → Session → ℕ → Action (Unit {0})
  enter a id s later = do
    change (prune later)
    found ← gets (λ s. get a.state_id s.logins)
    fail_unless (still_claimed a found) login_required
    sessions ← gets (λ s. s.sessions)
    replaces ← gets (holds_session a.tx.replaces_session)
    fail_unless (ltb (length sessions) max_sessions || replaces) (capacity "session_capacity")
    change (entered a id s)

  unfoldable pub finish : Attempt → Verified → Option (String × String) → ℕ → ℕ → Action String
  finish a v drawn now later = do
    fail_unless (ltb now a.tx.expires) login_required
    (id, csrf) ← lift (or_err entropy_unavailable drawn)
    enter a id (new_session a v csrf now) later
    pure id

  -- `callback` up to the requests of the provider.
  unfoldable pub callback_start : Headers → Query → ℕ → Action Attempt
  callback_start h query now = do
    o ← lift (origin cfg.origins h)
    q ← lift (or_err login_required query)
    state_id ← lift (or_err login_required (get "state" q))
    binding ← lift (or_err login_required (cookie h login_cookie))
    attempt ← claim state_id o binding now
    if is_answered q then pure attempt else guarded state_id (fail login_required)

  -- `callback` behind the provider's answer; none is a refusal, or the end of the request.
  unfoldable pub callback_end :
      Attempt → Option Verified → Option (String × String) → ℕ → ℕ → Action String
  callback_end a none drawn now later = guarded a.state_id (fail login_required)
  callback_end a (some v) drawn now later = guarded a.state_id (finish a v drawn now later)
