-- ===== src/Examples/Browsers.antt =====
-- Runs and instances for sigiledd/src/browser/mod.rs: one browser at one origin, with a session
-- and with a login whose callback waits for the identity provider.
use sigiled.Base.{ℕ, ◌≡◌, refl, String, Bool, true, false, Option, none, some, List, [], ◌∷◌, get}
use sigiled.Routine.{Gives, ok}
use sigiled.Browser.Requests.{Headers, cookie, return_path, single}
use sigiled.Browser.Store.{
  Config, Store, Session, Transaction, Attempt, Verified, Fresh, session_cookie, callback_end,
}
use sigiled.Browser.Sessions.{logout, from_request_parts}
use sigiled.Browser.Capacity.{IsBounded}
use sigiled.Browser.Reach.{Reach, Request, serve, Reach-IsBounded}
use sigiled.Browser.Continuity.{Continues}
use sigiled.Browser.Contexts.{Vouched, from_request_parts-Vouched}
use sigiled.Browser.Callbacks.{Entered, Refused, callback_end-Entered}
use sigiled.Browser.Logouts.{logout-callback_end}
use sigiled.Examples.Lives.{claude}

abbrev config : Config
config = record {
  origins = "https://sigil.example" ∷ [];
  issuer = "https://id.example";
  absolute_seconds = 3600;
  idle_seconds = 600;
}

abbrev id : String
id = "abcdefghijabcdefghijabcdefghijabcdefghij123"

abbrev headers : Headers
headers =
    ("host", some "sigil.example")
    ∷ ("origin", some "https://sigil.example")
    ∷ ("x-sigil-csrf", some "csrf-text")
    ∷ (
      "cookie",
      some "theme=dark; __Host-sigil_session=abcdefghijabcdefghijabcdefghijabcdefghij123",
    )
    ∷ []

abbrev session : Session
session = record {
  origin = "https://sigil.example";
  subject = "user-1";
  nonce = "nonce";
  csrf = "csrf-text";
  absolute = 5000;
  last_seen = 1000;
  credentials = record {
    actor = claude;
    display_name = none;
    access = "access";
    refresh = none;
    expires = 4000;
  };
}

abbrev tx : Transaction
tx = record {
  binding = "binding";
  origin = "https://sigil.example";
  nonce = "nonce-2";
  verifier = "verifier";
  return_to = "/";
  expires = 1400;
  in_flight = true;
  replaces_session = some id;
}

abbrev attempt : Attempt
attempt = record { state_id = "state"; origin = "https://sigil.example"; tx = tx }

abbrev store : Store
store = record { logins = ("state", tx) ∷ []; sessions = (id, session) ∷ [] }

abbrev verified : Verified
verified = record {
  subject = "user-1";
  actor = claude;
  display_name = none;
  expires = 5000;
  access_token = "access-2";
  refresh_token = none;
}

abbrev drawn : Option (String × String)
drawn = some ("new id", "new csrf")

cookie_test : cookie headers session_cookie ≡ some id
unfolding cookie sigiled.Browser.Requests.split sigiled.Browser.Requests.split_once
    sigiled.Browser.Requests.trim sigiled.Browser.Requests.is_token
cookie_test = refl

abbrev login_store : Store
login_store =
    serve config (Request.calling_back headers (some []) 1100)
      (record { logins = []; sessions = [] })

Reach-IsBounded_example : IsBounded login_store
Reach-IsBounded_example =
    Reach-IsBounded config login_store
      (Reach.served Reach.empty (Request.calling_back headers (some []) 1100))

from_request_parts-Vouched_example :
    Gives
      (λ c after. Vouched config store false headers 1103 c × Continues store after)
      (Continues store)
      (from_request_parts config false headers none 1100 1101 1102 1103 store)
from_request_parts-Vouched_example =
    from_request_parts-Vouched config store false headers none 1100 1101 1102 1103

callback_end-Entered_example :
    Gives
      (Entered config store attempt (some verified) drawn 1200 1201)
      (Refused config store attempt)
      (callback_end config attempt (some verified) drawn 1200 1201 store)
callback_end-Entered_example =
    callback_end-Entered config store attempt (some verified) drawn 1200 1201

callback_test : (callback_end config attempt (some verified) drawn 1200 1201 store).0 ≡ ok "new id"
unfolding callback_end sigiled.Browser.Store.guarded sigiled.Browser.Store.finish
    sigiled.Routine.◌>>=◌ sigiled.Routine.fail_unless sigiled.Routine.pure sigiled.Routine.lift
    sigiled.Browser.Store.enter sigiled.Routine.change sigiled.Routine.gets get
    sigiled.Browser.Store.prune sigiled.Base.keep sigiled.Browser.Store.live
    sigiled.Browser.Store.saturating_add sigiled.Base.remove
callback_test = refl

waiting : get "state" store.logins ≡ some tx
unfolding get
waiting = refl

logout-callback_end_example :
    Gives
      (λ u after.
        (get id after.sessions ≡ none)
        × ((answer : Option Verified) (drawn : Option (String × String)) (answered later : ℕ)
            → Gives
                (λ new s. ⊥)
                (Continues after)
                (callback_end config attempt answer drawn answered later after)))
      (λ s. Unit)
      (logout config headers 1100 store)
logout-callback_end_example =
    logout-callback_end config store headers 1100 attempt tx id cookie_test waiting refl

path_test : return_path "/ui/projects" ≡ true
unfolding return_path sigiled.Base.strip_prefix sigiled.Browser.Requests.split
path_test = refl
