-- ===== src/Browser/Tickets.antt =====
-- The tickets and grants of the IDE gateway, sigiledd/src/browser/ide_gateway/access.rs: `issue`,
-- `exact_origin`, `consume`, `grant` and `csrf`. Whether a caller may use a binding (`authorize`,
-- `record`, `live` and `probe`, which ask the session store, the browser's sessions and the agent)
-- is an argument: the absolute end of the caller's session, where the answer is yes.
use sigiled.Base.{
  ℕ, zero, suc, ◌+◌, String, Bool, true, false, not, ◌&&◌, ◌||◌, Option, none, some, ltb,
  if◌then◌else◌, is_some, str_eq, str_append, any, length, Assoc, get, insert, remove, keep,
}
use sigiled.Routine.{Result, or_err, Run, pure, fail_unless, lift, gets, change, ◌>>=◌, ◌>>◌}
use sigiled.Browser.Requests.{
  Error, login_required, entropy_unavailable, forbidden, capacity, Headers, single, is_text, cookie,
}
use sigiled.Browser.Store.{equal_in_constant_time}

pub record FileTarget : Type 0 where
  pub path : String
  pub line : Option ℕ
  pub column : Option ℕ

pub record Binding : Type 0 where
  pub target : Option FileTarget
  pub port : Option ℕ
  pub parent : String
  pub actor : String
  pub project : String
  pub session : String
  pub generation : ℕ
  pub origin : String
  pub destination : String

pub record Ticket : Type 0 where
  pub binding : Binding
  pub expires : ℕ

pub record Grant : Type 0 where
  pub binding : Binding
  pub csrf : String

pub record Gateway : Type 0 where
  pub tickets : Assoc Ticket
  pub grants : Assoc Grant

abbrev pub Access {ℓ} : Type ℓ → Type ℓ
Access A = Run Gateway Error A

-- `issue`, with the text that it draws.
unfoldable pub issue : Binding → Option String → ℕ → Access String
issue binding drawn now = do
  id ← lift (or_err entropy_unavailable drawn)
  change (λ g. record g { tickets = keep (λ t. ltb now t.expires) g.tickets })
  tickets ← gets (λ g. g.tickets)
  fail_unless (ltb (length tickets) 4096) (capacity "ide_ticket_capacity")
  change (λ g. record g {
    tickets = insert id (record { binding = binding; expires = now + 60 }) g.tickets;
  })
  pure id

-- The text without its first characters.
abbrev behind : ℕ → String → String
behind zero s = s
behind (suc n) String.[] = ""
behind (suc n) (String.◌∷◌ c s) = behind n s

abbrev pub is_sibling : Option String → Bool
is_sibling none = false
is_sibling (some s) = not (str_eq s "same-origin") && not (str_eq s "none")

-- An origin starts with "https://", eight characters.
abbrev pub is_misplaced : Headers → String → Bool → Bool
is_misplaced h origin required =
    not (is_text (single h "host") (behind 8 origin))
    || ((required || any h (λ (k, v). str_eq k "origin"))
        && not (is_text (single h "origin") origin))

unfoldable pub exact_origin : Headers → String → Bool → Access (Unit {0})
exact_origin h origin required = do
  fail_unless (not (is_misplaced h origin required)) (forbidden "invalid_origin")
  fail_unless (not (is_sibling (single h "sec-fetch-site")))
      (forbidden "cross_origin_editor_request")

-- The ticket is taken out before anything else is tested.
unfoldable pub take_ticket : Headers → String → Access Ticket
take_ticket h ticket = do
  found ← gets (λ g. get ticket g.tickets)
  t ← lift (or_err login_required found)
  exact_origin h t.binding.origin true
  change (λ g. record g { tickets = remove ticket g.tickets })
  pure t

-- The part of `consume` that holds the grants.
unfoldable pub admit : (Binding → Bool) → Binding → String → String → Access (Unit {0})
admit is_live binding id csrf = do
  change (λ g. record g { grants = keep (λ x. is_live x.binding) g.grants })
  grants ← gets (λ g. g.grants)
  fail_unless (ltb (length grants) 4096) (capacity "ide_grant_capacity")
  change (λ g. record g { grants = insert id (record { binding = binding; csrf = csrf }) g.grants })

-- `consume`. The answers of `authorize` and `probe` are for the binding of the ticket.
unfoldable pub consume :
    Headers
    → String
    → ℕ
    → (Binding → Result Error ℕ)
    → (Binding → Bool)
    → Option (String × String)
    → Access String
consume h ticket now authorized is_live drawn = do
  t ← take_ticket h ticket
  fail_unless (ltb now t.expires) login_required
  absolute ← lift (authorized t.binding)
  (id, csrf) ← lift (or_err entropy_unavailable drawn)
  admit is_live t.binding id csrf
  pure id

abbrev pub cookie_name : Binding → String
cookie_name binding = if is_some binding.port then "__Host-sigil_preview" else "__Host-sigil_ide"

ends_with : String → String → Bool
ends_with suffix String.[] = str_eq suffix ""
ends_with suffix (String.◌∷◌ c s) = str_eq suffix (String.◌∷◌ c s) || ends_with suffix s

is_below : Option String → Option String → Bool
unfolding ends_with
is_below none host = false
is_below (some domain) none = false
is_below (some domain) (some host) = ends_with (str_append "." domain) host

-- The cookie that a request to this host bears.
unfoldable pub expected_cookie : Option String → Headers → String
unfolding is_below
expected_cookie preview_domain h =
    if is_below preview_domain (single h "host") then "__Host-sigil_preview" else "__Host-sigil_ide"

-- `grant`.
unfoldable pub grant : Option String → Headers → Bool → (Binding → Result Error ℕ) → Access Grant
grant preview_domain h is_mutation authorized = do
  id ← lift (or_err login_required (cookie h (expected_cookie preview_domain h)))
  found ← gets (λ g. get id g.grants)
  x ← lift (or_err login_required found)
  fail_unless (str_eq (expected_cookie preview_domain h) (cookie_name x.binding)) login_required
  exact_origin h x.binding.origin is_mutation
  absolute ← lift (authorized x.binding)
  pure x

abbrev is_token_sent : Option String → String → Bool
is_token_sent none csrf = false
is_token_sent (some v) csrf = equal_in_constant_time v csrf

unfoldable pub csrf : Headers → Grant → Access (Unit {0})
csrf h g = fail_unless (is_token_sent (single h "x-sigil-csrf") g.csrf) (forbidden "invalid_csrf")
