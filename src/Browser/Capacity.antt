-- ===== src/Browser/Capacity.antt =====
-- The bounds of the store of sigiledd/src/browser/mod.rs, over every order of its requests.
use sigiled.Base.{
  ℕ, ◌+◌, ◌≡◌, ◌≤◌, ◌<◌, String, Bool, true, not, str_eq, inl, inr, Option, none, some, arith, ltb,
  leb, length, Assoc, get, adjust, length-keep-le, length-remove-le, length-remove-lt,
  length-insert-le, length-adjust, Option-cases, ◌||◌,
}
use sigiled.Routine.{
  Gives, Leads, Leads-bind, Leads-pure, Leads-to, Leads-if, fail_unless-Leads, lift-Leads,
  gets-Leads, change-Leads, change, lift, gets, fail_unless, pure, fail, ok, err, Result,
}
use sigiled.Browser.Requests.{Error, login_required, Headers, cookie}
use sigiled.Browser.Store.{
  Config, live, Query, Fresh, Verified, Attempt, Transaction, Session, Store, Action, prune,
  drop_login, begin_login, login, claim, guarded, enter, finish, callback_start, callback_end,
  login_cookie, without_binding, without_replaced, holds_session, transaction,
}
use sigiled.Browser.Sessions.{
  session, mutation, present, refresh, or_end_session, resolve_session, from_request_parts, logout,
  set_credentials, seen_at, ended_on_failure, refreshed, is_cancelled,
}

abbrev pub IsBounded : Store → Type 0
IsBounded s = (length s.logins ≤ 1024) × (length s.sessions ≤ 4096)

-- A routine that keeps the store within its bounds, whether or not it ends with an error.
abbrev pub Keeps {ℓ} : {A : Type ℓ} → Action A → Type 0
Keeps m = Leads IsBounded IsBounded (λ a. IsBounded) m

module _ (cfg : Config) where
  prune-IsBounded : (now : ℕ) (s : Store) → IsBounded s → IsBounded (prune cfg now s)
  unfolding prune
  prune-IsBounded now s (a, b) = (
    omega (arith, a, length-keep-le (λ t. ltb now t.expires) s.logins),
    omega (arith, b, length-keep-le (λ x. live cfg x now) s.sessions),
  )

  drop_login-IsBounded : (id : String) (s : Store) → IsBounded s → IsBounded (drop_login id s)
  unfolding drop_login
  drop_login-IsBounded id s (a, b) = (omega (arith, a, length-remove-le id s.logins), b)

  pruned : (now : ℕ) → Keeps (change (prune cfg now))
  pruned now = change-Leads (prune cfg now) (prune-IsBounded now)

  lifted : {A : Type 0} (r : Result Error A) → Keeps (lift r)
  lifted r = Leads-to (λ a s h. h.1) (lift-Leads r λ s b. b)

  required : (b : Bool) (e : Error) → Keeps (fail_unless b e)
  required b e = Leads-to (λ a s h. h.1) (fail_unless-Leads b e λ s b. b)

  read : {A : Type 0} (f : Store → A) → Keeps (gets f)
  read f = Leads-to (λ a s h. h.1) (gets-Leads f)

  done : {A : Type 0} (a : A) → Keeps (pure a)
  done a = Leads-pure (λ a. IsBounded) a

  guarded-Keeps : {A : Type 0} (id : String) (m : Action A) → Keeps m → Keeps (guarded id m)
  unfolding guarded
  guarded-Keeps {A = A} id m k = record { at = λ s b. after (m s) (k.at s b) }
    where
      after :
          (r : Result Error A × Store)
          → Gives (λ a. IsBounded) IsBounded r
          → Gives (λ a. IsBounded) IsBounded (r.0, drop_login id r.1)
      after (ok a, s) b = drop_login-IsBounded id s b
      after (err e, s) b = drop_login-IsBounded id s b

  without_binding-IsBounded :
      (old : Option String) (s : Store) → IsBounded s → IsBounded (without_binding old s)
  without_binding-IsBounded none s b = b
  without_binding-IsBounded (some old) s (a, b) =
      (omega (arith, a, length-keep-le (λ t. not (str_eq t.binding old)) s.logins), b)

  below :
      (logins : Assoc Transaction) (s : Store)
      → ltb (length logins) 1024 ≡ true
      → logins ≡ s.logins
      → length s.logins < 1024
  below logins s room same = rw⁻¹ same (ground (arith, room))

  begin_login-Keeps :
      (h : Headers) (fresh : Fresh) (o return_to : String) (now : ℕ)
      → Keeps (begin_login cfg h fresh o return_to now)
  unfolding begin_login
  begin_login-Keeps h fresh o return_to now = Leads-bind (pruned now) λ u.
      Leads-bind (read _) λ replaces. Leads-bind (change-Leads _ (without_binding-IsBounded _)) λ u.
        Leads-bind (gets-Leads {P = IsBounded} (λ (s : Store). s.logins)) λ logins.
          Leads-bind (fail_unless-Leads (ltb (length logins) 1024) _ λ s h. h.1) λ u.
            change-Leads _ λ s (room, (same, k)). (
              omega (
                arith,
                below logins s room same,
                length-insert-le fresh.state_id (transaction cfg fresh o return_to replaces now)
                    s.logins,
              ),
              k.1,
            )

  claim-Keeps : (state_id o binding : String) (now : ℕ) → Keeps (claim cfg state_id o binding now)
  unfolding claim
  claim-Keeps state_id o binding now = Leads-bind (pruned now) λ u. Leads-bind (read _) λ found.
      Leads-bind (lifted _) λ tx. Leads-bind (required _ _) λ u.
        Leads-bind
          (change-Leads _ λ s (a, b). (
            omega (arith, a, length-adjust state_id (λ t. record t { in_flight = true }) s.logins),
            b,
          ))
          λ u. done _

  pub login-Keeps :
      (h : Headers) (q : Query) (drawn : Option Fresh) (now : ℕ) → Keeps (login cfg h q drawn now)
  unfolding login
  login-Keeps h q drawn now = Leads-bind (lifted _) λ o. Leads-bind (lifted _) λ fields.
      Leads-bind (required _ _) λ u. Leads-bind (required _ _) λ u.
        Leads-bind (lifted _)
          λ fresh. Leads-bind (begin_login-Keeps h fresh o _ now) λ u. done fresh

  failing : {A : Type 0} (e : Error) → Keeps (fail {A = A} e)
  unfolding fail
  failing e = record { at = λ s b. b }

  pub callback_start-Keeps :
      (h : Headers) (q : Query) (now : ℕ) → Keeps (callback_start cfg h q now)
  unfolding callback_start
  callback_start-Keeps h q now = Leads-bind (lifted _) λ o. Leads-bind (lifted _) λ fields.
      Leads-bind (lifted _) λ state_id. Leads-bind (lifted _) λ binding.
        Leads-bind (claim-Keeps state_id o binding now) λ attempt.
          Leads-if _ (λ e. done attempt) λ e. guarded-Keeps state_id _ (failing login_required)

  -- The sessions that are left when a login replaces one.
  length-without_replaced :
      (old : Option String) (s : Store)
      → (ltb (length s.sessions) 4096 || holds_session old s) ≡ true
      → length s.sessions ≤ 4096
      → length (without_replaced old s.sessions) < 4096
  length-without_replaced none s room b = ground (arith, room)
  length-without_replaced (some id) s room b = elim (Option-cases (get id s.sessions)) [
    | inl gone ↦ ground (arith, room, gone, length-remove-le id s.sessions)
    | inr (v, there) ↦ omega (arith, b, length-remove-lt id s.sessions v there)
  ]

  enter-Keeps :
      (a : Attempt) (id : String) (new : Session) (later : ℕ) → Keeps (enter cfg a id new later)
  unfolding enter
  enter-Keeps a id new later = Leads-bind (pruned later) λ u. Leads-bind (read _) λ found.
      Leads-bind (required _ _) λ u.
        Leads-bind (gets-Leads {P = IsBounded} (λ (s : Store). s.sessions)) λ sessions.
          Leads-bind (gets-Leads (holds_session a.tx.replaces_session)) λ replaces.
            Leads-bind (fail_unless-Leads (ltb (length sessions) 4096 || replaces) _ λ s h. h.1.1)
              λ u. change-Leads _ λ s (room, (held, (same, k))). (
                omega (arith, k.0, length-remove-le a.state_id s.logins),
                omega (
                  arith,
                  length-insert-le id new (without_replaced a.tx.replaces_session s.sessions),
                  length-without_replaced a.tx.replaces_session s
                      (room_at s sessions replaces room held same) k.1,
                ),
              )
    where
      room_at :
          (s : Store) (sessions : Assoc Session) (replaces : Bool)
          → (ltb (length sessions) 4096 || replaces) ≡ true
          → replaces ≡ holds_session a.tx.replaces_session s
          → sessions ≡ s.sessions
          → (ltb (length s.sessions) 4096 || holds_session a.tx.replaces_session s) ≡ true
      room_at s sessions replaces room held same = rw⁻¹ (held, same) room

  finish-Keeps :
      (a : Attempt) (v : Verified) (drawn : Option (String × String)) (now later : ℕ)
      → Keeps (finish cfg a v drawn now later)
  unfolding finish
  finish-Keeps a v drawn now later =
      Leads-bind (required _ _)
        λ u. Leads-bind (lifted _) λ (id, csrf). Leads-bind (enter-Keeps a id _ later) λ u. done id

  pub callback_end-Keeps :
      (a : Attempt) (answer : Option Verified) (drawn : Option (String × String)) (now later : ℕ)
      → Keeps (callback_end cfg a answer drawn now later)
  unfolding callback_end
  callback_end-Keeps a none drawn now later = guarded-Keeps a.state_id _ (failing login_required)
  callback_end-Keeps a (some v) drawn now later =
      guarded-Keeps a.state_id _ (finish-Keeps a v drawn now later)

  session-Keeps : (h : Headers) (o : String) (now : ℕ) → Keeps (session cfg h o now)
  unfolding session
  session-Keeps h o now = Leads-bind (lifted _) λ id.
      Leads-bind (pruned now)
        λ u. Leads-bind (read _) λ found. Leads-bind (lifted _) λ s. done (id, s)

  mutation-Keeps : (h : Headers) (s : Session) → Keeps (mutation h s)
  unfolding mutation
  mutation-Keeps h s = Leads-bind (required _ _) λ u. required _ _

  present-Keeps : (id : String) (now : ℕ) → Keeps (present cfg id now)
  unfolding present
  present-Keeps id now = Leads-bind (pruned now) λ u. Leads-bind (read _) λ found. lifted _

  adjusted :
      (id : String) (f : Session → Session)
      → Keeps (change (λ s. record s { sessions = adjust id f s.sessions }))
  adjusted id f = change-Leads _ λ s (a, b). (a, omega (arith, b, length-adjust id f s.sessions))

  or_end_session-Keeps :
      {A : Type 0} (id : String) (m : Action A) → Keeps m → Keeps (or_end_session id m)
  unfolding or_end_session
  or_end_session-Keeps {A = A} id m k = record { at = λ s b. after (m s) (k.at s b) }
    where
      after :
          (r : Result Error A × Store)
          → Gives (λ a. IsBounded) IsBounded r
          → Gives (λ a. IsBounded) IsBounded (ended_on_failure id r)
      after (ok a, s) b = b
      after (err e, s) (a, b) = (a, omega (arith, b, length-remove-le id s.sessions))

  refresh-Keeps :
      (id : String) (token : Option String) (answer : Option Verified) (later : ℕ)
      → Keeps (refresh cfg id token answer later)
  unfolding refresh
  refresh-Keeps id token answer later = or_end_session-Keeps id _ (
      Leads-bind (lifted _) λ old. Leads-bind (lifted _) λ v.
        Leads-bind (present-Keeps id later) λ s. adjusted id (set_credentials (refreshed v old)))

  pub resolve_session-Keeps :
      (id : String) (activity : Bool) (answer : Option Verified) (first waited later last : ℕ)
      → Keeps (resolve_session cfg id activity answer first waited later last)
  unfolding resolve_session
  resolve_session-Keeps id activity answer first waited later last =
      Leads-bind (present-Keeps id first) λ s. Leads-bind (required _ _) λ u.
        Leads-bind
          (Leads-if (leb s.credentials.expires (waited + 30))
            (λ e. refresh-Keeps id s.credentials.refresh answer later) λ e. done tt)
          λ u.
            Leads-bind (present-Keeps id last)
              λ found. Leads-bind (adjusted id (seen_at activity last)) λ u. done _

  pub from_request_parts-Keeps :
      (is_reading : Bool) (h : Headers) (answer : Option Verified) (first waited later last : ℕ)
      → Keeps (from_request_parts cfg is_reading h answer first waited later last)
  unfolding from_request_parts
  from_request_parts-Keeps is_reading h answer first waited later last = Leads-bind (lifted _) λ o.
      Leads-bind (session-Keeps h o first) λ (id, s).
        Leads-bind (Leads-if is_reading (λ e. done tt) λ e. mutation-Keeps h s)
          λ u. resolve_session-Keeps id true answer first waited later last

  pub logout-Keeps : (h : Headers) (now : ℕ) → Keeps (logout cfg h now)
  unfolding logout
  logout-Keeps h now = Leads-bind (lifted _) λ o. Leads-bind (session-Keeps h o now) λ (id, s).
      Leads-bind (mutation-Keeps h s) λ u. change-Leads _ λ st (a, b). (
        omega (
          arith,
          a,
          length-keep-le (λ t. not (is_cancelled cfg id o (cookie h login_cookie) t)) st.logins,
        ),
        omega (arith, b, length-remove-le id st.sessions),
      )
