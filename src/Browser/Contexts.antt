-- ===== src/Browser/Contexts.antt =====
-- The contexts that the extractor and `logout` of sigiledd/src/browser/mod.rs work with.
use sigiled.Base.{
  ℕ, ◌≡◌, refl, sym, ap, subst, ◌∙◌, String, Bool, true, false, Option, none, some, arith, ltb,
  if◌then◌else◌, get, str_eq, eq_iff, codes,
}
use sigiled.Routine.{
  or_err-ok, Gives, Leads, Leads-bind, Leads-pure, Leads-from, Leads-to, Leads-given,
  fail_unless-Leads, lift-Leads, gets-Leads, pure, or_err, ok,
}
use sigiled.Auth.Token.Compare.{constant_time_eq_iff}
use sigiled.Browser.Requests.{login_required, Headers, single, is_text, origin, cookie}
use sigiled.Browser.Store.{Config, Verified, Session, Store, session_cookie}
use sigiled.Browser.Sessions.{
  session, mutation, from_request_parts, BrowserContext, is_expected, of_origin,
}
use sigiled.Browser.Continuity.{
  some_injective, filtered-some, Continues, Kin, C, Found, Genuine, start-C, lifted, pruned,
  resolve_session-Genuine,
}

-- The headers that a request must bear to change something.
abbrev pub Guarded : Headers → Session → Type 0
Guarded h s =
    (single h "origin" ≡ some s.origin)
    × ((v : String) × (single h "x-sigil-csrf" ≡ some v) × (codes v ≡ codes s.csrf))

pub is_text-some : (o : Option String) (s : String) → is_text o s ≡ true → o ≡ some s
is_text-some none s e = absurd (ground (arith, e))
is_text-some (some t) s e = ground (arith, e, eq_iff t s)

is_expected-some :
    (o : Option String) (csrf : String)
    → is_expected o csrf ≡ true
    → (v : String) × (o ≡ some v) × (codes v ≡ codes csrf)
is_expected-some none csrf e = absurd (ground (arith, e))
is_expected-some (some v) csrf e = (v, refl, (constant_time_eq_iff (codes v) (codes csrf)).0 e)

of_origin-some :
    (o : String) (found : Option Session) (s : Session)
    → of_origin o found ≡ some s
    → (found ≡ some s) × (s.origin ≡ o)
of_origin-some o none s e = absurd (ground (arith, e))
of_origin-some o (some x) s e =
    let (a, b) = filtered-some (λ y. str_eq y.origin o) (some x) s e in
    (a, ground (arith, b, eq_iff s.origin o))

module _ (cfg : Config) (before : Store) where
  -- What is known of the session that a request's cookie names.
  abbrev pub Named : Headers → String → String → Session → Type 0
  Named h o id t = (cookie h session_cookie ≡ some id) × Found cfg before id t × (t.origin ≡ o)

  session-Named :
      (h : Headers) (o : String) (now : ℕ)
      → Leads
          (C cfg before)
          (C cfg before)
          (λ (id, t) s. Named h o id t × C cfg before s)
          (session cfg h o now)
  unfolding session
  session-Named h o now =
      Leads-bind (lift-Leads (or_err login_required (cookie h session_cookie)) λ s c. c) λ id.
        Leads-given λ given. Leads-bind (pruned cfg before now) λ u.
          Leads-bind
            (gets-Leads {P = C cfg before} (λ (s : Store). of_origin o (get id s.sessions)))
            λ found. Leads-bind (lift-Leads (or_err login_required found) λ s h. h.1) λ t.
              Leads-from (λ s (e, (same, c)). (named id found t s given e same c, c))
                (Leads-pure (λ (id, t) s. Named h o id t × C cfg before s) (id, t))
    where
      named :
          (id : String) (found : Option Session) (t : Session) (s : Store)
          → or_err login_required (cookie h session_cookie) ≡ ok id
          → or_err login_required found ≡ ok t
          → found ≡ of_origin o (get id s.sessions)
          → C cfg before s
          → Named h o id t
      named id found t s given e same c =
          let (there, from) =
            of_origin-some o (get id s.sessions) t
              (sym same ∙ or_err-ok login_required found t e) in
          (or_err-ok login_required (cookie h session_cookie) id given, c id t there, from)

  mutation-Guarded :
      (h : Headers) (s : Session)
      → Leads (C cfg before) (C cfg before) (λ u st. Guarded h s × C cfg before st) (mutation h s)
  unfolding mutation
  mutation-Guarded h s =
      Leads-bind (fail_unless-Leads (is_text (single h "origin") s.origin) _ λ st c. c) λ u.
        Leads-given λ from.
          Leads-to
            (λ u st (e, c). (
              (
                is_text-some (single h "origin") s.origin from,
                is_expected-some (single h "x-sigil-csrf") s.csrf e,
              ),
              c,
            ))
            (fail_unless-Leads (is_expected (single h "x-sigil-csrf") s.csrf) _ λ st c. c)

  Guarded-Kin : (h : Headers) (s t : Session) → Kin s t → Guarded h t → Guarded h s
  Guarded-Kin h s t kin (from, (v, sent, equal)) =
      (from ∙ ap (λ i. some i.0) kin, (v, sent, equal ∙ ap (λ i. codes i.3) kin))

  -- What a context promises of the request: the session that the request's one session cookie
  -- names was there before, and the context is its.
  abbrev pub Vouched : Bool → Headers → ℕ → BrowserContext → Type 0
  Vouched is_reading h last c =
      (s : Session) × (cookie h session_cookie ≡ some c.session_id)
      × (get c.session_id before.sessions ≡ some s)
      × (c.csrf ≡ s.csrf)
      × (c.subject ≡ s.subject)
      × (ltb last s.absolute ≡ true)
      × (is_reading ≡ false → Guarded h s)

  Genuine-Vouched :
      (is_reading : Bool) (h : Headers) (o id : String) (t : Session) (last : ℕ)
      (c : BrowserContext)
      → Named h o id t
      → (is_reading ≡ false → Guarded h t)
      → Genuine cfg before id last c
      → Vouched is_reading h last c
  Genuine-Vouched is_reading h o id t last c (given, (s', there', kin), from) guards
        (s, there, same, csrf, subject, absolute, early) =
      (
        s,
        given ∙ ap some (sym same),
        subst (λ i. get i before.sessions ≡ some s) (sym same) there,
        csrf,
        subject,
        early,
        λ b.
            Guarded-Kin h s t (subst (λ x. Kin x t) (some_injective s' s (sym there' ∙ there)) kin)
              (guards b),
      )

  -- However the identity provider answers: the extractor gives a context only for a session that
  -- was there before under the request's one session cookie, with that session's subject and CSRF
  -- token, before the session's absolute end; and for a method that changes something only where
  -- the request names the session's origin and repeats its CSRF token. It lets no session in, and
  -- changes no session's origin, subject, nonce, CSRF token or absolute end.
  pub from_request_parts-Vouched :
      (is_reading : Bool) (h : Headers) (answer : Option Verified) (first waited later last : ℕ)
      → Gives
          (λ c after. Vouched is_reading h last c × Continues before after)
          (Continues before)
          (from_request_parts cfg is_reading h answer first waited later last before)
  unfolding from_request_parts
  from_request_parts-Vouched is_reading h answer first waited later last =
      (Leads-bind (lifted cfg before (origin cfg.origins h)) λ o.
          Leads-bind (session-Named h o first) λ (id, t). Leads-given λ named.
            Leads-bind {Q = λ u s. (is_reading ≡ false → Guarded h t) × C cfg before s}
              (checked is_reading t)
              λ u. Leads-given λ guards.
                Leads-to
                  (λ c s (g, k). (Genuine-Vouched is_reading h o id t last c named guards g, k))
                  (resolve_session-Genuine cfg before id true answer first waited later last)).at
        before (start-C cfg before)
    where
      checked :
          (b : Bool) (t : Session)
          → Leads
              (C cfg before)
              (C cfg before)
              (λ u s. (b ≡ false → Guarded h t) × C cfg before s)
              (if b then pure tt else mutation h t)
      checked true t =
          Leads-from (λ s c. ((λ e. absurd (ground (arith, e))), c))
            (Leads-pure (λ u s. (true ≡ false → Guarded h t) × C cfg before s) tt)
      checked false t = Leads-to (λ u s (g, c). ((λ e. g), c)) (mutation-Guarded h t)
