-- ===== src/Browser/Logouts.antt =====
-- What `logout` of sigiledd/src/browser/mod.rs does to callbacks that wait for the identity
-- provider.
use sigiled.Base.{
  ℕ, ◌≡◌, refl, sym, ap, ◌∙◌, String, Bool, true, not, Option, none, some, arith, ltb, Option-cases,
  inl, inr, Assoc, get, keep, eq_iff, get-remove, get-keep,
}
use sigiled.Routine.{
  or_err-ok, Gives, Leads, Leads-bind, Leads-pure, Leads-from, Leads-to, Leads-given,
  fail_unless-Leads, lift-Leads, gets-Leads, change-Leads, or_err, ok, err, Result,
}
use sigiled.Browser.Requests.{Error, login_required, Headers, is_text, origin, cookie}
use sigiled.Browser.Store.{
  Config, Verified, Attempt, Transaction, Store, session_cookie, login_cookie, prune, callback_end,
}
use sigiled.Browser.Sessions.{session, mutation, logout, logged_out, is_cancelled}
use sigiled.Browser.Continuity.{Continues, filtered-some, some_injective, none-some}
use sigiled.Browser.Callbacks.{Entered, Refused, callback_end-Entered}

module _ (cfg : Config) (before : Store) where
  abbrev Anything : Store → Type 0
  Anything s = Unit

  session-pruned :
      (h : Headers) (o : String) (now : ℕ)
      → Leads
          (λ s. s ≡ before)
          Anything
          (λ (id, t) s. (cookie h session_cookie ≡ some id) × (s ≡ prune cfg now before))
          (session cfg h o now)
  unfolding session
  session-pruned h o now =
      Leads-bind (lift-Leads (or_err login_required (cookie h session_cookie)) λ s e. tt) λ id.
        Leads-given λ given.
          Leads-bind {Q = λ u s. s ≡ prune cfg now before}
            (change-Leads (prune cfg now) λ s e. ap (prune cfg now) e)
            λ u. Leads-bind (gets-Leads _) λ found.
              Leads-bind (lift-Leads (or_err login_required found) λ s h. tt) λ t.
                Leads-from
                  (λ s (e, (same, p)).
                    (or_err-ok login_required (cookie h session_cookie) id given, p))
                  (Leads-pure _ (id, t))

  -- The store that a logout of the request's session leaves.
  abbrev Left : Headers → ℕ → Store → Type 0
  Left h now after =
      (id : String) × (o : String) × (cookie h session_cookie ≡ some id)
      × (after ≡ logged_out cfg id o (cookie h login_cookie) (prune cfg now before))

  logout-Left :
      (h : Headers) (now : ℕ)
      → Leads (λ s. s ≡ before) Anything (λ u. Left h now) (logout cfg h now)
  unfolding logout mutation
  logout-Left h now =
      Leads-bind (Leads-to (λ o s h. h.1) (lift-Leads (origin cfg.origins h) λ s e. tt)) λ o.
        Leads-bind (session-pruned h o now) λ (id, t). Leads-given λ given.
          Leads-bind
            (Leads-bind (fail_unless-Leads {P = λ s. s ≡ prune cfg now before} _ _ λ s e. tt)
              λ u. fail_unless-Leads _ _ λ s e. tt)
            λ u.
              change-Leads (logged_out cfg id o (cookie h login_cookie))
                λ s (a, (b, e)). (id, o, given, ap (logged_out cfg id o (cookie h login_cookie)) e)

  gone :
      (h : Headers) (now : ℕ) (id o k : String) (t : Transaction)
      → get k before.logins ≡ some t
      → t.replaces_session ≡ some id
      → get k (logged_out cfg id o (cookie h login_cookie) (prune cfg now before)).logins ≡ none
  unfolding prune
  gone h now id o k t there replaces =
      elim (Option-cases
        (get k (logged_out cfg id o (cookie h login_cookie) (prune cfg now before)).logins)) [
          | inl none' ↦ none'
          | inr (x, e) ↦
              let (kept, calm) =
                filtered-some calm_in (get k young) x (sym (get-keep calm_in k young) ∙ e) in
              let (was, early) =
                filtered-some early_in (get k before.logins) x
                  (sym (get-keep early_in k before.logins) ∙ kept) in
              absurd (cancelled x (some_injective x t (sym was ∙ there)) calm)
        ]
    where
      calm_in : Transaction → Bool
      calm_in y = not (is_cancelled cfg id o (cookie h login_cookie) y)

      early_in : Transaction → Bool
      early_in y = ltb now y.expires

      young : Assoc Transaction
      young = keep early_in before.logins

      replacing : (u : Option String) → u ≡ some id → is_text u id ≡ true
      replacing none e = absurd (ground (arith, e))
      replacing (some i) e = ground (arith, e, eq_iff i id)

      cancelled : (x : Transaction) → x ≡ t → calm_in x ≡ true → ⊥
      cancelled x same calm =
          ground (
            arith,
            calm,
            replacing x.replaces_session (ap (λ y. y.replaces_session) same ∙ replaces),
          )

  -- A logout ends the session of the request's cookie, and a login that was to replace this
  -- session lets no session in: where its callback is already waiting for the provider, the
  -- callback fails, however and whenever the provider answers.
  pub logout-callback_end :
      (h : Headers) (now : ℕ) (a : Attempt) (t : Transaction) (id : String)
      → cookie h session_cookie ≡ some id
      → get a.state_id before.logins ≡ some t
      → t.replaces_session ≡ some id
      → Gives
          (λ u after.
            (get id after.sessions ≡ none)
            × ((answer : Option Verified) (drawn : Option (String × String)) (answered later : ℕ)
                → Gives
                    (λ new s. ⊥)
                    (Continues after)
                    (callback_end cfg a answer drawn answered later after)))
          (λ s. Unit)
          (logout cfg h now before)
  logout-callback_end h now a t id cookied there replaces =
      (Leads-to (λ u s left. promised s left) (logout-Left h now)).at before refl
    where
      Failing : Store → Type 0
      Failing after =
          (get id after.sessions ≡ none)
          × ((answer : Option Verified) (drawn : Option (String × String)) (answered later : ℕ)
              → Gives (λ new s. ⊥) (Continues after)
                  (callback_end cfg a answer drawn answered later after))

      refused :
          (answer : Option Verified) (drawn : Option (String × String)) (answered later : ℕ)
          (after : Store)
          → get a.state_id after.logins ≡ none
          → (r : Result Error String × Store)
          → Gives (Entered cfg after a answer drawn answered later) (Refused cfg after a) r
          → Gives (λ new s. ⊥) (Continues after) r
      refused answer drawn answered later after e (ok new, s)
            (v, csrf, i, d, early, (x, was, young, claimed, bound, from), got, done, others) =
          none-some x (sym e ∙ was)
      refused answer drawn answered later after e (err c, s) (k, continues) = continues

      promised : (after : Store) → Left h now after → Failing after
      promised after (i, o, given, e) =
          let same = some_injective i id (sym given ∙ cookied) in
          (
            ap (λ s. get id s.sessions) e
                ∙ ground
                    (arith, get-remove i id (prune cfg now before).sessions, eq_iff i id, same),
            λ answer drawn answered later.
                refused answer drawn answered later after
                  (ap (λ s. get a.state_id s.logins) e
                    ∙ gone h now i o a.state_id t there (replaces ∙ ap some (sym same)))
                  (callback_end cfg a answer drawn answered later after)
                  (callback_end-Entered cfg after a answer drawn answered later),
          )
