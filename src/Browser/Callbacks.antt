-- ===== src/Browser/Callbacks.antt =====
-- The sessions that `callback` of sigiledd/src/browser/mod.rs lets in, and what `logout` does to
-- callbacks that wait for the identity provider.
use sigiled.Base.{
  ℕ, ◌≡◌, ◌≢◌, refl, sym, ap, subst, ◌∙◌, String, true, ◌||◌, Option, none, some, Option-cases, inl,
  inr, arith, ltb, Assoc, get, remove, length, eq_iff, get-insert, get-remove, get-keep,
}
use sigiled.Routine.{
  or_err-ok, Gives, Leads, Leads-bind, Leads-pure, Leads-from, Leads-given, fail_unless-Leads,
  lift-Leads, gets-Leads, change-Leads, fail, or_err, ok, err, Result,
}
use sigiled.Browser.Requests.{Error, login_required, entropy_unavailable}
use sigiled.Browser.Store.{
  Config, Verified, Attempt, Transaction, Session, Store, prune, drop_login, guarded, still_claimed,
  entered, enter, finish, callback_end, new_session, without_replaced, holds_session,
}
use sigiled.Browser.Continuity.{none-some, filtered-some, Continues, start-C, get-prune}

module _ (cfg : Config) (before : Store) (a : Attempt) where
  -- The transaction is there, claimed by an attempt with the same browser binding and origin.
  abbrev pub Claimed : ℕ → Type 0
  Claimed later =
      (t : Transaction) × (get a.state_id before.logins ≡ some t)
      × (ltb later t.expires ≡ true)
      × (t.in_flight ≡ true)
      × (t.binding ≡ a.tx.binding)
      × (t.origin ≡ a.tx.origin)

  -- What an answered callback leaves where it lets a session in.
  abbrev pub Entered : Option Verified → Option (String × String) → ℕ → ℕ → String → Store → Type 0
  Entered answer drawn now later id after =
      (v : Verified) × (csrf : String) × (answer ≡ some v)
      × (drawn ≡ some (id, csrf))
      × (ltb now a.tx.expires ≡ true)
      × Claimed later
      × (get id after.sessions ≡ some (new_session cfg a v csrf now))
      × (get a.state_id after.logins ≡ none)
      × ((j : String) (t : Session)
          → id ≢ j
          → get j after.sessions ≡ some t
          → (get j before.sessions ≡ some t) × (a.tx.replaces_session ≢ some j))

  -- What is left where it lets none in.
  abbrev pub Refused : Store → Type 0
  Refused after = (get a.state_id after.logins ≡ none) × Continues before after

  still_claimed-Claimed :
      (later : ℕ)
      → still_claimed cfg a (get a.state_id (prune cfg later before).logins) ≡ true
      → Claimed later
  unfolding prune
  still_claimed-Claimed later e =
      elim (Option-cases (get a.state_id (prune cfg later before).logins)) [
        | inl gone ↦ absurd (ground (arith, e, gone))
        | inr (t, there) ↦
            let (was, early) =
              filtered-some (λ x. ltb later x.expires) (get a.state_id before.logins) t
                (sym (get-keep (λ x. ltb later x.expires) a.state_id before.logins) ∙ there) in
            let same = subst (λ o. still_claimed cfg a o ≡ true) there e in
            (
              t,
              was,
              early,
              ground (arith, same),
              ground (arith, same, eq_iff t.binding a.tx.binding),
              ground (arith, same, eq_iff t.origin a.tx.origin),
            )
      ]

  enter-Leads :
      (id : String) (new : Session) (later : ℕ)
      → Leads
          (λ s. s ≡ before)
          (Continues before)
          (λ u s. Claimed later × (s ≡ entered cfg a id new (prune cfg later before)))
          (enter cfg a id new later)
  unfolding enter
  enter-Leads id new later =
      Leads-bind (change-Leads (prune cfg later) λ s e. ap (prune cfg later) e) λ u.
        Leads-bind (gets-Leads {P = Pruned} (λ (s : Store). get a.state_id s.logins)) λ found.
          Leads-bind
            (fail_unless-Leads (still_claimed cfg a found) login_required λ s h. left s h.1)
            λ u.
              Leads-bind
                (Leads-from (λ s (held, (same, e)). (claimed found s held same e, e))
                  (gets-Leads {P = λ s. Claimed later × Pruned s} (λ (s : Store). s.sessions)))
                λ sessions.
                  Leads-bind (gets-Leads (holds_session a.tx.replaces_session)) λ replaces.
                    Leads-bind
                      (fail_unless-Leads (ltb (length sessions) 4096 || replaces) _
                        λ s h. left s h.1.1.1)
                      λ u.
                        change-Leads (entered cfg a id new)
                          λ s (room, (held, (same, (c, e)))). (c, ap (entered cfg a id new) e)
    where
      Pruned : Store → Type 0
      Pruned s = s ≡ prune cfg later before

      left : (s : Store) → Pruned s → Continues before s
      left s e j t there = (
        t,
        (get-prune cfg before j later before t (subst (λ x. get j x.sessions ≡ some t) e there)).0,
        refl,
      )

      claimed :
          (found : Option Transaction) (s : Store)
          → still_claimed cfg a found ≡ true
          → found ≡ get a.state_id s.logins
          → s ≡ prune cfg later before
          → Claimed later
      claimed found s held same e = still_claimed-Claimed later (
          subst (λ o. still_claimed cfg a o ≡ true) (same ∙ ap (λ x. get a.state_id x.logins) e)
            held)

  remaining :
      (old : Option String) (m : Assoc Session) (j : String) (t : Session)
      → get j (without_replaced old m) ≡ some t
      → (get j m ≡ some t) × (old ≢ some j)
  remaining none m j t e = (e, λ n. none-some j n)
  remaining (some r) m j t e = (
    ground (arith, e, get-remove r j m),
    λ same. absurd (ground (arith, e, get-remove r j m, same, eq_iff r j)),
  )

  others :
      (id : String) (new : Session) (later : ℕ) (j : String) (t : Session)
      → id ≢ j
      → get j (entered cfg a id new (prune cfg later before)).sessions ≡ some t
      → (get j before.sessions ≡ some t) × (a.tx.replaces_session ≢ some j)
  others id new later j t other there =
      let m = without_replaced a.tx.replaces_session (prune cfg later before).sessions in
      let (was, kept) =
        remaining a.tx.replaces_session (prune cfg later before).sessions j t
          (ground (arith, there, get-insert id j new m, other, eq_iff id j)) in
      ((get-prune cfg before j later before t was).0, kept)

  finish-Leads :
      (v : Verified) (drawn : Option (String × String)) (now later : ℕ)
      → Leads
          (λ s. s ≡ before)
          (Continues before)
          (λ id s.
            (csrf : String) × (drawn ≡ some (id, csrf))
            × (ltb now a.tx.expires ≡ true)
            × Claimed later
            × (s ≡ entered cfg a id (new_session cfg a v csrf now) (prune cfg later before)))
          (finish cfg a v drawn now later)
  unfolding finish
  finish-Leads v drawn now later =
      Leads-bind (fail_unless-Leads (ltb now a.tx.expires) login_required λ s e. start s e) λ u.
        Leads-given λ early.
          Leads-bind (lift-Leads (or_err entropy_unavailable drawn) λ s e. start s e) λ (id, csrf).
            Leads-given λ d. Leads-bind (enter-Leads id (new_session cfg a v csrf now) later) λ u.
              Leads-from
                (λ s (c, e). (csrf, or_err-ok entropy_unavailable drawn (id, csrf) d, early, c, e))
                (Leads-pure _ id)
    where
      start : (s : Store) → s ≡ before → Continues before s
      start s e j t there = (t, subst (λ x. get j x.sessions ≡ some t) e there, refl)

  -- However the provider answers a callback and whenever: it lets a session in only where the
  -- provider verified the caller before the transaction expired, and the transaction is still
  -- there, claimed and for the same browser and origin. The new session is for the verified
  -- subject, the session that the login was to replace is gone, and any other session was there
  -- before, unchanged. Otherwise no session comes in or changes its identity. In either case the
  -- transaction is gone.
  pub callback_end-Entered :
      (answer : Option Verified) (drawn : Option (String × String)) (now later : ℕ)
      → Gives
          (Entered answer drawn now later)
          Refused
          (callback_end cfg a answer drawn now later before)
  unfolding callback_end guarded fail drop_login
  callback_end-Entered none drawn now later = (
    ground (arith, get-remove a.state_id a.state_id before.logins, eq_iff a.state_id a.state_id),
    start-C cfg before,
  )
  callback_end-Entered (some v) drawn now later =
      after (finish cfg a v drawn now later before)
        ((finish-Leads v drawn now later).at before refl)
    where
      after :
          (r : Result Error String × Store)
          → Gives
              (λ id s.
                (csrf : String) × (drawn ≡ some (id, csrf))
                × (ltb now a.tx.expires ≡ true)
                × Claimed later
                × (s ≡ entered cfg a id (new_session cfg a v csrf now) (prune cfg later before)))
              (Continues before)
              r
          → Gives (Entered (some v) drawn now later) Refused (r.0, drop_login a.state_id r.1)
      after (err e, s) c = (
        ground (arith, get-remove a.state_id a.state_id s.logins, eq_iff a.state_id a.state_id),
        c,
      )
      after (ok id, s) (csrf, d, early, c, e) = rw e (
        v,
        csrf,
        refl,
        d,
        early,
        c,
        ground (
          arith,
          get-insert id id (new_session cfg a v csrf now)
              (without_replaced a.tx.replaces_session (prune cfg later before).sessions),
          eq_iff id id,
        ),
        ground (
          arith,
          get-remove a.state_id a.state_id (remove a.state_id (prune cfg later before).logins),
          eq_iff a.state_id a.state_id,
        ),
        others id (new_session cfg a v csrf now) later,
      )
