-- ===== src/Browser/Continuity.antt =====
-- The sessions that the routines of sigiledd/src/browser/mod.rs find and leave.
use sigiled.Base.{
  ℕ, ◌+◌, ◌≡◌, refl, sym, ap, subst, ◌∙◌, String, Bool, true, false, Option, none, some, Bool-cases,
  inl, inr, arith, ltb, leb, if◌then◌else◌, get, remove, adjust, str_eq, get-keep, get-remove,
  get-adjust, filtered, map_option,
}
use sigiled.Routine.{
  or_err-ok, lift, Gives, Leads, Leads-bind, Leads-pure, Leads-from, Leads-to, Leads-given,
  Leads-if, fail_unless-Leads, lift-Leads, gets-Leads, change-Leads, or_err, ok, err, Result,
  change,
}
use sigiled.Browser.Requests.{Error, login_required}
use sigiled.Browser.Store.{Config, Verified, Session, Store, Action, live, prune}
use sigiled.Browser.Sessions.{
  present, refresh, or_end_session, resolve_session, BrowserContext, context, set_credentials,
  seen_at, refreshed, ended_on_failure,
}

abbrev pub identity : Session → String × String × String × String × ℕ
identity s = (s.origin, s.subject, s.nonce, s.csrf, s.absolute)

-- One session at two times: its credentials and the instant of its last use may change.
abbrev pub Kin : Session → Session → Type 0
Kin s t = identity t ≡ identity s

-- No session has come in, and none has changed its identity.
abbrev pub Continues : Store → Store → Type 0
Continues before after =
    (j : String) (t : Session)
    → get j after.sessions ≡ some t
    → (s : Session) × (get j before.sessions ≡ some s) × Kin s t

or_else : {A : Type 0} → A → Option A → A
or_else d none = d
or_else d (some a) = a

pub some_injective : {A : Type 0} (a b : A) → some a ≡ some b → a ≡ b
unfolding or_else
some_injective a b e = ap (or_else a) e

pub none-some : {A : Type 0} (a : A) → none ≡ some a → ⊥
none-some a e = ground (arith, e)

map_option-some :
    (f : Session → Session) (o : Option Session) (t : Session)
    → map_option f o ≡ some t
    → (x : Session) × (o ≡ some x) × (f x ≡ t)
map_option-some f none t e = absurd (none-some t e)
map_option-some f (some x) t e = (x, refl, some_injective (f x) t e)

pub filtered-some :
    {A : Type 0} (p : A → Bool) (o : Option A) (a : A)
    → filtered p o ≡ some a
    → (o ≡ some a) × (p a ≡ true)
filtered-some p none a e = absurd (ground (arith, e))
filtered-some p (some b) a e = elim (Bool-cases (p b)) [
  | inl passed ↦ (same passed, subst (λ x. p x ≡ true) (some_injective b a (same passed)) passed)
  | inr dropped ↦ absurd (nothing dropped)
]
  where
    same : p b ≡ true → some b ≡ some a
    same passed = sym (ap (λ c. if c then some b else none) passed) ∙ e

    nothing : p b ≡ false → ⊥
    nothing dropped = none-some a (sym (ap (λ c. if c then some b else none) dropped) ∙ e)

module _ (cfg : Config) (before : Store) where
  abbrev pub C : Store → Type 0
  C s = Continues before s

  abbrev pub Keeps {ℓ} : {A : Type ℓ} → Action A → Type 0
  Keeps m = Leads C C (λ a. C) m

  pub start-C : C before
  start-C j t e = (t, e, refl)

  -- The sessions that a pruning leaves.
  pub get-prune :
      (j : String) (now : ℕ) (s : Store) (t : Session)
      → get j (prune cfg now s).sessions ≡ some t
      → (get j s.sessions ≡ some t) × (live cfg t now ≡ true)
  unfolding prune
  get-prune j now s t e =
      filtered-some (λ x. live cfg x now) (get j s.sessions) t
        (sym (get-keep (λ x. live cfg x now) j s.sessions) ∙ e)

  prune-C : (now : ℕ) (s : Store) → C s → C (prune cfg now s)
  prune-C now s c j t e = c j t (get-prune j now s t e).0

  remove-C : (id : String) (s : Store) → C s → C (record s { sessions = remove id s.sessions })
  remove-C id s c j t e = c j t (ground (arith, e, get-remove id j s.sessions))

  adjust-C :
      (id : String) (f : Session → Session)
      → ((x : Session) → Kin x (f x))
      → (s : Store) → C s
      → C (record s { sessions = adjust id f s.sessions })
  adjust-C id f kin s c j t e = elim (Bool-cases (str_eq id j)) [
    | inr other ↦ c j t (ground (arith, e, other, get-adjust id j f s.sessions))
    | inl same ↦
        let (x, there, is) = map_option-some f (get j s.sessions) t (changed same) in
        let (y, was, k) = c j x there in (y, was, ap identity (sym is) ∙ kin x ∙ k)
  ]
    where
      changed : str_eq id j ≡ true → map_option f (get j s.sessions) ≡ some t
      changed same =
          sym (
            get-adjust id j f s.sessions
            ∙ ap (λ b. if b then map_option f (get j s.sessions) else get j s.sessions) same)
          ∙ e

  pub pruned : (now : ℕ) → Keeps (change (prune cfg now))
  pruned now = change-Leads (prune cfg now) (prune-C now)

  adjusted :
      (id : String) (f : Session → Session)
      → ((x : Session) → Kin x (f x))
      → Keeps (change (λ s. record s { sessions = adjust id f s.sessions }))
  adjusted id f kin = change-Leads _ (adjust-C id f kin)

  -- What is known of a session that a routine has found: the session that was there before.
  abbrev pub Found : String → Session → Type 0
  Found id t = (s : Session) × (get id before.sessions ≡ some s) × Kin s t

  pub Found-present :
      (id : String) (now : ℕ)
      → Leads C C (λ t s. (Found id t × (live cfg t now ≡ true)) × C s) (present cfg id now)
  unfolding present
  Found-present id now =
      Leads-bind {Q = λ u s. Pruned s}
        (change-Leads _ λ s c. (prune-C now s c, λ j t e. (get-prune j now s t e).1))
        λ u. Leads-bind (gets-Leads {P = Pruned} (λ (s : Store). get id s.sessions)) λ found.
          Leads-to
            (λ t s (e, (same, (c, l))).
              ((c id t (there found t s e same), l id t (there found t s e same)), c))
            (lift-Leads (or_err login_required found) λ s h. h.1.0)
    where
      Pruned : Store → Type 0
      Pruned s =
          C s × ((j : String) (t : Session) → get j s.sessions ≡ some t → live cfg t now ≡ true)

      there :
          (found : Option Session) (t : Session) (s : Store)
          → or_err login_required found ≡ ok t
          → found ≡ get id s.sessions
          → get id s.sessions ≡ some t
      there found t s e same = sym same ∙ or_err-ok login_required found t e

  pub lifted : {A : Type 0} (r : Result Error A) → Keeps (lift r)
  lifted r = Leads-to (λ a s h. h.1) (lift-Leads r λ s b. b)

  or_end_session-Keeps :
      {A : Type 0} (id : String) (m : Action A) → Keeps m → Keeps (or_end_session id m)
  unfolding or_end_session
  or_end_session-Keeps {A = A} id m k = record { at = λ s b. after (m s) (k.at s b) }
    where
      after :
          (r : Result Error A × Store)
          → Gives (λ a. C) C r
          → Gives (λ a. C) C (ended_on_failure id r)
      after (ok a, s) b = b
      after (err e, s) b = remove-C id s b

  refresh-Keeps :
      (id : String) (token : Option String) (answer : Option Verified) (later : ℕ)
      → Keeps (refresh cfg id token answer later)
  unfolding refresh
  refresh-Keeps id token answer later = or_end_session-Keeps id _ (
      Leads-bind (lifted _) λ old. Leads-bind (lifted _) λ v.
        Leads-bind (Leads-to (λ t s h. h.1) (Found-present id later))
          λ s. adjusted id (set_credentials (refreshed v old)) λ x. refl)

  -- What a context tells of the session that was there before.
  abbrev pub Genuine : String → ℕ → BrowserContext → Type 0
  Genuine id last c =
      (s : Session) × (get id before.sessions ≡ some s)
      × (c.session_id ≡ id)
      × (c.csrf ≡ s.csrf)
      × (c.subject ≡ s.subject)
      × (c.absolute ≡ s.absolute)
      × (ltb last s.absolute ≡ true)

  context-Genuine :
      (id : String) (activity : Bool) (last : ℕ) (t : Session)
      → Found id t
      → live cfg t last ≡ true
      → Genuine id last (context cfg id (seen_at activity last t))
  unfolding live
  context-Genuine id true last t (s, there, kin) l = (
    s,
    there,
    refl,
    ap (λ i. i.3) kin,
    ap (λ i. i.1) kin,
    ap (λ i. i.4) kin,
    subst (λ a. ltb last a ≡ true) (ap (λ i. i.4) kin) (ground (arith, l)),
  )
  context-Genuine id false last t (s, there, kin) l = (
    s,
    there,
    refl,
    ap (λ i. i.3) kin,
    ap (λ i. i.1) kin,
    ap (λ i. i.4) kin,
    subst (λ a. ltb last a ≡ true) (ap (λ i. i.4) kin) (ground (arith, l)),
  )

  pub resolve_session-Genuine :
      (id : String) (activity : Bool) (answer : Option Verified) (first waited later last : ℕ)
      → Leads C C
          (λ c s. Genuine id last c × C s)
          (resolve_session cfg id activity answer first waited later last)
  unfolding resolve_session
  resolve_session-Genuine id activity answer first waited later last =
      Leads-bind (Leads-to (λ t s h. h.1) (Found-present id first)) λ s.
        Leads-bind
          (Leads-to (λ u s h. h.1) (fail_unless-Leads (live cfg s waited) login_required λ s c. c))
          λ u.
            Leads-bind
              (Leads-if (leb s.credentials.expires (waited + 30))
                (λ e. refresh-Keeps id s.credentials.refresh answer later)
                λ e. Leads-pure (λ u. C) tt)
              λ u. Leads-bind (Found-present id last) λ t. Leads-given λ known.
                Leads-bind (adjusted id (seen_at activity last) (seen activity)) λ u.
                  Leads-from (λ s c. (context-Genuine id activity last t known.0 known.1, c))
                    (Leads-pure (λ c s. Genuine id last c × C s)
                      (context cfg id (seen_at activity last t)))
    where
      seen : (b : Bool) (x : Session) → Kin x (seen_at b last x)
      seen true x = refl
      seen false x = refl
