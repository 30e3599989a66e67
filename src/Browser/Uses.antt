-- ===== src/Browser/Uses.antt =====
-- The use of a ticket of the IDE gateway, sigiledd/src/browser/ide_gateway/access.rs.
use sigiled.Base.{
  ℕ, ◌≡◌, ◌≢◌, refl, sym, ap, subst, ◌∙◌, String, Bool, true, not, Option, none, some, arith, ltb,
  get, insert, remove, keep, length, eq_iff, get-insert, get-remove, get-keep,
}
use sigiled.Routine.{
  or_err-ok, Gives, Leads, Leads-bind, Leads-pure, Leads-from, Leads-to, Leads-given,
  fail_unless-Leads, lift-Leads, gets-Leads, change-Leads, or_err, ok, err, Result,
}
use sigiled.Browser.Requests.{Error, login_required, entropy_unavailable, Headers, single}
use sigiled.Browser.Tickets.{
  Binding, Ticket, Grant, Gateway, exact_origin, take_ticket, admit, consume, is_misplaced,
  is_sibling,
}
use sigiled.Browser.Continuity.{none-some, filtered-some}
use sigiled.Browser.Contexts.{is_text-some}

module _ (h : Headers) (ticket : String) (now : ℕ) (authorized : Binding → Result Error ℕ)
    (is_live : Binding → Bool) (drawn : Option (String × String)) (before : Gateway) where
  -- Every grant was there before.
  abbrev pub Kept : Gateway → Type 0
  Kept after = (j : String) (x : Grant) → get j after.grants ≡ some x → get j before.grants ≡ some x

  -- What a use leaves.
  abbrev pub Used : String → Gateway → Type 0
  Used id after =
      (t : Ticket) × (csrf : String) × (absolute : ℕ) × (get ticket before.tickets ≡ some t)
      × (ltb now t.expires ≡ true)
      × (single h "origin" ≡ some t.binding.origin)
      × (authorized t.binding ≡ ok absolute)
      × (drawn ≡ some (id, csrf))
      × (get ticket after.tickets ≡ none)
      × (get id after.grants ≡ some (record { binding = t.binding; csrf = csrf }))
      × ((j : String) (x : Grant)
          → id ≢ j
          → get j after.grants ≡ some x
          → (get j before.grants ≡ some x) × (is_live x.binding ≡ true))

  abbrev spent : Gateway
  spent = record before { tickets = remove ticket before.tickets }

  abbrev Taken : Ticket → Type 0
  Taken t = (get ticket before.tickets ≡ some t) × (single h "origin" ≡ some t.binding.origin)

  same-Kept : (s : Gateway) → s ≡ before → Kept s
  same-Kept s e j x there = subst (λ g. get j g.grants ≡ some x) e there

  spent-Kept : (s : Gateway) → s ≡ spent → Kept s
  spent-Kept s e j x there = subst (λ g. get j g.grants ≡ some x) e there

  exact_origin-Leads :
      (origin : String)
      → Leads
          (λ s. s ≡ before)
          Kept
          (λ u s. (single h "origin" ≡ some origin) × (s ≡ before))
          (exact_origin h origin true)
  unfolding exact_origin
  exact_origin-Leads origin =
      Leads-bind (fail_unless-Leads (not (is_misplaced h origin true)) _ same-Kept) λ u.
        Leads-given λ placed.
          Leads-to
            (λ u s (e, b). (is_text-some (single h "origin") origin (ground (arith, placed)), b))
            (fail_unless-Leads (not (is_sibling (single h "sec-fetch-site"))) _ same-Kept)

  take_ticket-Leads :
      Leads (λ s. s ≡ before) Kept (λ t s. Taken t × (s ≡ spent)) (take_ticket h ticket)
  unfolding take_ticket
  take_ticket-Leads =
      Leads-bind (gets-Leads {P = λ s. s ≡ before} (λ (g : Gateway). get ticket g.tickets)) λ found.
        Leads-bind (lift-Leads (or_err login_required found) λ s k. same-Kept s k.1) λ t.
          Leads-from
            (λ s (e, (same, b)). (
              sym (same ∙ ap (λ g. get ticket g.tickets) b) ∙ or_err-ok login_required found t e,
              b,
            ))
            (Leads-given λ there. Leads-bind (exact_origin-Leads t.binding.origin) λ u.
              Leads-given λ from.
                Leads-bind
                  (change-Leads (λ (g : Gateway). record g { tickets = remove ticket g.tickets })
                    λ s e. ap (λ (g : Gateway). record g { tickets = remove ticket g.tickets }) e)
                  λ u.
                    Leads-from (λ s e. ((there, from), e))
                      (Leads-pure (λ t s. Taken t × (s ≡ spent)) t))

  abbrev aged : Gateway
  aged = record spent { grants = keep (λ x. is_live x.binding) before.grants }

  abbrev admitted : Binding → String → String → Gateway
  admitted binding id csrf = record aged {
    grants = insert id (record { binding = binding; csrf = csrf }) aged.grants;
  }

  get-aged :
      (j : String) (x : Grant)
      → get j aged.grants ≡ some x
      → (get j before.grants ≡ some x) × (is_live x.binding ≡ true)
  get-aged j x e =
      filtered-some (λ y. is_live y.binding) (get j before.grants) x
        (sym (get-keep (λ y. is_live y.binding) j before.grants) ∙ e)

  aged-Kept : (s : Gateway) → s ≡ aged → Kept s
  aged-Kept s e j x there = (get-aged j x (subst (λ g. get j g.grants ≡ some x) e there)).0

  admit-Leads :
      (binding : Binding) (id csrf : String)
      → Leads
          (λ s. s ≡ spent)
          Kept
          (λ u s. s ≡ admitted binding id csrf)
          (admit is_live binding id csrf)
  unfolding admit
  admit-Leads binding id csrf = Leads-bind (change-Leads pruned λ s e. ap pruned e) λ u.
      Leads-bind (gets-Leads {P = λ s. s ≡ aged} (λ (g : Gateway). g.grants)) λ grants.
        Leads-bind
          (Leads-from (λ s k. k.1)
            (fail_unless-Leads {P = λ s. s ≡ aged} (ltb (length grants) 4096) _ aged-Kept))
          λ u. change-Leads entering λ s k. ap entering k.1
    where
      pruned : Gateway → Gateway
      pruned g = record g { grants = keep (λ x. is_live x.binding) g.grants }

      entering : Gateway → Gateway
      entering g = record g {
        grants = insert id (record { binding = binding; csrf = csrf }) g.grants;
      }

  admitted-Used :
      (t : Ticket) (id csrf : String) (absolute : ℕ) (s : Gateway)
      → Taken t
      → ltb now t.expires ≡ true
      → authorized t.binding ≡ ok absolute
      → drawn ≡ some (id, csrf)
      → s ≡ admitted t.binding id csrf
      → Used id s
  admitted-Used t id csrf absolute s taken early may d e = rw e (
    t,
    csrf,
    absolute,
    taken.0,
    early,
    taken.1,
    may,
    d,
    ground (arith, get-remove ticket ticket before.tickets, eq_iff ticket ticket),
    ground (
      arith,
      get-insert id id (record { binding = t.binding; csrf = csrf }) aged.grants,
      eq_iff id id,
    ),
    λ j x other there. get-aged j x (
        ground (
          arith,
          there,
          other,
          get-insert id j (record { binding = t.binding; csrf = csrf }) aged.grants,
          eq_iff id j,
        )),
  )

  -- Whatever the caller may do and whatever text is drawn: a ticket is turned into a grant only
  -- where it was there, before it expired, for a request from its own origin, and where its
  -- binding's caller is authorized. The grant is for the ticket's binding, the ticket is gone, and
  -- any other grant was there before and is still live. Where the use fails, no grant comes in.
  pub consume-Used : Gives Used Kept (consume h ticket now authorized is_live drawn before)
  unfolding consume
  consume-Used =
      (Leads-bind take_ticket-Leads λ t. Leads-given λ taken.
          Leads-bind (fail_unless-Leads (ltb now t.expires) login_required spent-Kept) λ u.
            Leads-given λ early.
              Leads-bind (lift-Leads (authorized t.binding) spent-Kept) λ absolute.
                Leads-given λ may.
                  Leads-bind (lift-Leads (or_err entropy_unavailable drawn) spent-Kept)
                    λ (id, csrf). Leads-given λ d. Leads-bind (admit-Leads t.binding id csrf) λ u.
                      Leads-from
                        (λ s e.
                          admitted-Used t id csrf absolute s taken early may
                            (or_err-ok entropy_unavailable drawn (id, csrf) d) e)
                        (Leads-pure Used id)).at
        before refl

-- A ticket that was turned into a grant is worth nothing more: any second use of it fails, whoever
-- sends it and whenever.
pub consume-consume :
    (h : Headers) (ticket : String) (now : ℕ) (authorized : Binding → Result Error ℕ)
    (is_live : Binding → Bool) (drawn : Option (String × String)) (before : Gateway)
    → Gives
        (λ id after.
          (g : Headers) (later : ℕ) (may : Binding → Result Error ℕ) (lives : Binding → Bool)
          (next : Option (String × String))
          → Gives
              (λ u s. ⊥)
              (Kept g ticket later may lives next after)
              (consume g ticket later may lives next after))
        (λ s. Unit)
        (consume h ticket now authorized is_live drawn before)
consume-consume h ticket now authorized is_live drawn before =
    first (consume h ticket now authorized is_live drawn before)
      (consume-Used h ticket now authorized is_live drawn before)
  where
    second :
        (after : Gateway)
        → get ticket after.tickets ≡ none
        → (g : Headers) (later : ℕ) (may : Binding → Result Error ℕ) (lives : Binding → Bool)
          (next : Option (String × String))
        → (r : Result Error String × Gateway)
        → Gives
            (Used g ticket later may lives next after)
            (Kept g ticket later may lives next after)
            r
        → Gives (λ u s. ⊥) (Kept g ticket later may lives next after) r
    second after gone g later may lives next (ok id, s)
          (t, csrf, absolute, there, early, from, allowed, d, empty, got, others) =
        none-some t (sym gone ∙ there)
    second after gone g later may lives next (err e, s) kept = kept

    first :
        (r : Result Error String × Gateway)
        → Gives
            (Used h ticket now authorized is_live drawn before)
            (Kept h ticket now authorized is_live drawn before)
            r
        → Gives
            (λ id after.
              (g : Headers) (later : ℕ) (may : Binding → Result Error ℕ) (lives : Binding → Bool)
              (next : Option (String × String))
              → Gives
                  (λ u s. ⊥)
                  (Kept g ticket later may lives next after)
                  (consume g ticket later may lives next after))
            (λ s. Unit)
            r
    first (ok id, s) (t, csrf, absolute, there, early, from, allowed, d, empty, got, others) =
        λ g later may lives next.
          second s empty g later may lives next (consume g ticket later may lives next s)
            (consume-Used g ticket later may lives next s)
    first (err e, s) kept = tt
