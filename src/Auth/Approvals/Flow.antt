-- ===== src/Auth/Approvals/Flow.antt =====
-- The approvals of a driver during `elevate` of sigiledd/src/auth.rs.
use sigiled.Base.{
  ℕ, ◌+◌, ◌<◌, ◌≡◌, ◌≢◌, refl, String, Option, none, some, List, [], ◌∷◌, arith, inl, inr, ◌∙◌,
  eq_iff, eq_refl, get-insert, get-adjust, Option-cases, leb, Bool-cases,
}
use mathlib.Core.List.{Memᴰ}
use sigiled.Auth.Approvals.{
  Approval, ApprovalState, ApprovalStore, Poll, PollReply, granted, denied, expired, send_failed,
  unparsable, error, approved, put, live, live_of, grant, mark, elevate_pending, or_else,
  reply_round, poll_round, poll_loop, elevate,
}

-- The approval that an accepting reply leads to.
abbrev pub granted_by : String → ℕ → Option String → Option ℕ → String → Approval
granted_by driver at human ttl body = record {
  driver = driver;
  human = or_else human "operator";
  expires_epoch = at + or_else ttl 43200;
  state = granted;
  tokens = some body;
}

-- The poll came before the expiry, and its reply accepts and leads to the approval.
abbrev pub Grants : String → ℕ → Approval → Poll → Type 0
Grants driver expires a p =
    (p.now < expires)
    × ((human : Option String) × (ttl : Option ℕ) × (body : String) × (p.reply
          ≡ approved human ttl body)
        × (a ≡ granted_by driver p.granted_at human ttl body))

live-mark_denied :
    (driver : String) (store : ApprovalStore) (now : ℕ)
    → live (mark driver denied store) driver now ≡ none
unfolding live mark
live-mark_denied driver store now = ground (
  arith,
  eq_iff driver driver,
  get-adjust driver driver (λ (a : Approval). record a { state = denied }) store,
)

live-mark_expired :
    (driver : String) (store : ApprovalStore) (now : ℕ)
    → live (mark driver expired store) driver now ≡ none
unfolding live mark
live-mark_expired driver store now = ground (
  arith,
  eq_iff driver driver,
  get-adjust driver driver (λ (a : Approval). record a { state = expired }) store,
)

live-grant :
    (driver human : String) (until : ℕ) (tokens : String) (store : ApprovalStore) (now : ℕ)
    → live (grant driver human until tokens store) driver now
      ≡ live_of now (
          some (record {
            driver = driver;
            human = human;
            expires_epoch = until;
            state = granted;
            tokens = some tokens;
          }))
unfolding live grant
live-grant driver human until tokens store now = simp (get-insert, eq_refl)

pub live-elevate_pending :
    (driver : String) (expires : ℕ) (store : ApprovalStore) (now : ℕ)
    → live (elevate_pending driver expires store) driver now ≡ none
unfolding live elevate_pending
live-elevate_pending driver expires store now = simp (get-insert, eq_refl)

-- One reply that ends the task and leaves a live approval is an accepting one.
reply_round-live :
    (driver : String) (store : ApprovalStore) (at : ℕ) (reply : PollReply) (s : ApprovalStore)
    (now : ℕ) (a : Approval)
    → reply_round driver store at reply ≡ some s
    → live s driver now ≡ some a
    → (human : Option String) × (ttl : Option ℕ) × (body : String) × (reply
        ≡ approved human ttl body)
      × (a ≡ granted_by driver at human ttl body)
unfolding reply_round
reply_round-live driver store at send_failed s now a e l = cc
reply_round-live driver store at unparsable s now a e l = cc
reply_round-live driver store at (error code) s now a e l =
    absurd (ground (arith, live-mark_denied driver store now))
reply_round-live driver store at (approved human ttl body) s now a e l = (
  human,
  ttl,
  body,
  refl,
  ground
      (arith, live-grant driver (or_else human "operator") (at + or_else ttl 43200) body store now),
)

poll_round-live :
    (driver : String) (expires : ℕ) (store : ApprovalStore) (p : Poll) (s : ApprovalStore) (now : ℕ)
    (a : Approval)
    → poll_round driver expires store p ≡ some s
    → live s driver now ≡ some a
    → Grants driver expires a p
unfolding poll_round
poll_round-live driver expires store p s now a e l = elim (Bool-cases (leb expires p.now)) [
  | inl late ↦ absurd (ground (arith, live-mark_expired driver store now))
  | inr early ↦
      (ground arith, reply_round-live driver store p.granted_at p.reply s now a (ground arith) l)
]

poll_loop-live :
    (driver : String) (expires : ℕ) (store : ApprovalStore) (polls : List Poll) (now : ℕ)
    (a : Approval)
    → live store driver now ≡ none
    → live (poll_loop driver expires store polls).0 driver now ≡ some a
    → (p : Poll) × Memᴰ p polls × Grants driver expires a p
unfolding poll_loop
poll_loop-live driver expires store [] now a n l = absurd (ground arith)
poll_loop-live driver expires store (p ∷ ps) now a n l =
    elim (Option-cases (poll_round driver expires store p)) [
      | inl e ↦
          (let l' = rw (e, poll_loop) at l in
            let (q, m, g) = poll_loop-live driver expires store ps now a n l' in
            (q, Memᴰ.tail m, g))
      | inr (s, e) ↦ (
        p,
        Memᴰ.head refl,
        poll_round-live driver expires store p s now a e (rw (e, poll_loop) at l),
      )
    ]

-- While a driver's elevation runs, and after it, the driver has a live approval only if some poll
-- before the expiry was answered with a body without an error text, whether or not there is an
-- access token in it; then the approval names the human of the token (or "operator", if no name
-- can be read from one) and lasts `expires_in` seconds (or 43200) from the grant. Whatever approval
-- the driver had before does not survive the elevation.
pub elevate-live :
    (driver : String) (expires : ℕ) (store : ApprovalStore) (polls : List Poll) (now : ℕ)
    (a : Approval)
    → live (elevate driver expires store polls).0 driver now ≡ some a
    → (p : Poll) × Memᴰ p polls × Grants driver expires a p
unfolding elevate
elevate-live driver expires store polls now a =
    poll_loop-live driver expires (elevate_pending driver expires store) polls now a
      (live-elevate_pending driver expires store now)

module _ (driver other : String) (differ : driver ≢ other) (now : ℕ) where
  live-put_other :
      (a : Approval) (store : ApprovalStore)
      → a.driver ≡ driver
      → live (put a store) other now ≡ live store other now
  unfolding live put
  live-put_other a store e =
      ground (arith, eq_iff a.driver other, get-insert a.driver other a store)

  live-mark_other :
      (state : ApprovalState) (store : ApprovalStore)
      → live (mark driver state store) other now ≡ live store other now
  unfolding live mark
  live-mark_other state store = ground (
    arith,
    eq_iff driver other,
    get-adjust driver other (λ (a : Approval). record a { state = state }) store,
  )

  reply_round_other :
      (store : ApprovalStore) (at : ℕ) (reply : PollReply) (s : ApprovalStore)
      → reply_round driver store at reply ≡ some s
      → live s other now ≡ live store other now
  unfolding reply_round grant
  reply_round_other store at send_failed s e = cc
  reply_round_other store at unparsable s e = cc
  reply_round_other store at (error code) s e = ground (arith, live-mark_other denied store)
  reply_round_other store at (approved human ttl body) s e =
      let fact = live-put_other (granted_by driver at human ttl body) store refl in
      ground (arith, fact)

  poll_round_other :
      (expires : ℕ) (store : ApprovalStore) (p : Poll) (s : ApprovalStore)
      → poll_round driver expires store p ≡ some s
      → live s other now ≡ live store other now
  unfolding poll_round
  poll_round_other expires store p s e =
      ground (arith, live-mark_other expired store, reply_round_other store p.granted_at p.reply s)

  poll_loop_other :
      (expires : ℕ) (store : ApprovalStore) (polls : List Poll)
      → live (poll_loop driver expires store polls).0 other now ≡ live store other now
  unfolding poll_loop
  poll_loop_other expires store [] = refl
  poll_loop_other expires store (p ∷ ps) = elim (Option-cases (poll_round driver expires store p)) [
    | inl e ↦ rw (e, poll_loop) (poll_loop_other expires store ps)
    | inr (s, e) ↦ rw (e, poll_loop) (poll_round_other expires store p s e)
  ]

  -- An elevation of one driver leaves the live approval of every other driver as it was.
  pub elevate_other :
      (expires : ℕ) (store : ApprovalStore) (polls : List Poll)
      → live (elevate driver expires store polls).0 other now ≡ live store other now
  unfolding elevate elevate_pending
  elevate_other expires store polls = poll_loop_other expires _ polls ∙ live-put_other _ store refl
