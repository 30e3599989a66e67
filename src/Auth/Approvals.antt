-- ===== src/Auth/Approvals.antt =====
-- sigiledd/src/auth.rs, the approval store: `Approval`, `ApprovalStore` and the background
-- task of `elevate`, which polls the identity provider's token endpoint. A poll's reply is an
-- input; the tokens' JSON is kept as text. The store's lock is held for each operation alone.
pub mod Flow
use sigiled.Base.{
  ℕ, ◌+◌, String, Bool, true, false, ◌&&◌, ◌||◌, Option, none, some, List, [], ◌∷◌, ltb, leb,
  if◌then◌else◌, Assoc, get, insert, adjust, values, str_eq,
}

pub data ApprovalState : Type 0 where
  pending granted denied expired : ApprovalState

abbrev pub is_granted : ApprovalState → Bool
is_granted granted = true
is_granted _ = false

pub record Approval : Type 0 where
  pub driver : String
  pub human : String
  pub expires_epoch : ℕ
  pub state : ApprovalState
  pub tokens : Option String

abbrev pub ApprovalStore : Type 0
ApprovalStore = Assoc Approval

unfoldable pub put : Approval → ApprovalStore → ApprovalStore
put a store = insert a.driver a store

-- The test of `filter` in `live`.
abbrev pub is_live : ℕ → Approval → Bool
is_live now a = is_granted a.state && ltb now a.expires_epoch

abbrev pub live_of : ℕ → Option Approval → Option Approval
live_of now none = none
live_of now (some a) = if is_live now a then some a else none

unfoldable pub live : ApprovalStore → String → ℕ → Option Approval
live store driver now = live_of now (get driver store)

unfoldable pub grant : String → String → ℕ → String → ApprovalStore → ApprovalStore
unfolding put
grant driver human expires_epoch tokens store =
    put
      (record {
        driver = driver;
        human = human;
        expires_epoch = expires_epoch;
        state = granted;
        tokens = some tokens;
      })
      store

unfoldable pub mark : String → ApprovalState → ApprovalStore → ApprovalStore
mark driver state store = adjust driver (λ a. record a { state = state }) store

pub snapshot : ApprovalStore → List Approval
snapshot store = values store

-- What `elevate` stores before it starts to poll.
unfoldable pub elevate_pending : String → ℕ → ApprovalStore → ApprovalStore
unfolding put
elevate_pending driver expires store =
    put
      (record {
        driver = driver;
        human = "";
        expires_epoch = expires;
        state = pending;
        tokens = none;
      })
      store

-- One answer of the token endpoint. `approved` is any body without an error text: it carries the
-- driver named by the access token, if there is one that decodes, its `expires_in`, if present,
-- and the body.
pub data PollReply : Type 0 where
  send_failed unparsable : PollReply
  error : String → PollReply
  approved : Option String → Option ℕ → String → PollReply

-- One round of the loop: the clock at the expiry test, and at the grant.
pub record Poll : Type 0 where
  pub now : ℕ
  pub reply : PollReply
  pub granted_at : ℕ

abbrev pub or_else {ℓ} : {A : Type ℓ} → Option A → A → A
or_else none d = d
or_else (some a) d = a

abbrev pub is_waiting : String → Bool
is_waiting code = str_eq code "authorization_pending" || str_eq code "slow_down"

-- The `match` on the body: `none` is `continue`, `some` the store with which the task ends.
unfoldable pub reply_round : String → ApprovalStore → ℕ → PollReply → Option ApprovalStore
reply_round driver store at send_failed = none
reply_round driver store at unparsable = none
reply_round driver store at (error code) =
    if is_waiting code then none else some (mark driver denied store)
reply_round driver store at (approved human ttl body) =
    some (grant driver (or_else human "operator") (at + or_else ttl 43200) body store)

unfoldable pub poll_round : String → ℕ → ApprovalStore → Poll → Option ApprovalStore
unfolding reply_round
poll_round driver expires store p =
    if leb expires p.now
    then some (mark driver expired store)
    else reply_round driver store p.granted_at p.reply

-- The task over the polls made so far. `false` beside the store: it still polls.
unfoldable pub poll_loop : String → ℕ → ApprovalStore → List Poll → ApprovalStore × Bool
unfolding poll_round
poll_loop driver expires store [] = (store, false)
poll_loop driver expires store (p ∷ ps) = elim (poll_round driver expires store p) [
  | none ↦ poll_loop driver expires store ps
  | some store' ↦ (store', true)
]

-- `elevate` from its answer by the identity provider on: the pending approval, then the task.
unfoldable pub elevate : String → ℕ → ApprovalStore → List Poll → ApprovalStore × Bool
unfolding elevate_pending poll_loop
elevate driver expires store polls =
    poll_loop driver expires (elevate_pending driver expires store) polls
