-- ===== src/Sessions/Close/Settles.antt =====
-- The records behind `close_expected` of sigiledd/src/sessions.rs.
use sigiled.Base.{
  ℕ, ◌≡◌, refl, String, Bool, true, not, Option, none, some, arith, if◌then◌else◌, str_eq, get,
  remove, get-remove,
}
use sigiled.Auth.Policy.{Actor, Action, close_session}
use sigiled.Auth.Approvals.{ApprovalStore}
use sigiled.Sessions.Records.{
  SessionRecord, Records, closing, failed, Failure, persist_failed, merge_failed, push_failed,
  cleanup_failed, handoff_pending, mark, authorized,
}
use sigiled.Sessions.World.{
  World, Response, preserved, not_found, forbidden, conflict, closed, recycled, reaped, skipped,
  bad_request, unavailable, opened, pure, ◌>>=◌, Outside, MergeOutcome, ff, merged, debt,
  get_record,
}
use sigiled.Sessions.Ends.{
  Ends, Sat, Ends-at, Ends-given, Ends-guard, Ends-bind, Ends-pure, Ends-if, Ends-from, ask-records,
  ask_for-records, try_persist-records, change_debts-records, record_event-records, note-records,
  change_records-records, require-records, obtain-records, Ends-reply,
}
use sigiled.Sessions.Close.Keeps.{
  Kept, Failed, fails, require_flush-K, require_mirror-K, require_ownership-B, begin-K,
}
use sigiled.Sessions.Close.{
  Config, known, close_allowed, close_checked, settle_outcome, accept_outcome, close_reconciled,
  require_destroy, drop_branch, push_deletion, close_finished, close_expected, same_generation,
  merged_cleanly,
}

-- A close or recycle of the session is allowed to the actor.
abbrev pub Permit : Actor → Action → ApprovalStore → ℕ → Option ℕ → SessionRecord → Type 0
Permit actor action approvals now expected r =
    (same_generation expected r.generation ≡ true)
    × (authorized actor r action approvals now ≡ true)
    × (not (handoff_pending r) ≡ true)

-- How a close may end.
abbrev pub Closed : Type 0 → Records → String → SessionRecord → Response → World → Type 0
Closed permit before id r not_found w = ⊥
Closed permit before id r forbidden w = w.records ≡ before
Closed permit before id r conflict w = w.records ≡ before
Closed permit before id r (preserved code i) w = (i ≡ id) × Failed before id r code w.records
Closed permit before id r (closed outcome touched) w =
    permit × ((j : String) → get j w.records ≡ (if str_eq id j then none else get j before))
Closed permit before id r (recycled x) w = ⊥
Closed permit before id r reaped w = ⊥
Closed permit before id r skipped w = ⊥
Closed permit before id r bad_request w = ⊥
Closed permit before id r unavailable w = ⊥
Closed permit before id r (opened x) w = ⊥

module _ (out : Outside) (cfg : Config) (before : Records) (id : String) (r : SessionRecord)
    (there : get id before ≡ some r) (actor : Actor) (approvals : ApprovalStore) (now : ℕ)
    (expected : Option ℕ) where
  abbrev Allowed : Type 0
  Allowed = Permit actor close_session approvals now expected r

  abbrev R : Response → World → Type 0
  R = Closed Allowed before id r

  abbrev K : Records → Type 0
  K = Kept before id r

  abbrev B : Records → Type 0
  B rs = rs ≡ before

  preserves :
      (code : Failure) (w : World) → Failed before id r code w.records → R (preserved code id) w
  preserves code w f = (refl, f)

  failed_now :
      (code : Failure) (w : World) (rs : Records)
      → K rs
      → w.records ≡ mark id failed (some code) rs
      → R (preserved code id) w
  failed_now = fails out cfg before id r there R preserves

  known-B :
      (found : Option SessionRecord)
      → Ends (λ w. (found ≡ some r) × B w.records) R (λ x w. (x ≡ r) × B w.records) (known found)
  unfolding known pure
  known-B none = record { at = λ w p. absurd (ground arith) }
  known-B (some x) = record { at = λ w p. (ground arith, p.1) }

  close_allowed-K :
      Ends
        (λ w. B w.records)
        R
        (λ x w. (x ≡ r) × (Allowed × K w.records))
        (close_allowed out cfg actor approvals now id expected r)
  unfolding close_allowed
  close_allowed-K =
      Ends-guard _ conflict _ (λ w b. b)
        λ same.
          Ends-guard _ forbidden _ (λ w b. b)
            λ may.
              Ends-guard _ conflict _ (λ w b. b)
                λ free. Ends-bind (require_ownership-B out cfg before id r there R preserves) λ _.
                  Ends-bind (begin-K out cfg before id r there R preserves closing)
                    λ _. Ends-from (λ w k. (refl, ((same, may, free), k))) (Ends-pure r)

  close_checked-K :
      Ends
        (λ w. B w.records)
        R
        (λ x w. (x ≡ r) × (Allowed × K w.records))
        (close_checked out cfg actor approvals now id expected)
  unfolding close_checked get_record
  close_checked-K =
      Ends-bind {Q = λ found w. (found ≡ some r) × B w.records}
        (record { at = λ w b. (rw b there, b) })
        λ found.
          Ends-bind (known-B found)
            λ x. Ends-at (close_allowed out cfg actor approvals now id expected) r x close_allowed-K

  settle_outcome-K :
      (o : MergeOutcome)
      → Ends (λ w. K w.records) R (λ u w. K w.records) (settle_outcome out cfg id r o)
  unfolding settle_outcome
  settle_outcome-K (debt d) = change_debts-records R K _
  settle_outcome-K (ff sha) =
      Ends-if cfg.runtime _ _
        (λ _. require-records R K out id push_failed (failed_now _) (ask-records R K out.pushes _))
        λ _. Ends-pure tt
  settle_outcome-K (merged sha) =
      Ends-if cfg.runtime _ _
        (λ _. require-records R K out id push_failed (failed_now _) (ask-records R K out.pushes _))
        λ _. Ends-pure tt

  accept_outcome-K :
      (o : MergeOutcome)
      → Ends (λ w. K w.records) R (λ u w. K w.records) (accept_outcome out cfg id r o)
  unfolding accept_outcome
  accept_outcome-K o =
      Ends-if (merged_cleanly o) _ _
        (λ _. Ends-bind (note-records R K _) λ _.
          require-records R K out id persist_failed (failed_now _) (ask-records R K out.accepts _))
        λ _. Ends-pure tt

  close_reconciled-K :
      Ends (λ w. K w.records) R (λ u w. K w.records) (close_reconciled out cfg id r)
  unfolding close_reconciled
  close_reconciled-K = Ends-bind (require_flush-K out cfg before id r there R preserves) λ _.
      Ends-bind (require_mirror-K out cfg before id r there R preserves) λ _.
        Ends-bind (ask-records R K out.touched _) λ touched.
          Ends-bind
            (obtain-records R K out id merge_failed (failed_now _)
              (ask_for-records R K out.merges _))
            λ o. Ends-bind (settle_outcome-K o) λ _. Ends-bind (accept_outcome-K o) λ _.
              Ends-bind
                (require-records R K out id persist_failed (failed_now _)
                  (try_persist-records R K out))
                λ _. Ends-pure (o, touched)

  abbrev Gone : Records → Type 0
  Gone rs = Allowed × ((j : String) → get j rs ≡ (if str_eq id j then none else get j before))

  drop_branch-K :
      (o : MergeOutcome) → Ends (λ w. K w.records) R (λ u w. K w.records) (drop_branch out cfg r o)
  unfolding drop_branch push_deletion
  drop_branch-K o =
      Ends-if (merged_cleanly o) _ _
        (λ _.
          Ends-bind {Q = λ u w. K w.records}
            (Ends-if cfg.runtime _ _ (λ _. ask-records R K out.pushes _) λ _. Ends-pure true)
            λ _. Ends-bind (note-records R K _) λ _. change_debts-records R K _)
        λ _. Ends-pure tt

  close_finished-K :
      Allowed
      → (o : MergeOutcome) (touched : Bool)
      → Ends (λ w. K w.records) R (λ u w. ⊥) (close_finished out cfg id r (o, touched))
  unfolding close_finished require_destroy
  close_finished-K may o touched =
      Ends-bind {Q = λ u w. K w.records}
        (Ends-if cfg.runtime _ _
          (λ _.
            require-records R K out id cleanup_failed (failed_now _)
              (ask-records R K out.destroys _))
          λ _. Ends-pure tt)
        λ _. Ends-bind (drop_branch-K o) λ _.
          Ends-bind (change_records-records R K Gone (remove id) removed) λ _.
            Ends-bind (record_event-records R Gone _ _)
              λ _. Ends-bind (try_persist-records R Gone out) λ _. Ends-reply (closed o touched)
    where
      removed : (rs : Records) → K rs → Gone (remove id rs)
      removed rs (l, e, h) = (may, λ j. ground (arith, h j, get-remove id j rs))

  finish_close :
      Ends
        (λ w. Allowed × K w.records)
        R
        (λ u w. ⊥)
        (close_reconciled out cfg id r >>= close_finished out cfg id r)
  finish_close = Ends-given λ may.
      Ends-bind close_reconciled-K λ p. let (o, touched) = p in close_finished-K may o touched

  -- Whatever the outside answers, a close of a session replies, and leaves no session half
  -- closed. A refusal changes no record. A failure keeps the record, with its branch, its owner
  -- and its token, marked as failed for the reason replied. Success removes the record, and only
  -- where the generation is the expected one, the actor has the capability and is the owner or an
  -- administrator, and no hand-off is pending. No other session's record changes.
  pub close_expected-Closed :
      (w : World)
      → w.records ≡ before
      → Sat R (λ u v. ⊥) (close_expected out cfg actor approvals now id expected w)
  unfolding close_expected
  close_expected-Closed w start =
      (Ends-bind close_checked-K λ x.
          Ends-at (λ y. close_reconciled out cfg id y >>= close_finished out cfg id y) r x
            finish_close).at
        w start
