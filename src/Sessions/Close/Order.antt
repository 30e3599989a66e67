-- ===== src/Sessions/Close/Order.antt =====
-- The order of the requests of `close_expected` in sigiledd/src/sessions.rs.
use sigiled.Base.{
  ℕ, ◌≡◌, refl, String, Bool, true, false, Option, some, List, ◌∷◌, arith, any, is_some, eq_iff,
  get,
}
use sigiled.Auth.Policy.{Actor}
use sigiled.Auth.Approvals.{ApprovalStore}
use sigiled.Sessions.Records.{
  SessionRecord, persist_failed, merge_failed, push_failed, cleanup_failed, container,
}
use sigiled.Sessions.World.{
  World, Handler, ◌>>=◌, closed, Call, destroy, push, Outside, MergeOutcome, ff, merged, debt, ask,
  require,
}
use sigiled.Sessions.Ends.{
  Sat, Ends-at, Ends-bind, Ends-given, Ends-if, Ends-pure, Ends-reply, Ends-from,
}
use sigiled.Sessions.Close.{
  Config, settle_outcome, accept_outcome, close_reconciled, require_destroy, drop_branch,
  push_deletion, close_finished, close_expected, merged_cleanly,
}
use sigiled.Sessions.Close.Checks.{
  require_flush-Traces, close_checked-Traces, require_mirror-Traces,
}
use sigiled.Sessions.Close.Requests.{
  is_destroy, is_merged, is_durable, Calm, Fetched, Merged, Ready, Ordered, Traces, R, Calm-Ordered,
  ask-Traces, ask_for-Traces, try_persist-Traces, note-Traces, change_records-Traces,
  change_debts-Traces, record_event-Traces, require-Traces, obtain-Traces,
}

-- With a container runtime, for the session with the record `r`.
module _ (out : Outside) (cfg : Config) (id : String) (r : SessionRecord)
    (on : cfg.runtime ≡ true) where
  abbrev G : List Call → Type 0
  G = Fetched r

  abbrev M : List Call → Type 0
  M = Merged r

  abbrev O : List Call → Type 0
  O = Ordered r

  push_master-Traces :
      Traces r M (λ u. M) (require out id push_failed (ask out.pushes (push "master")))
  push_master-Traces =
      require-Traces r M out id push_failed (λ b. M) (λ b t h. Calm-Ordered r t h.0)
        (ask-Traces r M (λ b. M) out.pushes _ (λ b t k. k))

  settle_outcome-Traces : (o : MergeOutcome) → Traces r M (λ u. M) (settle_outcome out cfg id r o)
  unfolding settle_outcome
  settle_outcome-Traces (debt d) = change_debts-Traces r M _
  settle_outcome-Traces (ff sha) =
      Ends-if cfg.runtime _ _ (λ _. push_master-Traces) λ _. Ends-pure tt
  settle_outcome-Traces (merged sha) =
      Ends-if cfg.runtime _ _ (λ _. push_master-Traces) λ _. Ends-pure tt

  accept_outcome-Traces : (o : MergeOutcome) → Traces r M (λ u. M) (accept_outcome out cfg id r o)
  unfolding accept_outcome
  accept_outcome-Traces o =
      Ends-if (merged_cleanly o) _ _
        (λ _. Ends-bind (note-Traces r M _ (λ t k. k)) λ _.
          require-Traces r M out id persist_failed (λ b. M) (λ b t h. Calm-Ordered r t h.0)
            (ask-Traces r M (λ b. M) out.accepts _ (λ b t k. k)))
        λ _. Ends-pure tt

  abbrev MaybeMerged : Bool → List Call → Type 0
  MaybeMerged b t = Calm t × (b ≡ true → is_merged r t ≡ true)

  abbrev MaybeReady : Bool → List Call → Type 0
  MaybeReady b t = M t × (is_durable t ≡ b)

  close_reconciled-Traces :
      is_some r.token ≡ true → Traces r Calm (λ p. Ready r) (close_reconciled out cfg id r)
  unfolding close_reconciled
  close_reconciled-Traces token = Ends-bind (require_flush-Traces out cfg id r on token) λ _.
      Ends-bind (require_mirror-Traces out cfg id r on) λ _.
        Ends-bind (ask-Traces r G (λ b. G) out.touched _ (λ b t k. k)) λ touched.
          Ends-bind
            (obtain-Traces r G out id merge_failed MaybeMerged (λ b t h. Calm-Ordered r t h.0)
              (ask_for-Traces r G MaybeMerged out.merges _
                (λ b t k. (k.0, λ e. ground (arith, eq_iff r.branch r.branch)))))
            λ o.
              Ends-from (λ w h. (h.0, h.1 refl))
                (Ends-bind (settle_outcome-Traces o) λ _. Ends-bind (accept_outcome-Traces o) λ _.
                  Ends-bind
                    (require-Traces r M out id persist_failed MaybeReady
                      (λ b t h. Calm-Ordered r t h.0.0)
                      (try_persist-Traces r M MaybeReady out (λ b t k. (k, refl))))
                    λ _. Ends-pure (o, touched))

  Ready-destroy : (b : Bool) (t : List Call) → Ready r t → O (destroy (container r) b ∷ t)
  Ready-destroy b t h = ground (arith, Calm-Ordered r t h.0.0, eq_iff (container r) (container r))

  drop_branch-Traces : (o : MergeOutcome) → Traces r O (λ u. O) (drop_branch out cfg r o)
  unfolding drop_branch push_deletion
  drop_branch-Traces o =
      Ends-if (merged_cleanly o) _ _
        (λ _.
          Ends-bind {Q = λ u w. O w.trace}
            (Ends-if cfg.runtime _ _ (λ _. ask-Traces r O (λ b. O) out.pushes _ (λ b t k. k))
              λ _. Ends-pure true)
            λ _. Ends-bind (note-Traces r O _ (λ t k. k)) λ _. change_debts-Traces r O _)
        λ _. Ends-pure tt

  close_finished-Traces :
      (o : MergeOutcome) (touched : Bool)
      → Traces r (Ready r) (λ u t. ⊥) (close_finished out cfg id r (o, touched))
  unfolding close_finished require_destroy
  close_finished-Traces o touched =
      Ends-bind {Q = λ u w. O w.trace}
        (Ends-if cfg.runtime _ _
          (λ _.
            require-Traces r (Ready r) out id cleanup_failed (λ b. O) (λ b t k. k)
              (ask-Traces r (Ready r) (λ b. O) out.destroys _ Ready-destroy))
          λ off. absurd (ground arith))
        λ _. Ends-bind (drop_branch-Traces o) λ _. Ends-bind (change_records-Traces r O _) λ _.
          Ends-bind (record_event-Traces r O _ _) λ _.
            Ends-bind (try_persist-Traces r O (λ b. O) out (λ b t k. k))
              λ _. Ends-reply (closed o touched)

  finish : SessionRecord → Handler (Unit {0})
  finish x = close_reconciled out cfg id x >>= λ p. close_finished out cfg id x p

  finish-Traces : is_some r.token ≡ true → Traces r Calm (λ u t. ⊥) (finish r)
  unfolding finish
  finish-Traces token =
      Ends-bind (close_reconciled-Traces token)
        λ p. let (o, touched) = p in close_finished-Traces o touched

  -- Where a container runtime is configured, the session has the record `r`, and no container was
  -- destroyed before: a close always replies, and by then it has asked for no container to be
  -- destroyed but the session's own, and for that one only directly after a granted request to
  -- persist the state. Before that came, in this order: a flush of that very container that
  -- succeeded (by the IDE, if it was started there), a granted fetch of the session's branch, and
  -- a merge of that branch that had an outcome. So it is whatever the outside answers, and wherever
  -- the close fails.
  pub close_expected-Ordered :
      (actor : Actor) (approvals : ApprovalStore) (now : ℕ) (expected : Option ℕ) (w : World)
      → get id w.records ≡ some r
      → any w.trace is_destroy ≡ false
      → Sat (R r) (λ u v. ⊥) (close_expected out cfg actor approvals now id expected w)
  unfolding close_expected finish
  close_expected-Ordered actor approvals now expected w there calm =
      (Ends-bind {f = finish} (close_checked-Traces out cfg id r on actor approvals now expected)
          λ x. Ends-at finish r x (Ends-given λ token. finish-Traces token)).at
        w (there, calm)
