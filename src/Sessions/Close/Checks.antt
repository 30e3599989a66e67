-- ===== src/Sessions/Close/Checks.antt =====
-- The requests of `close_expected` in sigiledd/src/sessions.rs up to the fetch of the branch.
use sigiled.Base.{
  ℕ, ◌≡◌, refl, String, Bool, true, false, ◌&&◌, Option, none, some, List, arith, any, is_some,
  eq_iff, get,
}
use sigiled.Auth.Policy.{Actor}
use sigiled.Auth.Approvals.{ApprovalStore}
use sigiled.Sessions.Records.{
  SessionRecord, Lifecycle, closing, persist_failed, mirror_failed, flush_failed, fetch_failed,
  runtime_unavailable, legacy_ownership_ambiguous, runtime_not_owned, handoff_pending, container,
}
use sigiled.Sessions.World.{
  reply_with, forbidden, conflict, pure, reply_with, Call, Outside, get_record, gets,
}
use sigiled.Sessions.Ends.{
  Ends, Ends-at, Ends-bind, Ends-given, Ends-if, Ends-pure, Ends-from, Ends-to,
}
use sigiled.Sessions.Close.{
  Config, known, ide_started, flush_record, require_ownership, require_flush, require_mirror, begin,
  close_allowed, close_checked,
}
use sigiled.Sessions.Close.Requests.{
  is_flush, is_fetched, Calm, Flushed, Fetched, Traces, R, Calm-Ordered, ask-Traces,
  try_persist-Traces, change_records-Traces, refuse_unless-Traces, or_fail-Traces, require-Traces,
}

-- With a container runtime, for the session with the record `r`.
module _ (out : Outside) (cfg : Config) (id : String) (r : SessionRecord)
    (on : cfg.runtime ≡ true) where
  abbrev F : List Call → Type 0
  F = Flushed r

  abbrev G : List Call → Type 0
  G = Fetched r

  -- A flush that says that it is done has been asked for.
  abbrev Maybe : Bool → List Call → Type 0
  Maybe b t = Calm t × (b ≡ true → any t (is_flush r) ≡ true)

  flush_record-Traces : is_some r.token ≡ true → Traces r Calm Maybe (flush_record out cfg r)
  unfolding flush_record
  flush_record-Traces token =
      Ends-if (handoff_pending r) _ _ (λ _. Ends-from (λ w k. (k, λ e. cc)) (Ends-pure false))
        λ _.
          Ends-if (ide_started r) _ _
            (λ started.
              ask-Traces r Calm Maybe out.ide_finishes _
                (λ b t k. (k, λ e. ground (arith, eq_iff (container r) (container r)))))
            λ plain.
              Ends-if (cfg.runtime && is_some r.token) _ _
                (λ _.
                  ask-Traces r Calm Maybe out.flushes _
                    (λ b t k. (k, λ e. ground (arith, eq_iff (container r) (container r)))))
                λ off. absurd (ground arith)

  pub require_flush-Traces :
      is_some r.token ≡ true → Traces r Calm (λ u. F) (require_flush out cfg id r)
  unfolding require_flush
  require_flush-Traces token =
      Ends-if (cfg.runtime && is_some r.token) _ _
        (λ _.
          Ends-to (λ u w h. (h.0, h.1 refl))
            (require-Traces r Calm out id flush_failed Maybe (λ b t h. Calm-Ordered r t h.0)
              (flush_record-Traces token)))
        λ off. absurd (ground arith)

  -- The record that is found is the session's.
  known-Traces :
      (found : Option SessionRecord)
      → Ends
          (λ w. (found ≡ some r) × Calm w.trace)
          (R r)
          (λ x w. (x ≡ r) × Calm w.trace)
          (known found)
  unfolding known pure reply_with
  known-Traces none = record { at = λ w k. absurd (ground arith) }
  known-Traces (some x) = record { at = λ w k. (ground arith, k.1) }

  -- The checks leave a session with a token.
  require_ownership-Traces :
      Traces r Calm (λ u t. (is_some r.token ≡ true) × Calm t) (require_ownership out cfg id r)
  unfolding require_ownership gets
  require_ownership-Traces =
      Ends-bind (or_fail-Traces r Calm out id runtime_unavailable _ (Calm-Ordered r)) λ _.
        Ends-given λ _.
          Ends-bind {Q = λ safe w. Calm w.trace} (record { at = λ w k. k })
            λ safe.
              Ends-bind
                (or_fail-Traces r Calm out id legacy_ownership_ambiguous safe (Calm-Ordered r))
                λ _. Ends-given λ _.
                  Ends-to (λ u w h. (ground arith, h.1))
                    (or_fail-Traces r Calm out id runtime_not_owned _ (Calm-Ordered r))

  begin-Traces : (l : Lifecycle) → Traces r Calm (λ u. Calm) (begin out cfg id l)
  unfolding begin
  begin-Traces l = Ends-bind (change_records-Traces r Calm _) λ _.
      require-Traces r Calm out id persist_failed (λ b. Calm) (λ b. Calm-Ordered r)
        (try_persist-Traces r Calm (λ b. Calm) out (λ b t k. k))

  abbrev pub Tokened : List Call → Type 0
  Tokened t = (is_some r.token ≡ true) × Calm t

  abbrev pub Checked : SessionRecord → List Call → Type 0
  Checked x t = (x ≡ r) × Tokened t

  close_allowed-Traces :
      (actor : Actor) (approvals : ApprovalStore) (now : ℕ) (expected : Option ℕ)
      → Traces r Calm Checked (close_allowed out cfg actor approvals now id expected r)
  unfolding close_allowed
  close_allowed-Traces actor approvals now expected =
      Ends-bind (refuse_unless-Traces r Calm _ conflict (Calm-Ordered r)) λ _.
        Ends-bind (refuse_unless-Traces r Calm _ forbidden (Calm-Ordered r)) λ _.
          Ends-bind (refuse_unless-Traces r Calm _ conflict (Calm-Ordered r)) λ _.
            Ends-bind require_ownership-Traces λ _. Ends-given λ token.
              Ends-bind (begin-Traces closing)
                λ _. Ends-from (λ w k. (refl, (token, k))) (Ends-pure r)

  pub close_checked-Traces :
      (actor : Actor) (approvals : ApprovalStore) (now : ℕ) (expected : Option ℕ)
      → Ends
          (λ w. (get id w.records ≡ some r) × Calm w.trace)
          (R r)
          (λ x w. Checked x w.trace)
          (close_checked out cfg actor approvals now id expected)
  unfolding close_checked get_record
  close_checked-Traces actor approvals now expected =
      Ends-bind {Q = λ found w. (found ≡ some r) × Calm w.trace} (record { at = λ w k. k })
        λ found. Ends-bind (known-Traces found) λ x.
          Ends-at (close_allowed out cfg actor approvals now id expected) r x
            (close_allowed-Traces actor approvals now expected)

  abbrev MaybeFetched : Bool → List Call → Type 0
  MaybeFetched b t = Calm t × (b ≡ true → is_fetched r t ≡ true)

  pub require_mirror-Traces : Traces r F (λ u. G) (require_mirror out cfg id r)
  unfolding require_mirror
  require_mirror-Traces =
      Ends-bind {Q = λ u w. F w.trace}
        (Ends-if cfg.runtime _ _
          (λ _.
            require-Traces r F out id mirror_failed (λ b. F) (λ b t h. Calm-Ordered r t h.0)
              (ask-Traces r F (λ b. F) out.mirrors _ (λ b t k. k)))
          λ off. absurd (ground arith))
        λ _.
          Ends-if cfg.runtime _ _
            (λ _.
              Ends-to (λ u w h. (h.0, h.1 refl))
                (require-Traces r F out id fetch_failed MaybeFetched (λ b t h. Calm-Ordered r t h.0)
                  (ask-Traces r F MaybeFetched out.fetches _
                    (λ b t k. (k.0, λ e. ground (arith, eq_iff r.branch r.branch))))))
            λ off. absurd (ground arith)
