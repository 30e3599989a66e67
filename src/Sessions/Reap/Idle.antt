-- ===== src/Sessions/Reap/Idle.antt =====
-- The records behind `reap_generation_min` of sigiledd/src/reaper.rs.
use sigiled.Base.{
  ℕ, ◌≡◌, refl, String, true, not, Option, none, some, arith, if◌then◌else◌, str_eq, get, remove,
  get-remove, is_some,
}
use sigiled.Sessions.Records.{
  SessionRecord, Records, closing, Failure, cleanup_failed, flush_failed, handoff_pending, mark,
  failed,
}
use sigiled.Sessions.World.{
  World, Response, preserved, not_found, forbidden, conflict, closed, recycled, reaped, skipped,
  bad_request, unavailable, opened, pure, Outside, get_record, get_record,
}
use sigiled.Sessions.Ends.{
  Ends, Sat, Ends-at, Ends-guard, Ends-bind, Ends-pure, Ends-if, ask-records, ask_for-records,
  try_persist-records, record_event-records, change_records-records, or_fail-records,
  require-records, refuse_unless-records, Ends-reply,
}
use sigiled.Sessions.Close.{Config, ide_started}
use sigiled.Sessions.Close.Keeps.{Kept, Failed, fails, flush_record-K, require_ownership-B, begin-K}
use sigiled.Sessions.Reap.{
  expectation_met, idle_of, found_or_skip, idle_record, require_idle, take_down, reap_found, reap,
}

-- The reaper found the generation that it was sent for, active, and with no hand-off pending.
abbrev pub MayReap : Option ℕ → SessionRecord → Type 0
MayReap expected r = (expectation_met expected r ≡ true) × (not (handoff_pending r) ≡ true)

-- How a reaping may end.
abbrev pub Reaped : Type 0 → Records → String → SessionRecord → Response → World → Type 0
Reaped may before id r not_found w = ⊥
Reaped may before id r forbidden w = ⊥
Reaped may before id r conflict w = ⊥
Reaped may before id r (preserved code i) w = (i ≡ id) × Failed before id r code w.records
Reaped may before id r (closed outcome touched) w = ⊥
Reaped may before id r (recycled x) w = ⊥
Reaped may before id r reaped w =
    may × ((j : String) → get j w.records ≡ (if str_eq id j then none else get j before))
Reaped may before id r skipped w = w.records ≡ before
Reaped may before id r bad_request w = ⊥
Reaped may before id r unavailable w = ⊥
Reaped may before id r (opened x) w = ⊥

module _ (out : Outside) (cfg : Config) (before : Records) (id : String) (r : SessionRecord)
    (there : get id before ≡ some r) (expected : Option ℕ) where
  abbrev Allowed : Type 0
  Allowed = MayReap expected r

  abbrev R : Response → World → Type 0
  R = Reaped Allowed before id r

  abbrev K : Records → Type 0
  K = Kept before id r

  abbrev B : Records → Type 0
  B rs = rs ≡ before

  preserves :
      (code : Failure) (w : World) → Failed before id r code w.records → R (preserved code id) w
  preserves code w f = (refl, f)

  failed_now :
      (code : Failure) (w : World) (rs : Records)
      → K rs
      → w.records ≡ mark id failed (some code) rs
      → R (preserved code id) w
  failed_now = fails out cfg before id r there R preserves

  idle_record-B :
      (agent_idle : ℕ)
      → Ends (λ w. B w.records) R (λ x w. B w.records) (idle_record out cfg r agent_idle)
  unfolding idle_record
  idle_record-B agent_idle =
      Ends-if (not (ide_started r)) _ _ (λ _. Ends-pure (some agent_idle))
        λ _. Ends-bind (ask_for-records R B out.statuses _) λ s. Ends-pure (idle_of r agent_idle s)

  require_idle-B :
      (minimum : ℕ)
      → Ends (λ w. B w.records) R (λ x w. B w.records) (require_idle out cfg expected minimum r)
  unfolding require_idle
  require_idle-B minimum =
      Ends-if (is_some expected) _ _
        (λ _. Ends-bind (idle_record-B _) λ idle. refuse_unless-records R B _ skipped (λ w b. b))
        λ _. Ends-pure tt

  take_down-K : Ends (λ w. K w.records) R (λ x w. K w.records) (take_down out cfg id r)
  unfolding take_down
  take_down-K =
      Ends-if cfg.runtime _ _
        (λ _. Ends-bind (or_fail-records R K out id flush_failed (failed_now _) _) λ _.
          Ends-bind
            (require-records R K out id flush_failed (failed_now _)
              (flush_record-K out cfg before id r there R preserves))
            λ _.
              require-records R K out id cleanup_failed (failed_now _)
                (ask-records R K out.destroys _))
        λ _. Ends-pure tt

  abbrev Gone : Records → Type 0
  Gone rs = Allowed × ((j : String) → get j rs ≡ (if str_eq id j then none else get j before))

  reap_found-R :
      (reason : String) (minimum : ℕ)
      → Ends (λ w. B w.records) R (λ u w. ⊥) (reap_found out cfg id reason expected minimum r)
  unfolding reap_found
  reap_found-R reason minimum =
      Ends-guard _ skipped _ (λ w b. b)
        λ same.
          Ends-guard _ skipped _ (λ w b. b)
            λ free. Ends-bind (require_ownership-B out cfg before id r there R preserves) λ _.
              Ends-bind (require_idle-B minimum) λ _.
                Ends-bind (begin-K out cfg before id r there R preserves closing) λ _.
                  Ends-bind take_down-K λ _.
                    Ends-bind (change_records-records R K Gone (remove id) (removed (same, free)))
                      λ _.
                        Ends-bind (record_event-records R Gone _ _)
                          λ _. Ends-bind (try_persist-records R Gone out) λ _. Ends-reply reaped
    where
      removed : Allowed → (rs : Records) → K rs → Gone (remove id rs)
      removed may rs (l, e, h) = (may, λ j. ground (arith, h j, get-remove id j rs))

  found_or_skip-B :
      (found : Option SessionRecord)
      → Ends
          (λ w. (found ≡ some r) × B w.records)
          R
          (λ x w. (x ≡ r) × B w.records)
          (found_or_skip found)
  unfolding found_or_skip pure
  found_or_skip-B none = record { at = λ w p. absurd (ground arith) }
  found_or_skip-B (some x) = record { at = λ w p. (ground arith, p.1) }

  -- Whatever the outside answers, the reaper never goes on past its reply. If it gives up, every
  -- record is as it was; if a step fails, the session's record stays, with its branch, owner and
  -- token, marked as failed for that reason; and it removes the record only of a session in the
  -- generation that it was sent for, active where one was named, and with no hand-off pending.
  -- No other session's record changes.
  pub reap-Reaped :
      (reason : String) (minimum : ℕ) (w : World)
      → w.records ≡ before
      → Sat R (λ u v. ⊥) (reap out cfg id reason expected minimum w)
  unfolding reap get_record
  reap-Reaped reason minimum w start =
      (Ends-bind {Q = λ found w. (found ≡ some r) × B w.records}
          (record { at = λ w b. (rw b there, b) })
          λ found. Ends-bind (found_or_skip-B found) λ x.
            Ends-at (reap_found out cfg id reason expected minimum) r x
              (reap_found-R reason minimum)).at
        w start
