-- ===== src/Sessions/Sweep/Spared.antt =====
-- The sessions that a sweep of sigiledd/src/reaper.rs spares.
use sigiled.Base.{
  ℕ, ◌≡◌, refl, ap, subst, not, ◌∙◌, ◌⊎◌, inl, inr, String, Bool, true, false, Option, none, some,
  List, [], ◌∷◌, ◌++◌, arith, leb, if◌then◌else◌, if-both, str_eq, eq_iff, get, Option-cases,
}
use sigiled.Sessions.Records.{SessionRecord, Records, failed, live_records}
use sigiled.Sessions.World.{
  World, Response, not_found, forbidden, conflict, preserved, closed, recycled, reaped, skipped,
  bad_request, unavailable, opened, Step, go, reply, Outside, Handler, ask_for, pure, ◌>>=◌,
  get_record, reply_with,
}
use sigiled.Sessions.Ends.{Sat}
use sigiled.Sessions.Close.{Config, ide_started}
use sigiled.Sessions.Reap.{reap, idle_record, found_or_skip}
use sigiled.Sessions.Reap.Idle.{Reaped, MayReap, reap-Reaped}
use sigiled.Sessions.Sweep.{measure, reason, judge, visit_from, visit, sweep, reap_pass}

module _ (out : Outside) (cfg : Config) (idle_max : ℕ) where
  -- The sweep over `rs` from `w` visits the session of `r` in the state `v`: the one that the
  -- sessions before it leave.
  abbrev pub Turn : List SessionRecord → World → World → SessionRecord → Type 0
  Turn rs w v r =
      (earlier : List SessionRecord) × (later : List SessionRecord) × (rs ≡ earlier ++ (r ∷ later))
      × (v ≡ (sweep out cfg idle_max earlier w).1)

  -- The session `j` has its turn in `v`, and its idle time as measured there is not below the
  -- threshold.
  abbrev pub Idled : List SessionRecord → World → String → World → SessionRecord → Type 0
  Idled rs w j v r =
      Turn rs w v r
      × (r.session_id ≡ j)
      × ((idle : ℕ) × ((measure out cfg r v).0 ≡ go (some idle)) × (leb idle_max idle ≡ true))

  -- What such a visit leaves of the record: it is gone, and then it was, as the visit found it, of
  -- the visited generation, active and with no hand-off pending; or it is kept as failed.
  abbrev pub Taken : World → SessionRecord → Records → String → Type 0
  Taken v r after j =
      ((get j after ≡ none)
        × ((x : SessionRecord) × (get j v.records ≡ some x) × MayReap (some r.generation) x))
      ⊎ ((x : SessionRecord) × (get j after ≡ some x) × (x.lifecycle ≡ failed))

  -- A record after a sweep: as it was, or of a session that was visited and found idle.
  abbrev pub Spared : List SessionRecord → World → Records → String → Type 0
  Spared rs w after j =
      (get j after ≡ get j w.records)
      ⊎ ((v : World) × (r : SessionRecord) × Idled rs w j v r × Taken v r after j)

  reap-missing :
      (id reason : String) (expected : Option ℕ) (minimum : ℕ) (w : World)
      → get id w.records ≡ none
      → (reap out cfg id reason expected minimum w).1 ≡ w
  unfolding reap get_record found_or_skip reply_with ◌>>=◌
  reap-missing id reason expected minimum w missing = rw missing refl

  choose :
      (b : Bool) (j : String) (o before after : Option SessionRecord)
      → after ≡ (if b then o else before)
      → ((b ≡ true) × (after ≡ o)) ⊎ (after ≡ before)
  choose true j o before after e = inl (refl, e)
  choose false j o before after e = inr e

  -- A record after one reaping, which starts in `v`.
  abbrev Left : World → SessionRecord → Records → String → Type 0
  Left v r after j = (get j after ≡ get j v.records) ⊎ ((r.session_id ≡ j) × Taken v r after j)

  replied-Left :
      (r x : SessionRecord) (before : World) (j : String) (answer : Response) (v : World)
      → get r.session_id before.records ≡ some x
      → Reaped (MayReap (some r.generation) x) before.records r.session_id x answer v
      → Left before r v.records j
  replied-Left r x before j (preserved code i) v there (same, left) =
      elim (choose (str_eq r.session_id j) j
        (some (record x { lifecycle = failed; error = some code })) (get j before.records)
        (get j v.records) (left j)) [
          | inl (at, kept) ↦ inr (
            ground (arith, at, eq_iff r.session_id j),
            inr (record x { lifecycle = failed; error = some code }, kept, refl),
          )
          | inr as_before ↦ inl as_before
        ]
  replied-Left r x before j reaped v there (allowed, left) =
      elim (choose (str_eq r.session_id j) j none (get j before.records) (get j v.records)
        (left j)) [
          | inl (at, gone) ↦
              let same : r.session_id ≡ j = ground (arith, at, eq_iff r.session_id j) in
              inr (same, inl (gone, (x, ground (arith, same, there), allowed)))
          | inr as_before ↦ inl as_before
        ]
  replied-Left r x before j skipped v there e = inl (ap (get j) e)
  replied-Left r x before j not_found v there e = absurd e
  replied-Left r x before j forbidden v there e = absurd e
  replied-Left r x before j conflict v there e = absurd e
  replied-Left r x before j (closed outcome touched) v there e = absurd e
  replied-Left r x before j (recycled y) v there e = absurd e
  replied-Left r x before j bad_request v there e = absurd e
  replied-Left r x before j unavailable v there e = absurd e
  replied-Left r x before j (opened y) v there e = absurd e

  reap-Left :
      (r : SessionRecord) (reason : String) (w : World) (j : String)
      → Left w r (reap out cfg r.session_id reason (some r.generation) idle_max w).1.records j
  reap-Left r reason w j = elim (Option-cases (get r.session_id w.records)) [
    | inl missing ↦ inl (ap (λ v. get j v.records) (absent missing))
    | inr (x, there) ↦
        ended x there (reap out cfg r.session_id reason (some r.generation) idle_max w) (
          reap-Reaped out cfg w.records r.session_id x there (some r.generation) reason idle_max w
            refl)
  ]
    where
      absent :
          get r.session_id w.records ≡ none
          → (reap out cfg r.session_id reason (some r.generation) idle_max w).1 ≡ w
      absent missing = reap-missing r.session_id reason (some r.generation) idle_max w missing

      ended :
          (x : SessionRecord) (there : get r.session_id w.records ≡ some x)
          (res : Step (Unit {0}) × World)
          → Sat (Reaped (MayReap (some r.generation) x) w.records r.session_id x) (λ u v. ⊥) res
          → Left w r res.1.records j
      ended x there (go u, v) e = absurd e
      ended x there (reply answer, v) e = replied-Left r x w j answer v there e

  -- A measurement goes on, and changes no record.
  abbrev Measured : Records → Step (Option ℕ) × World → Type 0
  Measured before (go idle, v) = v.records ≡ before
  Measured before (reply answer, v) = ⊥

  idle_record-Measured :
      (r : SessionRecord) (idle : ℕ) (w : World) → Measured w.records (idle_record out cfg r idle w)
  unfolding idle_record pure ◌>>=◌ ask_for
  idle_record-Measured r idle w =
      if-both (λ (m : Handler (Option ℕ)). Measured w.records (m w)) (not (ide_started r))
        (λ e. refl) λ e. refl

  measure-Measured : (r : SessionRecord) (w : World) → Measured w.records (measure out cfg r w)
  unfolding measure ◌>>=◌ ask_for pure
  measure-Measured r w = elim (Option-cases (out.idles w.trace)) [
    | inl silent ↦ rw silent refl
    | inr (idle, told) ↦ rw told (idle_record-Measured r idle _)
  ]

  -- What a reaping leaves, told of the state `w` in which the visit began.
  Left-Spared :
      (r : SessionRecord) (rs : List SessionRecord) (w v : World) (idle : ℕ) (after : Records)
      (j : String)
      → v.records ≡ w.records
      → (measure out cfg r w).0 ≡ go (some idle)
      → leb idle_max idle ≡ true
      → Left v r after j
      → Spared (r ∷ rs) w after j
  unfolding sweep
  Left-Spared r rs w v idle after j e told long (inl same) = inl (same ∙ ap (get j) e)
  Left-Spared r rs w v idle after j e told long (inr (own, inl (gone, (x, there, may)))) = inr (
    w,
    r,
    (([], rs, refl, refl), own, (idle, told, long)),
    inl (gone, (x, subst (λ b. get j b ≡ some x) e there, may)),
  )
  Left-Spared r rs w v idle after j e told long (inr (own, inr kept)) =
      inr (w, r, (([], rs, refl, refl), own, (idle, told, long)), inr kept)

  judge-Spared :
      (r : SessionRecord) (rs : List SessionRecord) (w : World) (m : Step (Option ℕ) × World)
      (j : String)
      → (measure out cfg r w).0 ≡ m.0
      → Measured w.records m
      → Spared (r ∷ rs) w (judge out cfg idle_max r m).1.records j
  judge-Spared r rs w (go none, v) j told e = inl (ap (get j) e)
  judge-Spared r rs w (go (some idle), v) j told e =
      if-both (λ (p : ℕ × World). Spared (r ∷ rs) w p.1.records j) (leb idle_max idle)
        (λ long. Left-Spared r rs w v idle _ j e told long (reap-Left r (reason out cfg idle) v j))
        λ short. inl (ap (get j) e)
  judge-Spared r rs w (reply answer, v) j told e = absurd e

  visit_from-Spared :
      (r : SessionRecord) (rs : List SessionRecord) (token : Option String) (w : World) (j : String)
      → Spared (r ∷ rs) w (visit_from out cfg idle_max r token w).1.records j
  visit_from-Spared r rs none w j = inl refl
  visit_from-Spared r rs (some token) w j =
      judge-Spared r rs w (measure out cfg r w) j refl (measure-Measured r w)

  after-Spared :
      (rs : List SessionRecord) (w : World) (b c : Records) (j : String)
      → Spared rs w b j
      → get j c ≡ get j b
      → Spared rs w c j
  after-Spared rs w b c j (inl e) f = inl (f ∙ e)
  after-Spared rs w b c j (inr (v, r, seen, inl (gone, may))) f =
      inr (v, r, seen, inl (f ∙ gone, may))
  after-Spared rs w b c j (inr (v, r, seen, inr (x, kept, state))) f =
      inr (v, r, seen, inr (x, f ∙ kept, state))

  then_Spared :
      (r : SessionRecord) (rs : List SessionRecord) (w : World) (c : Records) (j : String)
      → Spared (r ∷ rs) w (visit out cfg idle_max r w).1.records j
      → Spared rs (visit out cfg idle_max r w).1 c j
      → Spared (r ∷ rs) w c j
  unfolding sweep
  then_Spared r rs w c j first (inr (v, x, ((earlier, later, cut, at), own, idle), taken)) =
      inr (v, x, ((r ∷ earlier, later, ap (λ l. r ∷ l) cut, at), own, idle), taken)
  then_Spared r rs w c j first (inl f) =
      after-Spared (r ∷ rs) w (visit out cfg idle_max r w).1.records c j first f

  sweep-Spared :
      (rs : List SessionRecord) (w : World) (j : String)
      → Spared rs w (sweep out cfg idle_max rs w).1.records j
  unfolding sweep
  sweep-Spared [] w j = inl refl
  sweep-Spared (r ∷ rs) w j =
      let (n, v) = visit out cfg idle_max r w in
      then_Spared r rs w (sweep out cfg idle_max rs v).1.records j
        (visit_from-Spared r rs r.token w j) (sweep-Spared rs v j)

  -- Whatever the agents, the provider and the rest of the outside answer during a sweep, each
  -- session's record is as it was, or the session was live at the start and, in the state that the
  -- visits before its own left, its idle time could be measured and was at least `idle_max`. In that
  -- case the record is kept as failed, or it is gone; and it is gone only if in that state it still
  -- was of the generation that it had at the start, active, and with no hand-off pending.
  pub reap_pass-Spared :
      (w : World) (j : String)
      → Spared (live_records w.records) w (reap_pass out cfg idle_max w).1.records j
  unfolding reap_pass
  reap_pass-Spared w j =
      if-both (λ (p : ℕ × World). Spared (live_records w.records) w p.1.records j) cfg.runtime
        (λ e. sweep-Spared (live_records w.records) w j) λ e. inl refl
