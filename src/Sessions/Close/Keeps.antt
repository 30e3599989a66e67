-- ===== src/Sessions/Close/Keeps.antt =====
-- The records behind the steps that the handlers of sigiledd/src/sessions.rs share.
use sigiled.Base.{
  ◌≡◌, sym, subst, String, true, false, ◌&&◌, Option, none, some, arith, if◌then◌else◌, str_eq,
  eq_iff, get, get-adjust, is_some,
}
use sigiled.Sessions.Records.{
  SessionRecord, Records, Lifecycle, failed, Failure, persist_failed, mirror_failed, flush_failed,
  fetch_failed, runtime_unavailable, legacy_ownership_ambiguous, runtime_not_owned, handoff_pending,
  mark,
}
use sigiled.Sessions.World.{World, Response, preserved, Outside, gets}
use sigiled.Sessions.Ends.{
  Ends, Ends-bind, Ends-pure, Ends-if, ask-records, try_persist-records, change_records-records,
  or_fail-records, require-records,
}
use sigiled.Sessions.Close.{
  Config, flush_record, require_ownership, require_flush, require_mirror, begin, ide_started,
}

-- The records before a handler, with the session's record `r`, at most its lifecycle and its
-- error changed, and every other record as it was.
abbrev pub Kept : Records → String → SessionRecord → Records → Type 0
Kept before id r rs =
    (l : Lifecycle) × (e : Option Failure) × ((j : String)
      → get j rs
        ≡ (if str_eq id j then some (record r { lifecycle = l; error = e }) else get j before))

abbrev pub Failed : Records → String → SessionRecord → Failure → Records → Type 0
Failed before id r code rs =
    (j : String)
    → get j rs ≡ (
        if str_eq id j
        then some (record r { lifecycle = failed; error = some code })
        else get j before)

pub mark-Failed :
    (before : Records) (id : String) (r : SessionRecord) (code : Failure) (rs rs' : Records)
    → Kept before id r rs
    → rs' ≡ mark id failed (some code) rs
    → Failed before id r code rs'
unfolding mark
mark-Failed before id r code rs rs' (l, e, h) m j = rw m (
    ground (
      arith,
      h j,
      get-adjust id j (λ (x : SessionRecord). record x { lifecycle = failed; error = some code })
          rs,
      eq_iff id j,
    ))

pub mark-Kept :
    (before : Records) (id : String) (r : SessionRecord) (l : Lifecycle) (e : Option Failure)
    (rs : Records)
    → Kept before id r rs
    → Kept before id r (mark id l e rs)
unfolding mark
mark-Kept before id r l e rs (l0, e0, h) = (
  l,
  e,
  λ j. ground (
    arith,
    h j,
    get-adjust id j (λ (x : SessionRecord). record x { lifecycle = l; error = e }) rs,
    eq_iff id j,
  ),
)

pub same-Kept :
    (before : Records) (id : String) (r : SessionRecord)
    → get id before ≡ some r
    → Kept before id r before
same-Kept before id r e = (r.lifecycle, r.error, λ j. ground (arith, eq_iff id j))

-- For a session whose record is `r`, and a handler that may end with a failure of it.
module _ (out : Outside) (cfg : Config) (before : Records) (id : String) (r : SessionRecord)
    (there : get id before ≡ some r) (R : Response → World → Type 0)
    (preserves : (code : Failure) (w : World)
      → Failed before id r code w.records
      → R (preserved code id) w) where
  abbrev K : Records → Type 0
  K = Kept before id r

  abbrev B : Records → Type 0
  B rs = rs ≡ before

  pub fails :
      (code : Failure) (w : World) (rs : Records)
      → K rs
      → w.records ≡ mark id failed (some code) rs
      → R (preserved code id) w
  fails code w rs k m = preserves code w (mark-Failed before id r code rs w.records k m)

  pub fails_early :
      (code : Failure) (w : World) (rs : Records)
      → B rs
      → w.records ≡ mark id failed (some code) rs
      → R (preserved code id) w
  fails_early code w rs b m = fails code w rs (subst K (sym b) (same-Kept before id r there)) m

  pub flush_record-K : Ends (λ w. K w.records) R (λ b w. K w.records) (flush_record out cfg r)
  unfolding flush_record
  flush_record-K =
      Ends-if (handoff_pending r) _ _ (λ _. Ends-pure false)
        λ _.
          Ends-if (ide_started r) _ _ (λ _. ask-records R K out.ide_finishes _)
            λ _.
              Ends-if (cfg.runtime && is_some r.token) _ _ (λ _. ask-records R K out.flushes _)
                λ _. Ends-pure true

  pub require_ownership-B :
      Ends (λ w. B w.records) R (λ u w. B w.records) (require_ownership out cfg id r)
  unfolding require_ownership gets
  require_ownership-B =
      Ends-bind (or_fail-records R B out id runtime_unavailable (fails_early _) _) λ _.
        Ends-bind {Q = λ safe w. B w.records} (record { at = λ w p. p })
          λ safe.
            Ends-bind (or_fail-records R B out id legacy_ownership_ambiguous (fails_early _) safe)
              λ _. or_fail-records R B out id runtime_not_owned (fails_early _) _

  pub begin-K :
      (l : Lifecycle) → Ends (λ w. B w.records) R (λ x w. K w.records) (begin out cfg id l)
  unfolding begin
  begin-K l =
      Ends-bind (change_records-records R B K (mark id l none) marked)
        λ _. require-records R K out id persist_failed (fails _) (try_persist-records R K out)
    where
      marked : (rs : Records) → B rs → K (mark id l none rs)
      marked rs b = mark-Kept before id r l none rs (subst K (sym b) (same-Kept before id r there))

  pub require_flush-K : Ends (λ w. K w.records) R (λ u w. K w.records) (require_flush out cfg id r)
  unfolding require_flush
  require_flush-K =
      Ends-if (cfg.runtime && is_some r.token) _ _
        (λ _. require-records R K out id flush_failed (fails _) flush_record-K) λ _. Ends-pure tt

  pub require_mirror-K :
      Ends (λ w. K w.records) R (λ u w. K w.records) (require_mirror out cfg id r)
  unfolding require_mirror
  require_mirror-K =
      Ends-bind {Q = λ u w. K w.records}
        (Ends-if cfg.runtime _ _
          (λ _. require-records R K out id mirror_failed (fails _) (ask-records R K out.mirrors _))
          λ _. or_fail-records R K out id mirror_failed (fails _) cfg.repos_dir)
        λ _.
          Ends-if cfg.runtime _ _
            (λ _. require-records R K out id fetch_failed (fails _) (ask-records R K out.fetches _))
            λ _. Ends-pure tt
