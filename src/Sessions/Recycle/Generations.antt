-- ===== src/Sessions/Recycle/Generations.antt =====
-- The records behind `recycle` of sigiledd/src/sessions.rs.
use sigiled.Base.{
  ℕ, ◌+◌, ◌≡◌, refl, String, Bool, not, ◌||◌, Option, none, some, arith, eq_iff, get, inl, inr,
  is_some,
}
use sigiled.Auth.Policy.{Actor}
use sigiled.Auth.Approvals.{ApprovalStore}
use sigiled.Sessions.Records.{
  SessionRecord, Records, active, recycling, failed, Failure, generation_exhausted, persist_failed,
  fetch_failed, boot_failed, cleanup_failed, create_failed, container, session_container, mark, put,
}
use sigiled.Sessions.World.{
  World, Response, preserved, forbidden, conflict, recycled, pure, ◌>>=◌, Outside, ImageChoice,
  get_record,
}
use sigiled.Sessions.Ends.{
  Ends, Sat, Ends-at, Ends-given, Ends-guard, Ends-or_fail, Ends-bind, Ends-pure, Ends-if,
  Ends-from, ask-records, ask_for-records, try_persist-records, mint_token-records,
  record_event-records, change_records-records, require-records, obtain-records, Ends-reply,
}
use sigiled.Sessions.Close.{Config, known}
use sigiled.Sessions.Close.Keeps.{
  Kept, Failed, require_flush-K, require_mirror-K, require_ownership-B, begin-K,
}
use sigiled.Sessions.Recycle.{
  Provision, recycle_allowed, recycle_reconciled, prepare_layer, put_durably, rebound, rebind,
  choose_image, start_container, replace_container, recycle_finished, recycle_found, recycle,
}
use sigiled.Sessions.Recycle.Heirs.{
  Same, With, Held, Renewed, MayRecycle, Recycled, put-With, mark-With,
}

module _ (out : Outside) (cfg : Config) (site : Provision) (before : Records) (id : String)
    (r : SessionRecord) (there : get id before ≡ some r) (keyed : r.session_id ≡ id) (actor : Actor)
    (approvals : ApprovalStore) (now : ℕ) where
  abbrev Allowed : Type 0
  Allowed = MayRecycle actor approvals now r

  abbrev R : Response → World → Type 0
  R = Recycled Allowed cfg.runtime before id r

  abbrev K : Records → Type 0
  K = Kept before id r

  abbrev H : Records → Type 0
  H = Held before id r

  abbrev B : Records → Type 0
  B rs = rs ≡ before

  preserves :
      (code : Failure) (w : World) → Failed before id r code w.records → R (preserved code id) w
  preserves code w f = (
    refl,
    record r { lifecycle = failed; error = some code },
    ((refl, refl, refl, refl), inl refl),
    refl,
    refl,
    f,
  )

  fails :
      (code : Failure) (w : World) (rs : Records)
      → H rs
      → w.records ≡ mark id failed (some code) rs
      → R (preserved code id) w
  fails code w rs (x, heir, h) m = (
    refl,
    record x { lifecycle = failed; error = some code },
    heir,
    refl,
    refl,
    mark-With before id x code rs w.records h m,
  )

  -- The next generation of the session, and its container.
  abbrev Next : SessionRecord → Type 0
  Next y = Same r y × (y.generation ≡ r.generation + 1)

  abbrev Bound : SessionRecord → Type 0
  Bound y = Next y × (container y ≡ session_container id (r.generation + 1))

  put-H : (y : SessionRecord) → Next y → (rs : Records) → H rs → H (put y rs)
  put-H y (same, g) rs (x, heir, h) =
      (y, (same, inr g), put-With before id x y rs (ground (arith, same.0)) h)

  put_durably-H :
      (y : SessionRecord)
      → Next y
      → Ends (λ w. H w.records) R (λ u w. H w.records) (put_durably out cfg site id y)
  unfolding put_durably
  put_durably-H y next =
      Ends-bind (change_records-records R H H (put y) (put-H y next))
        λ _. require-records R H out id persist_failed (fails _) (try_persist-records R H out)

  recycle_allowed-K :
      Ends
        (λ w. B w.records)
        R
        (λ x w. (x ≡ r) × (Allowed × K w.records))
        (recycle_allowed out cfg site actor approvals now id r)
  unfolding recycle_allowed
  recycle_allowed-K =
      Ends-guard _ forbidden _ (λ w b. b)
        λ may.
          Ends-guard _ conflict _ (λ w b. b)
            λ free. Ends-bind (require_ownership-B out cfg before id r there R preserves) λ _.
              Ends-or_fail R B out id generation_exhausted early _ _ λ room.
                Ends-bind (begin-K out cfg before id r there R preserves recycling)
                  λ _. Ends-from (λ w k. (refl, ((may, free, room), k))) (Ends-pure r)
    where
      early :
          (w : World) (rs : Records)
          → B rs
          → w.records ≡ mark id failed (some generation_exhausted) rs
          → R (preserved generation_exhausted id) w
      early w rs b m =
          fails _ w rs
            (r, ((refl, refl, refl, refl), inl refl), λ j. ground (arith, eq_iff id j, b)) m

  Kept-H : (rs : Records) → K rs → H rs
  Kept-H rs (l, e, h) =
      (record r { lifecycle = l; error = e }, ((refl, refl, refl, refl), inl refl), h)

  recycle_reconciled-H :
      Ends (λ w. K w.records) R (λ y w. Next y × H w.records) (recycle_reconciled out cfg site id r)
  unfolding recycle_reconciled
  recycle_reconciled-H = Ends-bind (require_flush-K out cfg before id r there R preserves) λ _.
      Ends-bind (require_mirror-K out cfg before id r there R preserves) λ _.
        Ends-from (λ w. Kept-H w.records)
          (Ends-bind
            (obtain-records R H out id fetch_failed (fails _) (ask_for-records R H out.heads _))
            λ head. Ends-from (λ w h. (((refl, refl, refl, refl), refl), h)) (Ends-pure _))

  rebind-H :
      (y : SessionRecord)
      → Next y
      → Ends (λ w. H w.records) R (λ z w. Bound z × H w.records) (rebind out cfg site id y)
  unfolding rebind container
  rebind-H y (same, g) =
      Ends-bind
        (require-records R H out id cleanup_failed (fails _) (ask-records R H out.destroys _))
        λ _. Ends-bind (mint_token-records R H out) λ token.
          Ends-bind (put_durably-H (rebound out cfg site id token y) (same, g))
            λ _. Ends-from (λ w h. (((same, g), rw g refl), h)) (Ends-pure _)

  prepare_layer-H :
      (enabled : Bool) (name : String) (choice : ImageChoice)
      → Ends
          (λ w. H w.records)
          R
          (λ c w. H w.records)
          (prepare_layer out cfg site enabled name choice)
  unfolding prepare_layer
  prepare_layer-H enabled name choice =
      Ends-if (not enabled || is_some choice.build_error) _ _ (λ _. Ends-pure choice)
        λ _. Ends-bind (ask_for-records R H out.layers _) λ layer. Ends-pure _

  choose_image-H :
      (choice : ImageChoice) (y : SessionRecord)
      → Bound y
      → Ends
          (λ w. H w.records)
          R
          (λ z w. Bound z × H w.records)
          (choose_image out cfg site id choice y)
  unfolding choose_image container
  choose_image-H choice y (next, c) = Ends-bind (prepare_layer-H _ _ choice) λ chosen.
      Ends-bind (put_durably-H _ next) λ _. Ends-from (λ w h. ((next, c), h)) (Ends-pure _)

  start_container-H :
      (y : SessionRecord)
      → Bound y
      → Ends
          (λ w. H w.records)
          R
          (λ z w. Renewed cfg.runtime id r z × H w.records)
          (start_container out cfg site id y)
  unfolding start_container container
  start_container-H y ((same, g), c) =
      Ends-bind (require-records R H out id create_failed (fails _) (ask-records R H out.creates _))
        λ _. Ends-bind (put_durably-H _ (same, g)) λ _.
          Ends-bind
            (require-records R H out id boot_failed (fails _) (ask-records R H out.is_healthy _))
            λ _.
              Ends-bind
                (obtain-records R H out id boot_failed (fails _) (ask_for-records R H out.boots _))
                λ head. Ends-from (λ w h. ((same, g, λ _. (refl, c)), h)) (Ends-pure _)

  replace_container-H :
      (y : SessionRecord)
      → Next y
      → Ends
          (λ w. H w.records)
          R
          (λ z w. Renewed cfg.runtime id r z × H w.records)
          (replace_container out cfg site id y)
  unfolding replace_container
  replace_container-H y next =
      Ends-if cfg.runtime _ _
        (λ _.
          Ends-bind
            (obtain-records R H out id boot_failed (fails _) (ask_for-records R H out.images _))
            λ choice. Ends-bind (rebind-H y next) λ bound.
              Ends-bind (Ends-given λ b. choose_image-H choice bound b)
                λ chosen. Ends-given λ b. start_container-H chosen b)
        λ off.
          Ends-from (λ w h. ((next.0, next.1, λ on. absurd (ground (arith, on, off))), h))
            (Ends-pure y)

  abbrev settled : SessionRecord → SessionRecord
  settled y = record y { lifecycle = active; error = none }

  recycle_finished-R :
      Allowed
      → (y : SessionRecord) → Renewed cfg.runtime id r y
      → Ends (λ w. H w.records) R (λ u w. ⊥) (recycle_finished out cfg site id y)
  unfolding recycle_finished container
  recycle_finished-R may y (same, g, owned) =
      Ends-bind
        (change_records-records R H (With before id (settled y)) (put (settled y))
          (λ rs h. put_done rs h))
        λ _. Ends-bind (record_event-records R (With before id (settled y)) _ _) λ _.
          Ends-bind
            (require-records R (With before id (settled y)) out id persist_failed fails_done
              (try_persist-records R (With before id (settled y)) out))
            λ _.
              Ends-from (λ w d. (may, (same, g, owned), refl, refl, d))
                (Ends-reply (recycled (settled y)))
    where
      put_done : (rs : Records) → H rs → (With before id (settled y)) (put (settled y) rs)
      put_done rs (x, heir, h) = put-With before id x (settled y) rs (ground (arith, same.0)) h

      fails_done :
          (w : World) (rs : Records)
          → (With before id (settled y)) rs
          → w.records ≡ mark id failed (some persist_failed) rs
          → R (preserved persist_failed id) w
      fails_done w rs d m = fails _ w rs ((settled y), (same, inr g), d) m

  recycle_found-R : Ends (λ w. Allowed × K w.records) R (λ u w. ⊥) (recycle_found out cfg site id r)
  unfolding recycle_found
  recycle_found-R = Ends-given λ may. Ends-bind recycle_reconciled-H λ y.
      Ends-bind (Ends-given λ next. replace_container-H y next)
        λ z. Ends-given λ renewed. recycle_finished-R may z renewed

  known-B :
      (found : Option SessionRecord)
      → Ends (λ w. (found ≡ some r) × B w.records) R (λ x w. (x ≡ r) × B w.records) (known found)
  unfolding known pure
  known-B none = record { at = λ w p. absurd (ground arith) }
  known-B (some x) = record { at = λ w p. (ground arith, p.1) }

  -- Whatever the outside answers, a recycle of a session that is filed under its own id replies. A
  -- refusal changes no record. A failure keeps the session, with its project, its branch and its
  -- owner, in its generation or the next, marked as failed for the reason replied. A success needs
  -- the capability, the owner or an administrator, no pending hand-off and a generation below the
  -- largest of 64 bits; it leaves the session active and without an error in the next generation,
  -- with a runtime in the container named for that generation. No other session's record changes.
  pub recycle-Recycled :
      (w : World)
      → w.records ≡ before
      → Sat R (λ u v. ⊥) (recycle out cfg site actor approvals now id w)
  unfolding recycle get_record
  recycle-Recycled w start =
      (Ends-bind {Q = λ found w. (found ≡ some r) × B w.records}
          (record { at = λ w b. (rw b there, b) })
          λ found. Ends-bind (known-B found) λ x.
            Ends-at
              (λ y.
                recycle_allowed out cfg site actor approvals now id y
                >>= recycle_found out cfg site id)
              r x
              (Ends-bind recycle_allowed-K
                λ y. Ends-at (recycle_found out cfg site id) r y recycle_found-R)).at
        w start
