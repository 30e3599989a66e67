-- ===== src/Sessions/Open/Allocations.antt =====
-- The records behind `open_inner` of sigiledd/src/sessions.rs.
use sigiled.Base.{
  ℕ, ◌≡◌, ◌≢◌, refl, sym, subst, String, Bool, true, false, not, ◌||◌, Option, none, some, arith,
  eq_iff, get, is_none, is_some,
}
use sigiled.Auth.Policy.{Actor, open_session, authorize}
use sigiled.Auth.Approvals.{ApprovalStore}
use sigiled.Sessions.Records.{
  SessionRecord, Records, active, failed, Failure, persist_failed, mirror_failed, create_failed,
  boot_failed, container, session_container, mark, put,
}
use sigiled.Sessions.World.{
  World, Response, preserved, not_found, forbidden, conflict, bad_request, unavailable, opened,
  pure, ◌>>=◌, Outside, ImageChoice, get_record, gets, fresh_id, change_records, try_persist,
  reply_with,
}
use sigiled.Sessions.Ends.{
  Ends, Sat, Ends-given, Ends-guard, Ends-bind, Ends-pure, Ends-if, Ends-from, Ends-to,
  refuse_unless-records, refuse_unless-given, ask-records, ask_for-records, try_persist-records,
  mint_token-records, record_event-records, change_records-records, require-records, obtain-records,
  Ends-reply,
}
use sigiled.Sessions.Close.{Config}
use sigiled.Sessions.Recycle.{Provision, prepare_layer, put_durably, start_container}
use sigiled.Sessions.Recycle.Heirs.{With, put-With, mark-With}
use sigiled.Sessions.Open.{
  is_allowed, is_slug, with_branch, orphan_of, open_allowed, chosen_id, require_unused, reserved,
  first_token, reserve, give_up, or_give_up, require_repo, choose_branch, image_chosen,
  require_branch, make_workspace, open_finished, open_reserved, open_unused, open_inner,
}
use sigiled.Sessions.Open.Ways.{
  Mine, Exclusive, Owned, Opens, put_new-With, remove-With, find_orphan-free,
}

abbrev pub MayOpen : Provision → Actor → ApprovalStore → ℕ → String → Type 0
MayOpen site actor approvals now project =
    (is_allowed (authorize actor open_session (some project) approvals now) ≡ true)
    × (not (site.incomplete project) ≡ true)
    × (is_slug project ≡ true)

module _ (out : Outside) (cfg : Config) (site : Provision) (before : Records) (actor : Actor)
    (approvals : ApprovalStore) (now : ℕ) (project : String) (allow_orphan : Bool) where
  abbrev May : Type 0
  May = MayOpen site actor approvals now project

  abbrev R : Response → World → Type 0
  R = Opens May cfg.runtime before actor project allow_orphan

  abbrev B : Records → Type 0
  B rs = rs ≡ before

  module _ (id : String) (free : get id before ≡ none) where
    -- The records with one of the new session.
    abbrev H : Records → Type 0
    H rs = (x : SessionRecord) × Mine actor project id x × With before id x rs

    fails :
        (code : Failure) (w : World) (rs : Records)
        → H rs
        → w.records ≡ mark id failed (some code) rs
        → R (preserved code id) w
    fails code w rs (x, mine, h) m = (
      free,
      record x { lifecycle = failed; error = some code },
      mine,
      refl,
      refl,
      mark-With before id x code rs w.records h m,
    )

    put-H : (y : SessionRecord) → Mine actor project id y → (rs : Records) → H rs → H (put y rs)
    put-H y mine rs (x, m, h) = (y, mine, put-With before id x y rs mine.0 h)

    put_durably-H :
        (y : SessionRecord)
        → Mine actor project id y
        → Ends (λ w. H w.records) R (λ u w. H w.records) (put_durably out cfg site id y)
    unfolding put_durably
    put_durably-H y mine =
        Ends-bind (change_records-records R H H (put y) (put-H y mine))
          λ _. require-records R H out id persist_failed (fails _) (try_persist-records R H out)

    -- What is known of the record in hand.
    abbrev Reserved : SessionRecord → Type 0
    Reserved y =
        Mine actor project id y
        × (y.stale ≡ false)
        × (cfg.runtime ≡ true → container y ≡ session_container id 1)

    abbrev Branched : SessionRecord → Type 0
    Branched y =
        Mine actor project id y
        × Exclusive before allow_orphan y
        × (cfg.runtime ≡ true → container y ≡ session_container id 1)

    abbrev Made : SessionRecord → Type 0
    Made y = Mine actor project id y × Exclusive before allow_orphan y × Owned cfg.runtime id y

    first_token-B : Ends (λ w. B w.records) R (λ t w. B w.records) (first_token out cfg site)
    unfolding first_token
    first_token-B =
        Ends-if cfg.runtime _ _
          (λ _. Ends-bind (mint_token-records R B out) λ token. Ends-pure (some token))
          λ _. Ends-pure none

    reserve-H :
        Ends
          (λ w. B w.records)
          R
          (λ y w. Reserved y × H w.records)
          (reserve out cfg site actor project id)
    unfolding reserve put_durably container
    reserve-H = Ends-bind first_token-B λ token.
        Ends-bind
          (Ends-bind
            (change_records-records R B H (put (reserved out cfg site actor project id token))
              (put_first token))
            λ _. require-records R H out id persist_failed (fails _) (try_persist-records R H out))
          λ _.
            Ends-from (λ w h. (((refl, refl, refl, refl), refl, λ on. rw on refl), h)) (Ends-pure _)
      where
        put_first :
            (token : Option String) (rs : Records)
            → B rs
            → H (put (reserved out cfg site actor project id token) rs)
        put_first token rs b = (
          reserved out cfg site actor project id token,
          (refl, refl, refl, refl),
          rw b (put_new-With before id _ refl),
        )

    give_up-R :
        (r : Response)
        → ((w : World) → ((j : String) → get j w.records ≡ get j before) → R r w)
        → (b : Bool)
        → Ends (λ w. H w.records) R (λ u w. H w.records) (or_give_up out cfg site id r b)
    unfolding or_give_up give_up pure ◌>>=◌ change_records try_persist reply_with
    give_up-R r f true = record { at = λ w h. h }
    give_up-R r f false = record {
      at = λ w h. let (x, mine, k) = h in f _ (remove-With before id x w.records free k);
    }

    require_repo-H :
        Ends (λ w. H w.records) R (λ u w. H w.records) (require_repo out cfg site id project)
    unfolding require_repo
    require_repo-H =
        Ends-if cfg.runtime _ _
          (λ _. require-records R H out id mirror_failed (fails _) (ask-records R H out.mirrors _))
          λ _. Ends-bind (give_up-R unavailable (λ w h. h) cfg.repos_dir) λ _.
            Ends-bind (ask-records R H out.repos _) λ there. give_up-R not_found (λ w h. h) there

    with_branch-Branched :
        (y : SessionRecord) (orphan : Option String)
        → allow_orphan ≡ true
        → Reserved y
        → ((branch : String)
            → orphan ≡ some branch
            → (j : String) (r : SessionRecord) → get j before ≡ some r
            → r.project ≡ y.project
            → r.branch ≢ branch)
        → Branched (with_branch y orphan)
    unfolding container
    with_branch-Branched y none on (mine, fresh, c) h = (mine, λ e. absurd (ground arith), c)
    with_branch-Branched y (some branch) on (mine, fresh, c) h = (mine, λ e. (on, h branch refl), c)

    orphan_of-free :
        (refs : Option String) (branch : String) (w : World)
        → H w.records
        → orphan_of refs project w ≡ some branch
        → (j : String) (r : SessionRecord) → get j before ≡ some r
        → r.project ≡ project
        → r.branch ≢ branch
    orphan_of-free refs branch w (x, mine, h) e j r there =
        find_orphan-free refs project w.debts w.records branch e j r
          (ground (arith, h j, eq_iff id j, free, there))

    choose_branch-H :
        (y : SessionRecord)
        → Reserved y
        → Ends
            (λ w. H w.records)
            R
            (λ z w. Branched z × H w.records)
            (choose_branch out cfg site allow_orphan y)
    unfolding choose_branch gets
    choose_branch-H y (mine, fresh, c) =
        Ends-if allow_orphan _ _
          (λ on. Ends-bind (ask_for-records R H out.branches _) λ refs.
            Ends-bind {Q = λ orphan w. Branched (with_branch y orphan) × H w.records}
              (record {
                at = λ w h. (
                  with_branch-Branched y (orphan_of refs y.project w) on (mine, fresh, c)
                      (λ branch e j r there same.
                        orphan_of-free refs branch w h (rw (← mine.1) e) j r there
                          (ground (arith, mine.1))),
                  h,
                );
              })
              λ orphan. Ends-pure (with_branch y orphan))
          λ off. Ends-from (λ w h. ((mine, (λ e. absurd (ground arith)), c), h)) (Ends-pure y)

    prepare_layer-H :
        (enabled : Bool) (name : String) (choice : ImageChoice)
        → Ends
            (λ w. H w.records)
            R
            (λ c w. H w.records)
            (prepare_layer out cfg site enabled name choice)
    unfolding prepare_layer
    prepare_layer-H enabled name choice =
        Ends-if (not enabled || is_some choice.build_error) _ _ (λ _. Ends-pure choice)
          λ _. Ends-bind (ask_for-records R H out.layers _) λ layer. Ends-pure _

    image_chosen-H :
        (choice : ImageChoice) (y : SessionRecord)
        → Branched y
        → Ends
            (λ w. H w.records)
            R
            (λ z w. Branched z × H w.records)
            (image_chosen out cfg site id choice y)
    unfolding image_chosen container
    image_chosen-H choice y (mine, held, c) = Ends-bind (prepare_layer-H _ _ choice) λ chosen.
        Ends-bind (put_durably-H _ mine) λ _. Ends-from (λ w h. ((mine, held, c), h)) (Ends-pure _)

    start_container-H :
        (y : SessionRecord)
        → cfg.runtime ≡ true
        → Branched y
        → Ends
            (λ w. H w.records)
            R
            (λ z w. Made z × H w.records)
            (start_container out cfg site id y)
    unfolding start_container container
    start_container-H y on (mine, held, c) =
        Ends-bind
          (require-records R H out id create_failed (fails _) (ask-records R H out.creates _))
          λ _. Ends-bind (put_durably-H _ mine) λ _.
            Ends-bind
              (require-records R H out id boot_failed (fails _) (ask-records R H out.is_healthy _))
              λ _.
                Ends-bind
                  (obtain-records R H out id boot_failed (fails _)
                    (ask_for-records R H out.boots _))
                  λ head. Ends-from (λ w h. ((mine, held, λ on. (refl, c on)), h)) (Ends-pure _)

    require_branch-H :
        (y : SessionRecord)
        → Ends (λ w. H w.records) R (λ u w. H w.records) (require_branch out cfg site id y)
    unfolding require_branch
    require_branch-H y =
        Ends-if y.stale _ _ (λ _. Ends-pure tt)
          λ _.
            require-records R H out id create_failed (fails _) (ask-records R H out.new_branches _)

    make_workspace-H :
        (y : SessionRecord)
        → Branched y
        → Ends (λ w. H w.records) R (λ z w. Made z × H w.records) (make_workspace out cfg site id y)
    unfolding make_workspace
    make_workspace-H y (mine, held, c) =
        Ends-if cfg.runtime _ _
          (λ on.
            Ends-bind
              (obtain-records R H out id boot_failed (fails _) (ask_for-records R H out.images _))
              λ choice.
                Ends-bind (image_chosen-H choice y (mine, held, c))
                  λ chosen. Ends-given λ b. start_container-H chosen on b)
          λ off. Ends-bind (require_branch-H y) λ _.
            Ends-bind
              (obtain-records R H out id boot_failed (fails _) (ask_for-records R H out.heads _))
              λ head.
                Ends-from (λ w h. ((mine, held, λ on. absurd (ground (arith, on, off))), h))
                  (Ends-pure _)

    abbrev settled : SessionRecord → SessionRecord
    settled y = record y { lifecycle = active }

    open_finished-R :
        May
        → (y : SessionRecord) → Made y
        → Ends (λ w. H w.records) R (λ u w. ⊥) (open_finished out cfg site id y)
    unfolding open_finished container
    open_finished-R may y (mine, held, owned) =
        Ends-bind
          (change_records-records R H (With before id (settled y)) (put (settled y)) put_done)
          λ _. Ends-bind (record_event-records R (With before id (settled y)) _ _) λ _.
            Ends-bind
              (require-records R (With before id (settled y)) out id persist_failed fails_done
                (try_persist-records R (With before id (settled y)) out))
              λ _. Ends-from done (Ends-reply (opened (settled y)))
      where
        put_done : (rs : Records) → H rs → With before id (settled y) (put (settled y) rs)
        put_done rs (x, m, h) = put-With before id x (settled y) rs mine.0 h

        fails_done :
            (w : World) (rs : Records)
            → With before id (settled y) rs
            → w.records ≡ mark id failed (some persist_failed) rs
            → R (preserved persist_failed id) w
        fails_done w rs d m = fails _ w rs (settled y, mine, d) m

        done : (w : World) → With before id (settled y) w.records → R (opened (settled y)) w
        done w d = (
          may,
          rw mine.0 free,
          (refl, mine.1, mine.2, mine.3),
          refl,
          held,
          rw mine.0 owned,
          subst (λ k. With before k (settled y) w.records) (sym mine.0) d,
        )

    open_reserved-R :
        May
        → (y : SessionRecord) → Reserved y
        → Ends (λ w. H w.records) R (λ u w. ⊥) (open_reserved out cfg site id allow_orphan y)
    unfolding open_reserved
    open_reserved-R may y (mine, fresh, c) =
        Ends-bind
          (subst
            (λ p. Ends (λ w. H w.records) R (λ u w. H w.records) (require_repo out cfg site id p))
            (sym mine.1) require_repo-H)
          λ _. Ends-bind (choose_branch-H y (mine, fresh, c)) λ z. Ends-given λ branched.
            Ends-bind (put_durably-H z branched.0) λ _.
              Ends-bind (make_workspace-H z branched)
                λ made. Ends-given λ m. open_finished-R may made m

  require_unused-B :
      (id : String)
      → Ends
          (λ w. B w.records)
          R
          (λ u w. (get id before ≡ none) × B w.records)
          (require_unused out cfg site id project allow_orphan)
  unfolding require_unused get_record gets
  require_unused-B id =
      Ends-bind {Q = λ found w. (found ≡ get id before) × B w.records}
        (record { at = λ w b. (rw b refl, b) })
        λ found. Ends-given λ e.
          Ends-guard _ conflict _ (λ w b. b)
            λ none_there.
              Ends-bind {Q = λ debts w. B w.records} (record { at = λ w b. b })
                λ debts.
                  Ends-from (λ w b. b)
                    (Ends-to (λ u w b. (is_none-eq found (get id before) e none_there, b))
                      (refuse_unless-records R B _ conflict (λ w b. b)))
    where
      is_none-eq : (o p : Option SessionRecord) → o ≡ p → is_none o ≡ true → p ≡ none
      is_none-eq none p e h = sym e
      is_none-eq (some x) p e h = absurd (ground arith)

  open_unused-R :
      May
      → (id : String)
      → Ends
          (λ w. B w.records)
          R
          (λ u w. ⊥)
          (open_unused out cfg site actor project allow_orphan id)
  unfolding open_unused
  open_unused-R may id = Ends-bind (require_unused-B id) λ _.
      Ends-given
        λ free. Ends-bind (reserve-H id free) λ y. Ends-given λ r. open_reserved-R id free may y r

  chosen_id-B :
      (selected : Option String)
      → Ends (λ w. B w.records) R (λ id w. B w.records) (chosen_id out cfg site selected)
  unfolding chosen_id fresh_id pure
  chosen_id-B none = record { at = λ w b. b }
  chosen_id-B (some id) = record { at = λ w b. b }

  -- Whatever the outside answers, an opening replies. A refusal changes no record, and a
  -- reservation that is given up leaves every record as it was. A failure leaves one more record,
  -- under an id that was free, of this caller for this project, marked as failed for the reason
  -- replied. A success needs the approval, a complete project and a proper slug; it leaves one
  -- more record, under an id that was free, active, in the first generation and with a runtime in
  -- the container named for it; and where it resumes a branch, no other session of the project
  -- held that branch. No other session's record changes.
  pub open_inner-Opens :
      (selected : Option String) (w : World)
      → w.records ≡ before
      → Sat R
          (λ u v. ⊥)
          (open_inner out cfg site actor approvals now project selected allow_orphan w)
  unfolding open_inner open_allowed
  open_inner-Opens selected w start =
      (Ends-bind {Q = λ u w. May × B w.records} allowed
          λ _. Ends-given λ may. Ends-bind (chosen_id-B selected) λ id. open_unused-R may id).at
        w start
    where
      allowed :
          Ends
            (λ w. B w.records)
            R
            (λ u w. May × B w.records)
            (open_allowed out cfg site actor approvals now project)
      allowed =
          Ends-guard _ forbidden _ (λ w b. b)
            λ may.
              Ends-guard _ conflict _ (λ w b. b)
                λ whole.
                  Ends-to (λ u w h. ((may, whole, h.0), h.1))
                    (refuse_unless-given R B _ bad_request (λ w b. b))
