-- ===== src/Sessions/Recycle/Crashes.antt =====
-- The disk within `recycle` of sigiledd/src/sessions.rs, and the restart behind it.
use sigiled.Base.{
  ◌+◌, List, ◌∷◌, ◌≡◌, refl, String, Bool, true, false, some, arith, eq_iff, get, get-insert,
}
use sigiled.Sessions.Records.{
  SessionRecord, Records, active, Failure, persist_failed, cleanup_failed, recover_record,
  hydrate_records, put, container, session_container,
}
use sigiled.Sessions.World.{
  World, Response, Handler, Call, persist, destroy, mint, pure, ◌>>=◌, Outside, change_records,
  try_persist, or_fail, require, ask, mint_token, failure, reply_with,
}
use sigiled.Sessions.Ends.{Ends, Sat, Ends-bind, Ends-from, Ends-pure, Ends-given}
use sigiled.Sessions.Close.{Config}
use sigiled.Sessions.Boot.{recover_all-get}
use sigiled.Sessions.Recycle.{Provision, rebound, rebind, put_durably}

abbrev Anything : Response → World → Type 0
Anything r w = Unit

-- A step that may end in any reply, from any world.
abbrev Steps {ℓ} : {A : Type ℓ} → Handler A → Type ℓ
Steps m = Ends (λ w. Unit) Anything (λ a w. Unit) m

module _ (out : Outside) (cfg : Config) (site : Provision) (id : String) where
  or_fail-then :
      (code : Failure) (b : Bool) (Q : World → Type 0)
      → Ends (λ w. b ≡ true → Q w) Anything (λ u. Q) (or_fail out id code b)
  unfolding or_fail failure pure ◌>>=◌ change_records try_persist reply_with
  or_fail-then code true Q = record { at = λ w h. h refl }
  or_fail-then code false Q = record { at = λ w h. tt }

  abbrev Stored : SessionRecord → List Call → World → Type 0
  Stored y t w = (get id w.disk.records ≡ some y) × (w.trace ≡ persist true ∷ t)

  put_durably-disk :
      (y : SessionRecord) (t : List Call)
      → y.session_id ≡ id
      → Ends (λ w. w.trace ≡ t) Anything (λ u. Stored y t) (put_durably out cfg site id y)
  unfolding put_durably require change_records try_persist put
  put_durably-disk y t e =
      Ends-bind {Q = λ u w. (get id w.records ≡ some y) × (w.trace ≡ t)}
        (record {
          at = λ w p. (
            ground (arith, e, get-insert y.session_id id y w.records, eq_iff y.session_id id),
            p,
          );
        })
        λ u.
          Ends-bind {Q = λ b w. b ≡ true → Stored y t w}
            (record { at = λ w p e. (ground (arith, p.0, e), ground (arith, p.1, e)) })
            λ b. or_fail-then persist_failed b (Stored y t)

  recovered :
      (rs : Records) (y : SessionRecord) (token : String)
      → get id rs ≡ some (rebound out cfg site id token y)
      → y.lifecycle ≡ active
      → get id (hydrate_records rs) ≡ some (rebound out cfg site id token y)
  unfolding hydrate_records recover_record
  recovered rs y token here live = ground (arith, recover_all-get rs rs id, here, live)

  -- Where a recycle of an active session with the record `r` binds the next generation (`r` with
  -- some head and a generation one higher), it ends early or has made the new record durable. If the
  -- process ends then, the restart takes the session for active in the next generation, with the
  -- token that was minted last, in the container of that generation. The only requests since the
  -- binding began were to destroy the container of `r`, to mint that token and to persist the
  -- state: none was to create the container that the session is said to be active in.
  pub rebind_crash :
      (r : SessionRecord) (head : String) (w : World)
      → r.session_id ≡ id
      → r.lifecycle ≡ active
      → Sat Anything
          (λ y v.
            (get id (hydrate_records v.disk.records) ≡ some y)
            × (y.lifecycle ≡ active)
            × (y.generation ≡ r.generation + 1)
            × (y.token ≡ some (out.mints (destroy (container r) true ∷ w.trace)))
            × (container y ≡ session_container id (r.generation + 1))
            × (y.runtime_owned ≡ false)
            × (v.trace ≡ persist true ∷ (mint ∷ (destroy (container r) true ∷ w.trace))))
          (rebind out cfg site id (record r { head = head; generation = r.generation + 1 }) w)
  unfolding rebind require ask mint_token container
  rebind_crash r head w keyed live =
      let next : SessionRecord = record r { head = head; generation = r.generation + 1 } in
      let gone : List Call = destroy (container r) true ∷ w.trace in
      (Ends-bind {P = λ v. v.trace ≡ w.trace} {Q = λ u v. v.trace ≡ gone}
          (Ends-bind {Q = λ b v. b ≡ true → v.trace ≡ gone}
            (record { at = λ v p e. rw (e, p) refl })
            λ b. or_fail-then cleanup_failed b (λ v. v.trace ≡ gone))
          λ u.
            Ends-bind {Q = λ t v. (t ≡ out.mints gone) × (v.trace ≡ mint ∷ gone)}
              (record { at = λ v p. rw p (refl, refl) })
              λ token. Ends-given λ minted.
                Ends-bind
                  (put_durably-disk (rebound out cfg site id token next) (mint ∷ gone) keyed)
                  λ _.
                    Ends-from
                      (λ v h. (
                        recovered v.disk.records next token h.0 live,
                        live,
                        refl,
                        rw minted refl,
                        refl,
                        refl,
                        h.1,
                      ))
                      (Ends-pure _)).at
        w refl
