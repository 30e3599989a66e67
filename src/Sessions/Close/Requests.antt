-- ===== src/Sessions/Close/Requests.antt =====
-- What the requests of `close_expected` in sigiledd/src/sessions.rs say, and rules for handlers
-- that make requests.
use sigiled.Base.{
  ◌≡◌, refl, String, Bool, true, false, not, ◌&&◌, ◌||◌, Option, none, some, List, [], ◌∷◌, arith,
  any, is_some, str_eq,
}
use sigiled.Sessions.Records.{SessionRecord, container, Records, Debts, Failure}
use sigiled.Sessions.World.{
  World, Response, Handler, pure, reply_with, ◌>>=◌, Call, persist, ide_finish, flush, destroy,
  merge, fetch, Event, Outside, ask, ask_for, change_records, change_debts, record_event, note,
  try_persist, failure, or_fail, require, some_or_fail, obtain, refuse_unless,
}
use sigiled.Sessions.Close.{ide_started}
use sigiled.Sessions.Ends.{Ends, Ends-bind}

abbrev pub is_destroy : Call → Bool
is_destroy (destroy c b) = true
is_destroy _ = false

-- The last request was to persist the state, and it was granted.
abbrev pub is_durable : List Call → Bool
is_durable (persist b ∷ t) = b
is_durable _ = false

-- Some request is of the kind `p`, and what was requested before it is as `q` says.
abbrev pub is_after : (Call → Bool) → (List Call → Bool) → List Call → Bool
is_after p q [] = false
is_after p q (c ∷ t) = (p c && q t) || is_after p q t

abbrev pub Calm : List Call → Type 0
Calm t = any t is_destroy ≡ false

-- The requests of a close of the session with the record `s`.
module _ (s : SessionRecord) where
  -- The work in the session's own container was flushed: by the IDE, if one was started there.
  abbrev pub is_flush : Call → Bool
  is_flush (flush c b) = b && not (ide_started s) && str_eq c (container s)
  is_flush (ide_finish c b) = b && ide_started s && str_eq c (container s)
  is_flush _ = false

  -- The session's branch was fetched.
  abbrev pub is_fetch : Call → Bool
  is_fetch (fetch branch b) = b && str_eq branch s.branch
  is_fetch _ = false

  -- The session's branch was merged, with an outcome.
  abbrev pub is_merge : Call → Bool
  is_merge (merge branch b) = b && str_eq branch s.branch
  is_merge _ = false

  -- The session's own container was asked to go.
  abbrev pub is_own : Call → Bool
  is_own (destroy c b) = str_eq c (container s)
  is_own _ = false

  abbrev pub is_fetched : List Call → Bool
  is_fetched = is_after is_fetch (λ t. any t is_flush)

  abbrev pub is_merged : List Call → Bool
  is_merged = is_after is_merge is_fetched

  -- Every request to destroy a container is for the session's own, and comes directly after a
  -- granted one to persist the state, and after a merge of the branch that came after a fetch of
  -- the branch that came after a flush of the container.
  abbrev pub is_ordered : List Call → Bool
  is_ordered [] = true
  is_ordered (c ∷ t) =
      (not (is_destroy c) || (is_own c && is_durable t && is_merged t)) && is_ordered t

  abbrev pub Flushed : List Call → Type 0
  Flushed t = Calm t × (any t is_flush ≡ true)

  abbrev pub Fetched : List Call → Type 0
  Fetched t = Calm t × (is_fetched t ≡ true)

  abbrev pub Merged : List Call → Type 0
  Merged t = Calm t × (is_merged t ≡ true)

  abbrev pub Ready : List Call → Type 0
  Ready t = Merged t × (is_durable t ≡ true)

  abbrev pub Ordered : List Call → Type 0
  Ordered t = is_ordered t ≡ true

  pub Calm-Ordered : (t : List Call) → Calm t → Ordered t
  Calm-Ordered [] h = refl
  Calm-Ordered (c ∷ t) h = ground (arith, Calm-Ordered t)

  abbrev pub R : Response → World → Type 0
  R r w = Ordered w.trace

  -- A handler from a trace with `K` to one with `L`.
  abbrev pub Traces {ℓ} :
      {A : Type ℓ} → (List Call → Type 0) → (A → List Call → Type 0) → Handler A → Type ℓ
  Traces K L m = Ends (λ w. K w.trace) R (λ a w. L a w.trace) m

module _ (s : SessionRecord) (K : List Call → Type 0) where
  pub ask-Traces :
      (L : Bool → List Call → Type 0) (f : List Call → Bool) (c : Bool → Call)
      → ((b : Bool) (t : List Call) → K t → L b (c b ∷ t))
      → Traces s K L (ask f c)
  unfolding ask
  ask-Traces L f c h = record { at = λ w k. h _ w.trace k }

  pub ask_for-Traces {ℓ} :
      {A : Type ℓ} (L : Bool → List Call → Type 0) (f : List Call → Option A) (c : Bool → Call)
      → ((b : Bool) (t : List Call) → K t → L b (c b ∷ t))
      → Traces s K (λ o. L (is_some o)) (ask_for f c)
  unfolding ask_for
  ask_for-Traces L f c h = record { at = λ w k. h _ w.trace k }

  pub try_persist-Traces :
      (L : Bool → List Call → Type 0) (out : Outside)
      → ((b : Bool) (t : List Call) → K t → L b (persist b ∷ t))
      → Traces s K L (try_persist out)
  unfolding try_persist
  try_persist-Traces L out h = record { at = λ w k. h _ w.trace k }

  pub note-Traces : (c : Call) → ((t : List Call) → K t → K (c ∷ t)) → Traces s K (λ u. K) (note c)
  unfolding note
  note-Traces c h = record { at = λ w k. h w.trace k }

  pub change_records-Traces : (f : Records → Records) → Traces s K (λ u. K) (change_records f)
  unfolding change_records
  change_records-Traces f = record { at = λ w k. k }

  pub change_debts-Traces : (f : Debts → Debts) → Traces s K (λ u. K) (change_debts f)
  unfolding change_debts
  change_debts-Traces f = record { at = λ w k. k }

  pub record_event-Traces :
      (project : String) (e : Event) → Traces s K (λ u. K) (record_event project e)
  unfolding record_event
  record_event-Traces project e = record { at = λ w k. k }

  pub refuse_unless-Traces :
      (b : Bool) (r : Response)
      → ((t : List Call) → K t → Ordered s t)
      → Traces s K (λ u. K) (refuse_unless b r)
  unfolding refuse_unless pure reply_with
  refuse_unless-Traces true r h = record { at = λ w k. k }
  refuse_unless-Traces false r h = record { at = λ w k. h w.trace k }

  module _ (out : Outside) (id : String) (code : Failure) where
    pub or_fail-Traces :
        (b : Bool)
        → ((t : List Call) → K t → Ordered s t)
        → Traces s K (λ u t. (b ≡ true) × K t) (or_fail out id code b)
    unfolding or_fail failure pure ◌>>=◌ change_records try_persist reply_with
    or_fail-Traces true h = record { at = λ w k. (refl, k) }
    or_fail-Traces false h = record { at = λ w k. h w.trace k }

    pub require-Traces :
        (L : Bool → List Call → Type 0) {m : Handler Bool}
        → ((b : Bool) (t : List Call) → L b t → Ordered s t)
        → Traces s K L m
        → Traces s K (λ u. L true) (require out id code m)
    unfolding require or_fail failure pure ◌>>=◌ change_records try_persist reply_with
    require-Traces L {m} h k = Ends-bind k granted
      where
        granted : (b : Bool) → Traces s (L b) (λ u. L true) (or_fail out id code b)
        granted true = record { at = λ w l. l }
        granted false = record { at = λ w l. h false w.trace l }

    pub obtain-Traces {ℓ} :
        {A : Type ℓ} (L : Bool → List Call → Type 0) {m : Handler (Option A)}
        → ((b : Bool) (t : List Call) → L b t → Ordered s t)
        → Traces s K (λ o. L (is_some o)) m
        → Traces s K (λ a. L true) (obtain out id code m)
    unfolding obtain some_or_fail failure pure ◌>>=◌ change_records try_persist reply_with
    obtain-Traces {A = A} L {m} h k = Ends-bind k there
      where
        there : (o : Option A) → Traces s (L (is_some o)) (λ a. L true) (some_or_fail out id code o)
        there (some a) = record { at = λ w l. l }
        there none = record { at = λ w l. h false w.trace l }
