-- ===== src/Sessions/Ends.antt =====
-- Rules for handlers: what holds when one goes on, and what holds when it has replied.
use sigiled.Base.{
  ◌≡◌, refl, sym, subst, Bool, true, false, String, Option, none, some, List, if◌then◌else◌,
}
use sigiled.Sessions.Records.{Records, Debts, failed, Failure, mark}
use sigiled.Sessions.World.{
  World, Response, preserved, Step, go, reply, Handler, pure, reply_with, continue, ◌>>=◌, Call,
  Outside, ask, ask_for, change_records, change_debts, record_event, Event, note, try_persist,
  mint_token, failure, or_fail, require, some_or_fail, obtain, refuse_unless,
}

module _ {ℓ} {A : Type ℓ} where
  abbrev pub Sat : (Response → World → Type 0) → (A → World → Type 0) → Step A × World → Type 0
  Sat R Q (go a, w) = Q a w
  Sat R Q (reply r, w) = R r w

  -- From `P` the handler goes on with `Q`, or replies with `R`.
  pub record Ends (P : World → Type 0) (R : Response → World → Type 0) (Q : A → World → Type 0)
      (m : Handler A) : Type ℓ where
    pub at : (w : World) → P w → Sat R Q (m w)

module _ {ℓ κ} {A : Type ℓ} {B : Type κ} {R : Response → World → Type 0} where
  continue-Sat :
      (Q : A → World → Type 0) (S : B → World → Type 0) (f : A → Handler B)
      → ((a : A) → Ends (Q a) R S (f a))
      → (s : Step A) (w : World) → Sat R Q (s, w)
      → Sat R S (continue s f w)
  continue-Sat Q S f k (go a) w h = (k a).at w h
  continue-Sat Q S f k (reply r) w h = h

  pub Ends-bind :
      {P : World → Type 0} {Q : A → World → Type 0} {S : B → World → Type 0} {m : Handler A}
      {f : A → Handler B}
      → Ends P R Q m
      → ((a : A) → Ends (Q a) R S (f a))
      → Ends P R S (m >>= f)
  unfolding ◌>>=◌
  Ends-bind {Q = Q} {S = S} {m = m} {f = f} h k = record {
    at = λ w p. let (s, w') = m w in continue-Sat Q S f k s w' (h.at w p);
  }

module _ {ℓ} {A : Type ℓ} (R : Response → World → Type 0) (Q Q' : A → World → Type 0) where
  Sat-to :
      ((a : A) (w : World) → Q a w → Q' a w)
      → (s : Step A) (w : World) → Sat R Q (s, w)
      → Sat R Q' (s, w)
  Sat-to f (go a) w h = f a w h
  Sat-to f (reply r) w h = h

module _ {ℓ} {A : Type ℓ} {R : Response → World → Type 0} where
  pub Ends-from :
      {P P' : World → Type 0} {Q : A → World → Type 0} {m : Handler A}
      → ((w : World) → P' w → P w)
      → Ends P R Q m
      → Ends P' R Q m
  Ends-from f h = record { at = λ w p. h.at w (f w p) }

  pub Ends-to :
      {P : World → Type 0} {Q Q' : A → World → Type 0} {m : Handler A}
      → ((a : A) (w : World) → Q a w → Q' a w)
      → Ends P R Q m
      → Ends P R Q' m
  Ends-to {Q = Q} {Q' = Q'} {m = m} f h = record {
    at = λ w p. let (s, w') = m w in Sat-to R Q Q' f s w' (h.at w p);
  }

  -- A step on a value that is known.
  pub Ends-at :
      {X : Type 0} {P : World → Type 0} {Q : A → World → Type 0} (f : X → Handler A) (r x : X)
      → Ends P R Q (f r)
      → Ends (λ w. (x ≡ r) × P w) R Q (f x)
  Ends-at {Q = Q} f r x h = record {
    at = λ w p. subst (λ y. Sat R Q (f y w)) (sym p.0) (h.at w p.1);
  }

  pub Ends-pure : {Q : A → World → Type 0} (a : A) → Ends (Q a) R Q (pure a)
  unfolding pure
  Ends-pure a = record { at = λ w p. p }

  pub Ends-reply : {Q : A → World → Type 0} (r : Response) → Ends (R r) R Q (reply_with r)
  unfolding reply_with
  Ends-reply r = record { at = λ w p. p }

  pub Ends-if :
      {P : World → Type 0} {Q : A → World → Type 0} (b : Bool) (m n : Handler A)
      → (b ≡ true → Ends P R Q m)
      → (b ≡ false → Ends P R Q n)
      → Ends P R Q (if b then m else n)
  Ends-if true m n h k = h refl
  Ends-if false m n h k = k refl

  -- A fact that the precondition carries.
  pub Ends-given :
      {X : Type 0} {P : World → Type 0} {Q : A → World → Type 0} {m : Handler A}
      → (X → Ends P R Q m)
      → Ends (λ w. X × P w) R Q m
  Ends-given h = record { at = λ w p. (h p.0).at w p.1 }

  -- A guard whose truth the rest may use.
  pub Ends-guard :
      {P : World → Type 0} {Q : A → World → Type 0} (b : Bool) (r : Response)
      (f : Unit {0} → Handler A)
      → ((w : World) → P w → R r w)
      → (b ≡ true → Ends P R Q (f tt))
      → Ends P R Q (refuse_unless b r >>= f)
  unfolding refuse_unless ◌>>=◌ pure reply_with
  Ends-guard true r f h k = record { at = λ w p. (k refl).at w p }
  Ends-guard false r f h k = record { at = λ w p. h w p }

-- Steps that leave the records alone keep what is said of the records.
module _ (R : Response → World → Type 0) (K : Records → Type 0) where
  pub ask-records :
      (f : List Call → Bool) (c : Bool → Call)
      → Ends (λ w. K w.records) R (λ b w. K w.records) (ask f c)
  unfolding ask
  ask-records f c = record { at = λ w p. p }

  pub ask_for-records {ℓ} :
      {A : Type ℓ} (f : List Call → Option A) (c : Bool → Call)
      → Ends (λ w. K w.records) R (λ b w. K w.records) (ask_for f c)
  unfolding ask_for
  ask_for-records f c = record { at = λ w p. p }

  pub try_persist-records :
      (out : Outside) → Ends (λ w. K w.records) R (λ b w. K w.records) (try_persist out)
  unfolding try_persist
  try_persist-records out = record { at = λ w p. p }

  pub mint_token-records :
      (out : Outside) → Ends (λ w. K w.records) R (λ t w. K w.records) (mint_token out)
  unfolding mint_token
  mint_token-records out = record { at = λ w p. p }

  pub change_debts-records :
      (f : Debts → Debts) → Ends (λ w. K w.records) R (λ b w. K w.records) (change_debts f)
  unfolding change_debts
  change_debts-records f = record { at = λ w p. p }

  pub record_event-records :
      (project : String) (e : Event)
      → Ends (λ w. K w.records) R (λ b w. K w.records) (record_event project e)
  unfolding record_event
  record_event-records project e = record { at = λ w p. p }

  pub note-records : (c : Call) → Ends (λ w. K w.records) R (λ b w. K w.records) (note c)
  unfolding note
  note-records c = record { at = λ w p. p }

-- A change of the records, and the replies that rest on one.
module _ (R : Response → World → Type 0) (K : Records → Type 0) where
  pub change_records-records :
      (L : Records → Type 0) (f : Records → Records)
      → ((rs : Records) → K rs → L (f rs))
      → Ends (λ w. K w.records) R (λ b w. L w.records) (change_records f)
  unfolding change_records
  change_records-records L f h = record { at = λ w p. h w.records p }

  module _ (out : Outside) (id : String) (code : Failure)
      (fails : (w : World) (rs : Records)
        → K rs
        → w.records ≡ mark id failed (some code) rs
        → R (preserved code id) w) where
    pub failure-records {ℓ} :
        {A : Type ℓ} {Q : A → World → Type 0}
        → Ends (λ w. K w.records) R Q (failure out {A = A} id code)
    unfolding failure ◌>>=◌ change_records try_persist reply_with
    failure-records = record { at = λ w p. fails _ w.records p refl }

    pub or_fail-records :
        (b : Bool) → Ends (λ w. K w.records) R (λ u w. K w.records) (or_fail out id code b)
    unfolding or_fail pure
    or_fail-records true = record { at = λ w p. p }
    or_fail-records false = failure-records

    -- A guard that fails the session, and whose truth the rest may use.
    pub Ends-or_fail {ℓ} :
        {A : Type ℓ} {Q : A → World → Type 0} (b : Bool) (f : Unit {0} → Handler A)
        → (b ≡ true → Ends (λ w. K w.records) R Q (f tt))
        → Ends (λ w. K w.records) R Q (or_fail out id code b >>= f)
    unfolding or_fail failure pure ◌>>=◌ change_records try_persist reply_with
    Ends-or_fail true f k = record { at = λ w p. (k refl).at w p }
    Ends-or_fail false f k = record { at = λ w p. fails _ w.records p refl }

    pub require-records :
        {m : Handler Bool}
        → Ends (λ w. K w.records) R (λ b w. K w.records) m
        → Ends (λ w. K w.records) R (λ u w. K w.records) (require out id code m)
    unfolding require
    require-records h = Ends-bind h or_fail-records

    some_or_fail-records {ℓ} :
        {A : Type ℓ} (o : Option A)
        → Ends (λ w. K w.records) R (λ u w. K w.records) (some_or_fail out id code o)
    unfolding some_or_fail pure
    some_or_fail-records none = failure-records
    some_or_fail-records (some a) = record { at = λ w p. p }

    pub obtain-records {ℓ} :
        {A : Type ℓ} {m : Handler (Option A)}
        → Ends (λ w. K w.records) R (λ b w. K w.records) m
        → Ends (λ w. K w.records) R (λ u w. K w.records) (obtain out id code m)
    unfolding obtain
    obtain-records h = Ends-bind h some_or_fail-records

  pub refuse_unless-records :
      (b : Bool) (r : Response)
      → ((w : World) → K w.records → R r w)
      → Ends (λ w. K w.records) R (λ u w. K w.records) (refuse_unless b r)
  unfolding refuse_unless pure reply_with
  refuse_unless-records true r h = record { at = λ w p. p }
  refuse_unless-records false r h = record { at = λ w p. h w p }

  -- The same with the truth of the guard.
  pub refuse_unless-given :
      (b : Bool) (r : Response)
      → ((w : World) → K w.records → R r w)
      → Ends (λ w. K w.records) R (λ u w. (b ≡ true) × K w.records) (refuse_unless b r)
  unfolding refuse_unless pure reply_with
  refuse_unless-given true r h = record { at = λ w p. (refl, p) }
  refuse_unless-given false r h = record { at = λ w p. h w p }
