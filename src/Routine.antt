-- ===== src/Routine.antt =====
-- Routines on a shared state that may end with an error, for sigiledd/src/merge.rs,
-- sigiledd/src/browser/mod.rs and ide-agent/src/durable.rs, with rules for what holds of the
-- result and the state that a routine leaves.
use sigiled.Base.{◌≡◌, refl, ap, Bool, true, false, Option, none, some, if◌then◌else◌}

pub data Result {ℓ} (E : Type 0) (A : Type ℓ) : Type ℓ where
  ok : A → Result E A
  err : E → Result E A

abbrev pub or_err {ℓ} : {E : Type 0} {A : Type ℓ} → E → Option A → Result E A
or_err e none = err e
or_err e (some a) = ok a

-- A routine that may end with an error.
abbrev pub Run {ℓ} : Type 0 → Type 0 → Type ℓ → Type ℓ
Run S E A = S → Result E A × S

module _ {S E : Type 0} where
  unfoldable pub pure {ℓ} : {A : Type ℓ} → A → Run S E A
  pure a s = (ok a, s)

  abbrev on_result {ℓ κ} :
      {A : Type ℓ} {B : Type κ} → (A → Run S E B) → Result E A × S → Result E B × S
  on_result f (ok a, s) = f a s
  on_result f (err e, s) = (err e, s)

  unfoldable pub fail {ℓ} : {A : Type ℓ} → E → Run S E A
  fail e s = (err e, s)

  unfoldable pub fail_unless : Bool → E → Run S E (Unit {0})
  fail_unless true e = pure tt
  fail_unless false e = fail e

  infixl 4 ◌>>=◌
  unfoldable pub ◌>>=◌ {ℓ κ} : {A : Type ℓ} {B : Type κ} → Run S E A → (A → Run S E B) → Run S E B
  (m >>= f) s = on_result f (m s)

  infixl 4 ◌>>◌
  abbrev pub ◌>>◌ {ℓ κ} : {A : Type ℓ} {B : Type κ} → Run S E A → Run S E B → Run S E B
  m >> k = m >>= λ a. k

  -- What holds of the result and the state of a run, or of the state that an error leaves.
  abbrev pub Gives {ℓ} : {A : Type ℓ} → (A → S → Type 0) → (S → Type 0) → Result E A × S → Type 0
  Gives Q R (ok a, s) = Q a s
  Gives Q R (err e, s) = R s

  pub record Leads {ℓ} {A : Type ℓ} (P : S → Type 0) (R : S → Type 0) (Q : A → S → Type 0)
      (m : Run S E A) : Type 0 where
    pub at : (s : S) → P s → Gives Q R (m s)

  pub Leads-bind {ℓ κ} :
      {A : Type ℓ} {B : Type κ} {P R : S → Type 0} {Q : A → S → Type 0} {T : B → S → Type 0}
      {m : Run S E A} {f : A → Run S E B}
      → Leads P R Q m
      → ((a : A) → Leads (Q a) R T (f a))
      → Leads P R T (m >>= f)
  unfolding ◌>>=◌
  Leads-bind {A = A} {R = R} {Q = Q} {T = T} {m = m} {f = f} l k = record {
    at = λ s p. after (m s) (l.at s p);
  }
    where
      after : (r : Result E A × S) → Gives Q R r → Gives T R (on_result f r)
      after (ok a, s) q = (k a).at s q
      after (err c, s) e = e

  pub Leads-pure {ℓ} :
      {A : Type ℓ} {R : S → Type 0} (Q : A → S → Type 0) (a : A) → Leads (Q a) R Q (pure a)
  unfolding pure
  Leads-pure Q a = record { at = λ s q. q }

  pub Leads-from {ℓ} :
      {A : Type ℓ} {P T R : S → Type 0} {Q : A → S → Type 0} {m : Run S E A}
      → ((s : S) → P s → T s)
      → Leads T R Q m
      → Leads P R Q m
  Leads-from h l = record { at = λ s p. l.at s (h s p) }

  pub Leads-to {ℓ} :
      {A : Type ℓ} {P R : S → Type 0} {Q T : A → S → Type 0} {m : Run S E A}
      → ((a : A) (s : S) → Q a s → T a s)
      → Leads P R Q m
      → Leads P R T m
  Leads-to {A = A} {R = R} {Q = Q} {T = T} {m = m} h l = record {
    at = λ s p. wider (m s) (l.at s p);
  }
    where
      wider : (r : Result E A × S) → Gives Q R r → Gives T R r
      wider (ok a, s) q = h a s q
      wider (err c, s) e = e

  pub Leads-given {ℓ} :
      {A : Type ℓ} {F : Type 0} {P R : S → Type 0} {Q : A → S → Type 0} {m : Run S E A}
      → (F → Leads P R Q m)
      → Leads (λ s. F × P s) R Q m
  Leads-given l = record { at = λ s (f, p). (l f).at s p }

  pub Leads-if {ℓ} :
      {A : Type ℓ} {P R : S → Type 0} {Q : A → S → Type 0} (b : Bool) {m k : Run S E A}
      → (b ≡ true → Leads P R Q m)
      → (b ≡ false → Leads P R Q k)
      → Leads P R Q (if b then m else k)
  Leads-if true f g = f refl
  Leads-if false f g = g refl

  pub fail_unless-Leads :
      {P R : S → Type 0} (b : Bool) (e : E)
      → ((s : S) → P s → R s)
      → Leads P R (λ u s. (b ≡ true) × P s) (fail_unless b e)
  unfolding fail_unless pure fail
  fail_unless-Leads true e f = record { at = λ s p. (refl, p) }
  fail_unless-Leads false e f = record { at = f }

  unfoldable pub lift {ℓ} : {A : Type ℓ} → Result E A → Run S E A
  lift r s = (r, s)

  unfoldable pub gets {ℓ} : {A : Type ℓ} → (S → A) → Run S E A
  gets f s = (ok (f s), s)

  unfoldable pub change : (S → S) → Run S E (Unit {0})
  change f s = (ok tt, f s)

  pub lift-Leads :
      {A : Type 0} {P R : S → Type 0} (r : Result E A)
      → ((s : S) → P s → R s)
      → Leads P R (λ a s. (r ≡ ok a) × P s) (lift r)
  unfolding lift
  lift-Leads (ok a) f = record { at = λ s p. (refl, p) }
  lift-Leads (err e) f = record { at = f }

  pub gets-Leads :
      {A : Type 0} {P R : S → Type 0} (f : S → A) → Leads P R (λ a s. (a ≡ f s) × P s) (gets f)
  unfolding gets
  gets-Leads f = record { at = λ s p. (refl, p) }

  pub change-Leads :
      {P R Q : S → Type 0} (f : S → S) → ((s : S) → P s → Q (f s)) → Leads P R (λ u. Q) (change f)
  unfolding change
  change-Leads f h = record { at = h }

abbrev value_of {ℓ} : {E : Type 0} {A : Type ℓ} → Result E A → Option A
value_of (ok a) = some a
value_of (err e) = none

pub or_err-ok : {E A : Type 0} (e : E) (o : Option A) (a : A) → or_err e o ≡ ok a → o ≡ some a
or_err-ok e none a h = ap value_of h
or_err-ok e (some b) a h = ap value_of h
