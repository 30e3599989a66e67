-- ===== src/Jobs/Schedule/Windows.antt =====
-- The windows of `fires_between` and of the scheduler in sigiledd/src/jobs.rs.
use sigiled.Base.{
  ℕ, zero, suc, ◌≤◌, ◌<◌, ◌≡◌, ◌↔◌, refl, get_elem?, String, true, Option, some, List, [], ◌∷◌, inl,
  inr, arith, leb, Option-cases, str_append, Bool-cases,
}
use sigiled.Jobs.Schedule.{Cron, fires, fires_between, ticks}

-- What is documented of a schedule's iterator: it yields a fire instant after the given one, and
-- the earliest.
pub record IsSchedule (next : ℕ → Option ℕ) (At : ℕ → Type 0) : Type 0 where
  pub later : (from t : ℕ) → next from ≡ some t → (from < t) × At t
  pub earliest : (from t : ℕ) → from < t → At t → (u : ℕ) × (next from ≡ some u) × (u ≤ t)

module _ (c : Cron) (expression : String) (next : ℕ → Option ℕ) (At : ℕ → Type 0)
    (parsed : c.next_after (str_append "0 " expression) ≡ some next)
    (schedule : IsSchedule next At) where
  -- Where the schedule yields the fire instants as documented, the test of a window is true
  -- exactly if a fire instant lies in (from, to].
  pub fires_between_iff :
      (from to : ℕ)
      → (fires_between c expression from to ≡ fires true) ↔ ((t : ℕ) × (from < t) × (t ≤ to) × At t)
  unfolding fires_between
  fires_between_iff from to = (
    λ h. elim (Option-cases (next from)) [
      | inl e ↦ absurd (ground arith)
      | inr (t, e) ↦ (t, (schedule.later from t e).0, ground arith, (schedule.later from t e).1)
    ],
    λ h. let (t, a, b, at) = h in let (u, e, le) = schedule.earliest from t a at in ground arith,
  )

  -- The last of the instants, or where the window opens.
  abbrev end : ℕ → List ℕ → ℕ
  end last [] = last
  end last (now ∷ nows) = end now nows

  -- The windows of the loop's ticks: each opens where the one before it ends.
  abbrev windows : ℕ → List ℕ → List (ℕ × ℕ)
  windows last [] = []
  windows last (now ∷ nows) = (last, now) ∷ windows now nows

  -- The `n`-th tick's window is (from, to], the instant lies in it, and the tick triggers.
  abbrev pub Shown : ℕ → List ℕ → ℕ → ℕ → Type 0
  Shown last nows n t =
      (from to : ℕ) × (get_elem? (windows last nows) n ≡ some (from, to))
      × (from < t)
      × (t ≤ to)
      × (get_elem? (ticks c expression last nows) n ≡ some (fires true))

  ticks-Shown :
      (last : ℕ) (nows : List ℕ) (t : ℕ)
      → last < t
      → t ≤ end last nows
      → At t
      → (n : ℕ) × Shown last nows n t
  unfolding ticks
  ticks-Shown last [] t a b at = absurd (omega arith)
  ticks-Shown last (now ∷ nows) t a b at = elim (Bool-cases (leb t now)) [
    | inl y ↦ (
      0,
      (
        last,
        now,
        refl,
        a,
        ground arith,
        rw ((fires_between_iff last now).1 (t, a, ground arith, at)) refl,
      ),
    )
    | inr n ↦ let (i, shown) = ticks-Shown now nows t (ground arith) b at in (suc i, shown)
  ]

  true-Shown :
      (last : ℕ) (nows : List ℕ) (n : ℕ)
      → get_elem? (ticks c expression last nows) n ≡ some (fires true)
      → (t : ℕ) × At t × Shown last nows n t
  unfolding ticks
  true-Shown last [] n e = absurd (ground (arith, e))
  true-Shown last (now ∷ nows) zero e =
      let (t, a, b, at) = (fires_between_iff last now).0 (ground (arith, e)) in
      (t, at, (last, now, refl, a, b, e))
  true-Shown last (now ∷ nows) (suc n) e = true-Shown now nows n e

  -- Where the schedule yields the fire instants as documented, whatever the instants at which the
  -- loop wakes: each fire instant after the loop's start and not after its last tick lies in the
  -- window of some tick that triggers the job; and each tick that triggers the job has a fire
  -- instant in its own window.
  pub ticks_see :
      (last : ℕ) (nows : List ℕ)
      → ((t : ℕ) → last < t → t ≤ end last nows → At t → (n : ℕ) × Shown last nows n t)
        × ((n : ℕ)
            → get_elem? (ticks c expression last nows) n ≡ some (fires true)
            → (t : ℕ) × At t × Shown last nows n t)
  ticks_see last nows = (ticks-Shown last nows, true-Shown last nows)
