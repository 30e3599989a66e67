-- ===== src/Jobs/Verbs/Ticks.antt =====
-- The jobs that `scheduler_tick` of sigiledd/src/jobs.rs starts.
use mathlib.Core.List.{Memᴰ}
use sigiled.Base.{
  ℕ, ◌≡◌, ◌↔◌, ◌⊎◌, refl, subst, contains, String, true, false, List, [], ◌∷◌, inl, inr, arith,
  eq_iff, Bool-cases,
}
use sigiled.Jobs.Runs.{key, is_inflight, try_claim, push_run}
use sigiled.Jobs.Engine.{JobManifest, Engine, trigger}
use sigiled.Jobs.Schedule.{Cron, Fires, fires, bad_cron, fires_between}
use sigiled.Jobs.Verbs.{
  Manifest, jobs_are, broken, unavailable, fire_if, fire_all, tick_project, scheduler_tick,
}

trigger-is_inflight :
    (project : String) (jm : JobManifest) (stamp : String) (now : ℕ) (s : Engine) (p j : String)
    → (is_inflight (trigger project jm stamp now s).0.jobs p j ≡ true)
      ↔ ((is_inflight s.jobs p j ≡ true) ⊎ (key project jm.name ≡ key p j))
unfolding trigger try_claim push_run is_inflight
trigger-is_inflight project jm stamp now s p j =
    elim (Bool-cases (contains s.jobs.inflight (key project jm.name))) [
      | inl y ↦ rw y (
        λ h. inl h,
        λ h. elim h [ inl e ↦ e | inr e ↦ subst (λ k. contains s.jobs.inflight k ≡ true) e y ],
      )
      | inr n ↦ rw n (
        λ h. ground (arith, eq_iff (key project jm.name) (key p j)),
        λ h. ground (arith, eq_iff (key project jm.name) (key p j)),
      )
    ]

-- Two steps of which each adds something.
chain : {A B C X Y Z : Type 0} → A ↔ (B ⊎ X) → B ↔ (C ⊎ Y) → (Y ⊎ X) ↔ Z → A ↔ (C ⊎ Z)
chain f g h = (
  λ a. elim (f.0 a) [
    | inl b ↦ elim (g.0 b) [ inl c ↦ inl c | inr y ↦ inr (h.0 (inl y)) ]
    | inr x ↦ inr (h.0 (inr x))
  ],
  λ e. elim e [
    | inl c ↦ f.1 (inl (g.1 (inl c)))
    | inr z ↦ elim (h.1 z) [ inl y ↦ f.1 (inl (g.1 (inr y))) | inr x ↦ f.1 (inr x) ]
  ],
)

fire_if-is_inflight :
    (f : Fires) (project : String) (jm : JobManifest) (stamp : String) (now : ℕ) (s : Engine)
    (p j : String)
    → (is_inflight (fire_if f project jm stamp now s).jobs p j ≡ true)
      ↔ ((is_inflight s.jobs p j ≡ true) ⊎ ((f ≡ fires true) × (key project jm.name ≡ key p j)))
unfolding fire_if
fire_if-is_inflight (fires true) project jm stamp now s p j =
    let (f, g) = trigger-is_inflight project jm stamp now s p j in
    (
      λ h. elim (f h) [ inl e ↦ inl e | inr e ↦ inr (refl, e) ],
      λ h. elim h [ inl e ↦ g (inl e) | inr e ↦ g (inr e.1) ],
    )
fire_if-is_inflight (fires false) project jm stamp now s p j =
    ((λ h. inl h), λ h. elim h [ inl e ↦ e | inr e ↦ let q = e.0 in cc ])
fire_if-is_inflight bad_cron project jm stamp now s p j =
    ((λ h. inl h), λ h. elim h [ inl e ↦ e | inr e ↦ let q = e.0 in cc ])

-- A job of the list falls due in the window (last, now] and has the latch of job `j` of project `p`.
abbrev DueIn : Cron → ℕ → ℕ → String → List JobManifest → String → String → Type 0
DueIn c last now project jobs p j =
    (jm : JobManifest) × Memᴰ jm jobs
    × (fires_between c jm.cron last now ≡ fires true)
    × (key project jm.name ≡ key p j)

fire_all-is_inflight :
    (c : Cron) (last now : ℕ) (project stamp : String) (jobs : List JobManifest) (s : Engine)
    (p j : String)
    → (is_inflight (fire_all c last now project stamp s jobs).jobs p j ≡ true)
      ↔ ((is_inflight s.jobs p j ≡ true) ⊎ DueIn c last now project jobs p j)
unfolding fire_all
fire_all-is_inflight c last now project stamp [] s p j =
    ((λ h. inl h), λ h. elim h [ inl e ↦ e | inr (jm, m, fired, same) ↦ elim m [ ] ])
fire_all-is_inflight c last now project stamp (x ∷ more) s p j =
    chain
      (fire_all-is_inflight c last now project stamp more
        (fire_if (fires_between c x.cron last now) project x stamp now s) p j)
      (fire_if-is_inflight (fires_between c x.cron last now) project x stamp now s p j) (due, split)
  where
    due :
        ((fires_between c x.cron last now ≡ fires true) × (key project x.name ≡ key p j))
          ⊎ DueIn c last now project more p j
        → DueIn c last now project (x ∷ more) p j
    due (inl (fired, same)) = (x, Memᴰ.head refl, fired, same)
    due (inr (jm, m, fired, same)) = (jm, Memᴰ.tail m, fired, same)

    split :
        DueIn c last now project (x ∷ more) p j
        → ((fires_between c x.cron last now ≡ fires true) × (key project x.name ≡ key p j))
          ⊎ DueIn c last now project more p j
    split (jm, Memᴰ.head q, fired, same) = inl (
      subst (λ (y : JobManifest). fires_between c y.cron last now ≡ fires true) q fired,
      subst (λ (y : JobManifest). key project y.name ≡ key p j) q same,
    )
    split (jm, Memᴰ.tail m, fired, same) = inr (jm, m, fired, same)

-- The same for the project's manifest, as its refresh answers it.
abbrev DueBy : Cron → ℕ → ℕ → String → Manifest → String → String → Type 0
DueBy c last now project m p j =
    (jobs : List JobManifest) × (m ≡ jobs_are jobs) × DueIn c last now project jobs p j

tick_project-is_inflight :
    (c : Cron) (last now : ℕ) (project stamp : String) (m : Manifest) (s : Engine) (p j : String)
    → (is_inflight (tick_project c last now project stamp s m).jobs p j ≡ true)
      ↔ ((is_inflight s.jobs p j ≡ true) ⊎ DueBy c last now project m p j)
unfolding tick_project
tick_project-is_inflight c last now project stamp (jobs_are jobs) s p j =
    chain (fire_all-is_inflight c last now project stamp jobs s p j) ((λ h. inl h), settled)
      (due, back)
  where
    settled : (is_inflight s.jobs p j ≡ true) ⊎ ⊥ → is_inflight s.jobs p j ≡ true
    settled (inl e) = e
    settled (inr e) = absurd e

    due : ⊥ ⊎ DueIn c last now project jobs p j → DueBy c last now project (jobs_are jobs) p j
    due (inl e) = absurd e
    due (inr d) = (jobs, refl, d)

    back : DueBy c last now project (jobs_are jobs) p j → ⊥ ⊎ DueIn c last now project jobs p j
    back (others, same, d) =
        let e : others ≡ jobs = cc in inr (subst (λ x. DueIn c last now project x p j) e d)
tick_project-is_inflight c last now project stamp (broken detail) s p j =
    ((λ h. inl h), λ h. elim h [ inl e ↦ e | inr (jobs, e, d) ↦ cc ])
tick_project-is_inflight c last now project stamp unavailable s p j =
    ((λ h. inl h), λ h. elim h [ inl e ↦ e | inr (jobs, e, d) ↦ cc ])

-- Some project's manifest declares such a job.
abbrev pub Due : Cron → ℕ → ℕ → List (String × Manifest) → String → String → Type 0
Due c last now projects p j =
    (x : String × Manifest) × Memᴰ x projects × DueBy c last now x.0 x.1 p j

-- After a tick of the scheduler with the window (last, now], over whatever projects and manifests,
-- a job is in flight exactly if it was in flight before, or if some project's manifest could be
-- read and declares a job with the same latch whose schedule fires in that window. So a tick
-- takes the latch of each job that is due, takes no other latch, and releases none.
pub scheduler_tick-is_inflight :
    (c : Cron) (last now : ℕ) (stamp : String) (projects : List (String × Manifest)) (s : Engine)
    (p j : String)
    → (is_inflight (scheduler_tick c last now stamp projects s).jobs p j ≡ true)
      ↔ ((is_inflight s.jobs p j ≡ true) ⊎ Due c last now projects p j)
unfolding scheduler_tick
scheduler_tick-is_inflight c last now stamp [] s p j =
    ((λ h. inl h), λ h. elim h [ inl e ↦ e | inr (x, m, rest) ↦ elim m [ ] ])
scheduler_tick-is_inflight c last now stamp ((project, manifest) ∷ more) s p j =
    chain
      (scheduler_tick-is_inflight c last now stamp more
        (tick_project c last now project stamp s manifest) p j)
      (tick_project-is_inflight c last now project stamp manifest s p j) (due, split)
  where
    due :
        DueBy c last now project manifest p j ⊎ Due c last now more p j
        → Due c last now ((project, manifest) ∷ more) p j
    due (inl d) = ((project, manifest), Memᴰ.head refl, d)
    due (inr (x, m, d)) = (x, Memᴰ.tail m, d)

    split :
        Due c last now ((project, manifest) ∷ more) p j
        → DueBy c last now project manifest p j ⊎ Due c last now more p j
    split (x, Memᴰ.head q, d) =
        inl (subst (λ (y : String × Manifest). DueBy c last now y.0 y.1 p j) q d)
    split (x, Memᴰ.tail m, d) = inr (x, m, d)
