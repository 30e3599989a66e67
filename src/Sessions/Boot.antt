-- ===== src/Sessions/Boot.antt =====
-- What a restart makes of the records: sigiledd/src/sessions.rs, `hydrate`.
use sigiled.Base.{
  ℕ, ◌≡◌, refl, String, true, false, ◌&&◌, Option, none, some, [], ◌∷◌, arith, ltb, eq_iff, get,
  map_option, Bool-cases, inl, inr, ◌⊎◌, Option-cases,
}
use sigiled.Sessions.Records.{
  SessionRecord, Records, failed, is_transient, is_legacy, legacy_count, recover_record,
  recover_all, hydrate_records,
}

abbrev recovered : Records → SessionRecord → SessionRecord
recovered rs r = recover_record (legacy_count rs r.project) r

pub recover_all-get :
    (snapshot rs : Records) (id : String)
    → get id (recover_all snapshot rs) ≡ map_option (recovered snapshot) (get id rs)
unfolding recover_all get
recover_all-get snapshot [] id = refl
recover_all-get snapshot ((j, r) ∷ rs) id =
    ground (arith, recover_all-get snapshot rs id, eq_iff id j)

-- What a restart may make of a record.
abbrev pub Recovered : Records → SessionRecord → SessionRecord → Type 0
Recovered rs r x =
    (is_transient x.lifecycle ≡ false)
    × (is_transient r.lifecycle ≡ true → x.lifecycle ≡ failed)
    × ((x ≡ r) ⊎ (x ≡ record r { lifecycle = failed; error = x.error }))

recover_record-Recovered :
    (rs : Records) (n : ℕ) (r : SessionRecord) → Recovered rs r (recover_record n r)
unfolding recover_record
recover_record-Recovered rs n r = elim (Bool-cases (is_legacy r && ltb 1 n)) [
  | inl e ↦ rw e (refl, λ _. refl, inr refl)
  | inr e ↦ rw e (elim (Bool-cases (is_transient r.lifecycle)) [
    | inl t ↦ rw t (refl, λ _. refl, inr refl)
    | inr t ↦ rw t (ground arith)
  ])
]

map_option-some :
    {A : Type 0} (f : A → A) (o : Option A) (x : A)
    → map_option f o ≡ some x
    → (r : A) × (o ≡ some r) × (f r ≡ x)
map_option-some f none x e = absurd (ground arith)
map_option-some f (some r) x e = (r, refl, ground arith)

-- A restart keeps the set of sessions. Each record afterwards is one from before, with at most its
-- lifecycle and its error changed; none is creating, recycling or closing, and one that was is
-- marked as failed.
pub hydrate_records-Recovered :
    (rs : Records) (id : String)
    → ((get id (hydrate_records rs) ≡ none) × (get id rs ≡ none))
      ⊎ ((r x : SessionRecord) × (get id rs ≡ some r)
          × (get id (hydrate_records rs) ≡ some x)
          × Recovered rs r x)
unfolding hydrate_records
hydrate_records-Recovered rs id = elim (Option-cases (get id rs)) [
  | inl e ↦ inl (ground (arith, e, recover_all-get rs rs id), e)
  | inr (r, e) ↦ inr (
    r,
    recovered rs r,
    e,
    ground (arith, e, recover_all-get rs rs id),
    recover_record-Recovered rs _ r,
  )
]
