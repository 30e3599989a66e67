-- ===== src/Sessions/Recycle/Heirs.antt =====
-- The ways in which `recycle` of sigiledd/src/sessions.rs may end.
use sigiled.Base.{
  ℕ, ◌+◌, ◌≡◌, String, Bool, true, not, none, some, arith, if◌then◌else◌, str_eq, eq_iff, get,
  get-insert, get-adjust, ◌⊎◌, ltb,
}
use sigiled.Auth.Policy.{Actor, recycle as recycle_action}
use sigiled.Auth.Approvals.{ApprovalStore}
use sigiled.Sessions.Records.{
  SessionRecord, Records, active, failed, Failure, handoff_pending, container, session_container,
  mark, put, authorized, u64_max,
}
use sigiled.Sessions.World.{
  World, Response, preserved, not_found, forbidden, conflict, closed, recycled, reaped, skipped,
  bad_request, unavailable, opened,
}

-- `x` is the session of `r`: its project, its branch and its owner are the same.
abbrev pub Same : SessionRecord → SessionRecord → Type 0
Same r x =
    (x.session_id ≡ r.session_id)
    × (x.project ≡ r.project)
    × (x.branch ≡ r.branch)
    × (x.actor ≡ r.actor)

abbrev pub Heir : SessionRecord → SessionRecord → Type 0
Heir r x = Same r x × ((x.generation ≡ r.generation) ⊎ (x.generation ≡ r.generation + 1))

-- The records before a handler, with `x` for the session.
abbrev pub With : Records → String → SessionRecord → Records → Type 0
With before id x rs = (j : String) → get j rs ≡ (if str_eq id j then some x else get j before)

abbrev pub Held : Records → String → SessionRecord → Records → Type 0
Held before id r rs = (x : SessionRecord) × Heir r x × With before id x rs

-- A record of the session in the next generation, in a container of its own.
abbrev pub Renewed : Bool → String → SessionRecord → SessionRecord → Type 0
Renewed runtime id r x =
    Same r x
    × (x.generation ≡ r.generation + 1)
    × (runtime ≡ true
        → (x.runtime_owned ≡ true) × (container x ≡ session_container id (r.generation + 1)))

abbrev pub MayRecycle : Actor → ApprovalStore → ℕ → SessionRecord → Type 0
MayRecycle actor approvals now r =
    (authorized actor r recycle_action approvals now ≡ true)
    × (not (handoff_pending r) ≡ true)
    × (ltb r.generation u64_max ≡ true)

-- How a recycle may end.
abbrev pub Recycled : Type 0 → Bool → Records → String → SessionRecord → Response → World → Type 0
Recycled may runtime before id r not_found w = ⊥
Recycled may runtime before id r forbidden w = w.records ≡ before
Recycled may runtime before id r conflict w = w.records ≡ before
Recycled may runtime before id r (preserved code i) w =
    (i ≡ id)
    × (x : SessionRecord) × Heir r x
    × (x.lifecycle ≡ failed)
    × (x.error ≡ some code)
    × With before id x w.records
Recycled may runtime before id r (closed outcome touched) w = ⊥
Recycled may runtime before id r (recycled x) w =
    may
    × Renewed runtime id r x
    × (x.lifecycle ≡ active)
    × (x.error ≡ none)
    × With before id x w.records
Recycled may runtime before id r reaped w = ⊥
Recycled may runtime before id r skipped w = ⊥
Recycled may runtime before id r bad_request w = ⊥
Recycled may runtime before id r unavailable w = ⊥
Recycled may runtime before id r (opened x) w = ⊥

pub put-With :
    (before : Records) (id : String) (x y : SessionRecord) (rs : Records)
    → y.session_id ≡ id
    → With before id x rs
    → With before id y (put y rs)
unfolding put
put-With before id x y rs e h j = rw e (ground (arith, h j, get-insert id j y rs, eq_iff id j))

pub mark-With :
    (before : Records) (id : String) (x : SessionRecord) (code : Failure) (rs rs' : Records)
    → With before id x rs
    → rs' ≡ mark id failed (some code) rs
    → With before id (record x { lifecycle = failed; error = some code }) rs'
unfolding mark
mark-With before id x code rs rs' h m j = rw m (
    ground (
      arith,
      h j,
      get-adjust id j (λ (y : SessionRecord). record y { lifecycle = failed; error = some code })
          rs,
      eq_iff id j,
    ))
