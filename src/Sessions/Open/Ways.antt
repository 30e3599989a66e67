-- ===== src/Sessions/Open/Ways.antt =====
-- The ways in which `open_inner` of sigiledd/src/sessions.rs may end.
use mathlib.Core.List.{Memᴰ}
use sigiled.Base.{
  ◌≡◌, ◌≢◌, String, Bool, true, Option, none, some, [], ◌∷◌, arith, str_eq, eq_iff, get, remove,
  get-insert, get-remove, values, Bool-cases, inl, inr,
}
use sigiled.Auth.Policy.{Actor}
use sigiled.Sessions.Records.{
  SessionRecord, Records, Debts, active, failed, container, session_container, put,
}
use sigiled.Sessions.World.{
  World, Response, preserved, not_found, forbidden, conflict, closed, recycled, reaped, skipped,
  bad_request, unavailable, opened,
}
use sigiled.Sessions.Orphans.{find_orphan}
use sigiled.Sessions.Orphans.Least.{find_orphan-Held}
use sigiled.Sessions.Recycle.Heirs.{With}

-- A record of the new session: the caller's, for the project, in the first generation.
abbrev pub Mine : Actor → String → String → SessionRecord → Type 0
Mine actor project id x =
    (x.session_id ≡ id) × (x.project ≡ project) × (x.actor ≡ actor) × (x.generation ≡ 1)

-- No session from before holds a resumed branch, and only a call that may resume one does.
abbrev pub Exclusive : Records → Bool → SessionRecord → Type 0
Exclusive before allow_orphan x =
    x.stale ≡ true
    → (allow_orphan ≡ true)
      × ((j : String) (r : SessionRecord)
          → get j before ≡ some r
          → r.project ≡ x.project
          → r.branch ≢ x.branch)

-- With a runtime the session owns the container of the first generation.
abbrev pub Owned : Bool → String → SessionRecord → Type 0
Owned runtime id x =
    runtime ≡ true → (x.runtime_owned ≡ true) × (container x ≡ session_container id 1)

-- How an opening may end.
abbrev pub Opens : Type 0 → Bool → Records → Actor → String → Bool → Response → World → Type 0
Opens may runtime before actor project allow_orphan not_found w =
    (j : String) → get j w.records ≡ get j before
Opens may runtime before actor project allow_orphan forbidden w = w.records ≡ before
Opens may runtime before actor project allow_orphan conflict w = w.records ≡ before
Opens may runtime before actor project allow_orphan bad_request w = w.records ≡ before
Opens may runtime before actor project allow_orphan unavailable w =
    (j : String) → get j w.records ≡ get j before
Opens may runtime before actor project allow_orphan (preserved code id) w =
    (get id before ≡ none)
    × (x : SessionRecord) × Mine actor project id x
    × (x.lifecycle ≡ failed)
    × (x.error ≡ some code)
    × With before id x w.records
Opens may runtime before actor project allow_orphan (opened x) w =
    may
    × (get x.session_id before ≡ none)
    × Mine actor project x.session_id x
    × (x.lifecycle ≡ active)
    × Exclusive before allow_orphan x
    × Owned runtime x.session_id x
    × With before x.session_id x w.records
Opens may runtime before actor project allow_orphan (closed outcome touched) w = ⊥
Opens may runtime before actor project allow_orphan (recycled x) w = ⊥
Opens may runtime before actor project allow_orphan reaped w = ⊥
Opens may runtime before actor project allow_orphan skipped w = ⊥

pub put_new-With :
    (before : Records) (id : String) (y : SessionRecord)
    → y.session_id ≡ id
    → With before id y (put y before)
unfolding put
put_new-With before id y e j = rw e (ground (arith, get-insert id j y before, eq_iff id j))

pub remove-With :
    (before : Records) (id : String) (x : SessionRecord) (rs : Records)
    → get id before ≡ none
    → With before id x rs
    → (j : String) → get j (remove id rs) ≡ get j before
remove-With before id x rs free h j = elim (Bool-cases (str_eq id j)) [
  | inl y ↦ let same = (eq_iff id j).0 y in ground (arith, get-remove id j rs)
  | inr n ↦ ground (arith, get-remove id j rs, h j)
]

get-values :
    (rs : Records) (j : String) (r : SessionRecord) → get j rs ≡ some r → Memᴰ r (values rs)
unfolding get
get-values [] j r e = absurd (ground arith)
get-values ((k, v) ∷ rs) j r e = elim (Bool-cases (str_eq k j)) [
  | inl y ↦ Memᴰ.head (ground (arith, y, e))
  | inr n ↦ Memᴰ.tail (get-values rs j r (ground (arith, n, e)))
]

-- A branch that is found to resume is held by no record.
pub find_orphan-free :
    (refs : Option String) (project : String) (debts : Debts) (rs : Records) (branch : String)
    → find_orphan refs project debts rs ≡ some branch
    → (j : String) (r : SessionRecord) → get j rs ≡ some r
    → r.project ≡ project
    → r.branch ≢ branch
find_orphan-free refs project debts rs branch e j r there same clash =
    elim (find_orphan-Held refs project debts rs) [
      | inl (text, b, given, picked, listed, unheld, least) ↦
          let held : r.branch ≡ b = ground (arith, clash, e, picked) in
          unheld (inr (r, get-values rs j r there, same, held))
      | inr (nothing, rest) ↦ absurd (ground (arith, e, nothing))
    ]
