-- ===== src/Sessions/Orphans/Least.antt =====
-- The branch that `find_orphan` of sigiledd/src/sessions.rs picks.
use mathlib.Core.List.{Memᴰ}
use sigiled.Base.{
  ◌≡◌, refl, String, Bool, true, false, not, ◌&&◌, Option, none, some, List, [], ◌∷◌, arith, inl,
  inr, ◌⊎◌, any, str_eq, eq_iff, values, find as find_first, Bool-cases, Option-cases,
}
use sigiled.Sessions.Records.{SessionRecord, MergeDebt, Records, Debts, debts_for}
use sigiled.Sessions.Orphans.{text_leb, session_names, find_orphan}
use sigiled.Sessions.Orphans.Listed.{Exists, session_names-Exists, session_names-IsSorted}
use sigiled.Sessions.Orphans.Order.{IsSorted, text_leb_self}

-- A merge debt of the project or a recorded session of it has the branch.
abbrev pub Held : String → Debts → Records → String → Type 0
Held project debts records b =
    ((d : MergeDebt) × Memᴰ d (debts_for debts project) × (d.branch ≡ b))
    ⊎ ((r : SessionRecord) × Memᴰ r (values records) × (r.project ≡ project) × (r.branch ≡ b))

any-some :
    {A : Type 0} (xs : List A) (p : A → Bool) → any xs p ≡ true → (x : A) × Memᴰ x xs × (p x ≡ true)
any-some [] p e = cc
any-some (x ∷ xs) p e = elim (Bool-cases (p x)) [
  | inl y ↦ (x, Memᴰ.head refl, y)
  | inr n ↦ let (z, m, h) = any-some xs p (ground (arith, n, e)) in (z, Memᴰ.tail m, h)
]

any-none :
    {A : Type 0} (xs : List A) (p : A → Bool) (x : A) → any xs p ≡ false → Memᴰ x xs → p x ≡ false
any-none [] p x e m = elim m [ ]
any-none (y ∷ xs) p x e (Memᴰ.head q) = rw q (ground (arith, e))
any-none (y ∷ xs) p x e (Memᴰ.tail m) = any-none xs p x (ground (arith, e)) m

-- The test of the code.
abbrev pub is_free : String → Debts → Records → String → Bool
is_free project debts records b =
    not (any (debts_for debts project) (λ d. str_eq d.branch b))
    && not (any (values records) (λ r. str_eq r.project project && str_eq r.branch b))

is_free-Held :
    (project : String) (debts : Debts) (records : Records) (b : String)
    → is_free project debts records b ≡ false
    → Held project debts records b
is_free-Held project debts records b e =
    elim (Bool-cases (any (debts_for debts project) (λ d. str_eq d.branch b))) [
      | inl y ↦
          let (d, m, same) = any-some (debts_for debts project) (λ d. str_eq d.branch b) y in
          inl (d, m, (eq_iff d.branch b).0 same)
      | inr n ↦
          let (r, m, same) =
            any-some (values records) (λ r. str_eq r.project project && str_eq r.branch b)
              (ground (arith, n, e)) in
          inr (
            r,
            m,
            ground (arith, same, eq_iff r.project project),
            ground (arith, same, eq_iff r.branch b),
          )
    ]

is_free-not_Held :
    (project : String) (debts : Debts) (records : Records) (b : String)
    → is_free project debts records b ≡ true
    → ¬ Held project debts records b
is_free-not_Held project debts records b e (inl (d, m, same)) =
    let free =
      any-none (debts_for debts project) (λ d. str_eq d.branch b) d (ground (arith, e)) m in
    ground (arith, free, eq_iff d.branch b, same)
is_free-not_Held project debts records b e (inr (r, m, own, same)) =
    let free =
      any-none (values records) (λ r. str_eq r.project project && str_eq r.branch b) r
        (ground (arith, e)) m in
    ground (arith, free, eq_iff r.project project, eq_iff r.branch b, own, same)

not_Held-is_free :
    (project : String) (debts : Debts) (records : Records) (b : String)
    → ¬ Held project debts records b
    → is_free project debts records b ≡ true
not_Held-is_free project debts records b h = elim (Bool-cases (is_free project debts records b)) [
  | inl y ↦ y
  | inr n ↦ absurd (h (is_free-Held project debts records b n))
]

-- The first name with a property among sorted names.
find_first-least :
    (p : String → Bool) (names : List String) (b : String)
    → IsSorted names
    → find_first names p ≡ some b
    → Memᴰ b names × (p b ≡ true) × ((c : String) → Memᴰ c names → p c ≡ true → text_leb b c ≡ true)
find_first-least p [] b s e = absurd (ground (arith, e))
find_first-least p (x ∷ names) b s e = elim (Bool-cases (p x)) [
  | inl y ↦
      let same : b ≡ x = ground (arith, y, e) in
      (
        Memᴰ.head same,
        rw same y,
        λ c m free. elim m [
          | Memᴰ.head q ↦ rw (same, q) (text_leb_self x)
          | Memᴰ.tail k ↦ rw same (s.0 c k)
        ],
      )
  | inr n ↦
      let (m, held, least) = find_first-least p names b s.1 (ground (arith, n, e)) in
      (
        Memᴰ.tail m,
        held,
        λ c k free. elim k [
          | Memᴰ.head q ↦ absurd (ground (arith, n, free, q))
          | Memᴰ.tail l ↦ least c l free
        ],
      )
]

find_first-none :
    (p : String → Bool) (names : List String) (b : String)
    → find_first names p ≡ none
    → Memᴰ b names
    → p b ≡ false
find_first-none p [] b e m = elim m [ ]
find_first-none p (x ∷ names) b e (Memᴰ.head q) = ground (arith, q)
find_first-none p (x ∷ names) b e (Memᴰ.tail m) = elim (Bool-cases (p x)) [
  | inl t ↦ absurd (ground (arith, t))
  | inr f ↦ find_first-none p names b (ground (arith, f)) m
]

-- An `open` that may resume a branch, on git's list of the branches: either it picks one that
-- stands in the list, is a session's, and that no merge debt of the project and no recorded
-- session of it has, and the picked branch is the first of all such branches in the order of their
-- texts; or it picks none, and each session branch of the list has such a debt or session. Where
-- git fails it picks none.
pub find_orphan-Held :
    (refs : Option String) (project : String) (debts : Debts) (records : Records)
    → ((text b : String) × (refs ≡ some text)
        × (find_orphan refs project debts records ≡ some b)
        × Exists text b
        × (¬ Held project debts records b)
        × ((c : String) → Exists text c → ¬ Held project debts records c → text_leb b c ≡ true))
      ⊎ ((find_orphan refs project debts records ≡ none)
          × ((text c : String) → refs ≡ some text → Exists text c → Held project debts records c))
unfolding find_orphan
find_orphan-Held none project debts records = inr (refl, λ text c e. cc)
find_orphan-Held (some text) project debts records =
    elim (Option-cases (find_first (session_names text) (is_free project debts records))) [
      | inl e ↦ inr (
        e,
        λ other c same there.
            let at : text ≡ other = ground (arith, same) in
            let named = (session_names-Exists text c).1 (rw at there) in
            is_free-Held project debts records c
              (find_first-none (is_free project debts records) (session_names text) c e named),
      )
      | inr (b, e) ↦
          let (m, free, least) =
            find_first-least (is_free project debts records) (session_names text) b
              (session_names-IsSorted text) e in
          inl (
            text,
            b,
            refl,
            e,
            (session_names-Exists text b).0 m,
            is_free-not_Held project debts records b free,
            λ c there open_c.
                least c ((session_names-Exists text c).1 there)
                  (not_Held-is_free project debts records c open_c),
          )
    ]
