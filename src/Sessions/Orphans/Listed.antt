-- ===== src/Sessions/Orphans/Listed.antt =====
-- The names of the session branches in git's answer, for `find_orphan` of sigiledd/src/sessions.rs.
use mathlib.Core.List.{Memᴰ}
use sigiled.Base.{
  ℕ, zero, suc, ◌+◌, ◌≤◌, ◌≡◌, refl, sym, ap, subst, ◌∙◌, String, true, none, some, List, [], ◌∷◌,
  arith, inl, inr, ◌↔◌, map, retain, codes, length, strip_prefix, Bool-cases, Option-cases,
}
use sigiled.Git.{split_lines}
use sigiled.Sessions.Orphans.{
  trim, origin, strip_origins, branch_name, is_session, session_names, sort,
}
use sigiled.Sessions.Orphans.Order.{IsSorted, sort-Mem, sort-IsSorted, dedup-Mem, dedup-IsSorted}

-- `c` is what is left of a text without all of its leading "origin/".
pub data Names : String → String → Type 0 where
  bare : {s : String} → strip_prefix origin s ≡ none → Names s s
  remote : {s rest c : String} → strip_prefix origin s ≡ some rest → Names rest c → Names s c

strip_prefix-length :
    (p s rest : String)
    → strip_prefix p s ≡ some rest
    → length (codes rest) + length (codes p) ≡ length (codes s)
unfolding strip_prefix
strip_prefix-length String.[] s rest h = ground (arith, h)
strip_prefix-length (String.◌∷◌ c p) String.[] rest h = cc
strip_prefix-length (String.◌∷◌ c p) (String.◌∷◌ d s) rest h =
    ground (arith, strip_prefix-length p s rest)

strip_origins-Names : (n : ℕ) (s : String) → length (codes s) ≤ n → Names s (strip_origins n s)
unfolding strip_origins strip_prefix
strip_origins-Names zero String.[] h = Names.bare refl
strip_origins-Names zero (String.◌∷◌ c s) h = absurd (omega arith)
strip_origins-Names (suc n) s h = elim (Option-cases (strip_prefix origin s)) [
  | inl e ↦ rw e (Names.bare e)
  | inr (rest, e) ↦
      let shorter : length (codes rest) ≤ n = ground (arith, strip_prefix-length origin s rest e) in
      rw e (Names.remote e (strip_origins-Names n rest shorter))
]

Names-strip_origins :
    (n : ℕ) (s c : String) → length (codes s) ≤ n → Names s c → strip_origins n s ≡ c
unfolding strip_origins
Names-strip_origins zero s c h (Names.bare e) = refl
Names-strip_origins (suc n) s c h (Names.bare e) = rw e refl
Names-strip_origins zero s c h (Names.remote {rest = rest} e k) =
    absurd (ground (arith, strip_prefix-length origin s rest e))
Names-strip_origins (suc n) s c h (Names.remote {rest = rest} e k) =
    let shorter : length (codes rest) ≤ n = ground (arith, strip_prefix-length origin s rest e) in
    rw e (Names-strip_origins n rest c shorter k)

-- The branch stands on some line of git's answer, and is one of a session.
abbrev pub Exists : String → String → Type 0
Exists refs b =
    (line : String) × Memᴰ line (split_lines refs) × Names (trim line) b × (is_session b ≡ true)

abbrev Kept : List String → String → Type 0
Kept lines b = (line : String) × Memᴰ line lines × (branch_name line ≡ b) × (is_session b ≡ true)

Kept-cons : (x : String) (xs : List String) (b : String) → Kept xs b → Kept (x ∷ xs) b
Kept-cons x xs b (l, m, e, s) = (l, Memᴰ.tail m, e, s)

retain-map-Mem :
    (lines : List String) (b : String)
    → Memᴰ b (retain is_session (map branch_name lines)) ↔ Kept lines b
retain-map-Mem [] b = (λ m. elim m [ ], λ h. let (l, m, e, s) = h in elim m [ ])
retain-map-Mem (x ∷ xs) b = elim (Bool-cases (is_session (branch_name x))) [
  | inl y ↦ rw y (
    λ m. elim m [
      | Memᴰ.head q ↦ (x, Memᴰ.head refl, sym q, subst (λ z. is_session z ≡ true) (sym q) y)
      | Memᴰ.tail k ↦ Kept-cons x xs b ((retain-map-Mem xs b).0 k)
    ],
    λ h.
        let (l, m, e, s) = h in
        elim m [
          | Memᴰ.head q ↦ Memᴰ.head (sym e ∙ ap branch_name q)
          | Memᴰ.tail k ↦ Memᴰ.tail ((retain-map-Mem xs b).1 (l, k, e, s))
        ],
  )
  | inr n ↦ rw n (
    λ m. Kept-cons x xs b ((retain-map-Mem xs b).0 m),
    λ h.
        let (l, m, e, s) = h in
        elim m [
          | Memᴰ.head q ↦ absurd (ground (arith, n, e, s, q))
          | Memᴰ.tail k ↦ (retain-map-Mem xs b).1 (l, k, e, s)
        ],
  )
]

pub session_names-Exists : (refs b : String) → Memᴰ b (session_names refs) ↔ Exists refs b
unfolding session_names branch_name
session_names-Exists refs b =
    let kept : List String = retain is_session (map branch_name (split_lines refs)) in
    (
      λ m.
          let (l, on, e, s) =
            (retain-map-Mem (split_lines refs) b).0
              ((sort-Mem kept b).0 ((dedup-Mem (sort kept) b).0 m)) in
          (l, on, subst (Names (trim l)) e (strip_origins-Names _ (trim l) (omega arith)), s),
      λ h.
          let (l, on, e, s) = h in
          (dedup-Mem (sort kept) b).1 (
            (sort-Mem kept b).1 (
              (retain-map-Mem (split_lines refs) b).1
                (l, on, Names-strip_origins _ (trim l) b (omega arith) e, s))),
    )

pub session_names-IsSorted : (refs : String) → IsSorted (session_names refs)
unfolding session_names
session_names-IsSorted refs =
    let kept : List String = retain is_session (map branch_name (split_lines refs)) in
    dedup-IsSorted (sort kept) (sort-IsSorted kept)
