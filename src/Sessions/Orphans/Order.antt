-- ===== src/Sessions/Orphans/Order.antt =====
-- The order of the names in `find_orphan` of sigiledd/src/sessions.rs: `sort` and `dedup`.
use mathlib.Core.List.{Memᴰ}
use sigiled.Base.{
  ℕ, ◌≡◌, refl, sym, String, true, false, List, [], ◌∷◌, arith, inl, inr, ◌⊎◌, ◌↔◌, subst, str_eq,
  eq_iff, codes, Bool-cases,
}
use sigiled.Sessions.Orphans.{codes_leb, text_leb, insert_name, sort, dedup}

codes_leb_total : (a b : List ℕ) → codes_leb a b ≡ false → codes_leb b a ≡ true
unfolding codes_leb
codes_leb_total [] b h = absurd (ground (arith, h))
codes_leb_total (x ∷ xs) [] h = refl
codes_leb_total (x ∷ xs) (y ∷ ys) h = ground (arith, codes_leb_total xs ys)

codes_leb_trans :
    (a b c : List ℕ) → codes_leb a b ≡ true → codes_leb b c ≡ true → codes_leb a c ≡ true
unfolding codes_leb
codes_leb_trans [] b c h k = refl
codes_leb_trans (x ∷ xs) [] c h k = absurd (ground (arith, h))
codes_leb_trans (x ∷ xs) (y ∷ ys) [] h k = absurd (ground (arith, k))
codes_leb_trans (x ∷ xs) (y ∷ ys) (z ∷ zs) h k = ground (arith, codes_leb_trans xs ys zs)

codes_leb_self : (a : List ℕ) → codes_leb a a ≡ true
unfolding codes_leb
codes_leb_self [] = refl
codes_leb_self (x ∷ xs) = ground (arith, codes_leb_self xs)

pub text_leb_self : (a : String) → text_leb a a ≡ true
text_leb_self a = codes_leb_self (codes a)

-- No name stands behind a greater one.
abbrev pub IsSorted : List String → Type 0
IsSorted [] = Unit
IsSorted (b ∷ bs) = ((c : String) → Memᴰ c bs → text_leb b c ≡ true) × IsSorted bs

insert_name-Mem :
    (b : String) (bs : List String) (c : String) → Memᴰ c (insert_name b bs) ↔ ((c ≡ b) ⊎ Memᴰ c bs)
unfolding insert_name
insert_name-Mem b [] c = (
  λ m. elim m [ Memᴰ.head q ↦ inl q | Memᴰ.tail n ↦ inr n ],
  λ h. elim h [ inl q ↦ Memᴰ.head q | inr n ↦ Memᴰ.tail n ],
)
insert_name-Mem b (x ∷ bs) c = elim (Bool-cases (text_leb b x)) [
  | inl y ↦ rw y (
    λ m. elim m [ Memᴰ.head q ↦ inl q | Memᴰ.tail n ↦ inr n ],
    λ h. elim h [ inl q ↦ Memᴰ.head q | inr n ↦ Memᴰ.tail n ],
  )
  | inr n ↦ rw n (
    λ m. elim m [
      | Memᴰ.head q ↦ inr (Memᴰ.head q)
      | Memᴰ.tail k ↦ elim ((insert_name-Mem b bs c).0 k) [
        | inl q ↦ inl q
        | inr l ↦ inr (Memᴰ.tail l)
      ]
    ],
    λ h. elim h [
      | inl q ↦ Memᴰ.tail ((insert_name-Mem b bs c).1 (inl q))
      | inr l ↦ elim l [
        | Memᴰ.head q ↦ Memᴰ.head q
        | Memᴰ.tail k ↦ Memᴰ.tail ((insert_name-Mem b bs c).1 (inr k))
      ]
    ],
  )
]

pub sort-Mem : (bs : List String) (c : String) → Memᴰ c (sort bs) ↔ Memᴰ c bs
unfolding sort
sort-Mem [] c = (λ m. m, λ m. m)
sort-Mem (b ∷ bs) c = (
  λ m. elim ((insert_name-Mem b (sort bs) c).0 m) [
    | inl q ↦ Memᴰ.head q
    | inr n ↦ Memᴰ.tail ((sort-Mem bs c).0 n)
  ],
  λ m. elim m [
    | Memᴰ.head q ↦ (insert_name-Mem b (sort bs) c).1 (inl q)
    | Memᴰ.tail n ↦ (insert_name-Mem b (sort bs) c).1 (inr ((sort-Mem bs c).1 n))
  ],
)

insert_name-IsSorted : (b : String) (bs : List String) → IsSorted bs → IsSorted (insert_name b bs)
unfolding insert_name
insert_name-IsSorted b [] s = ((λ c m. elim m [ ]), tt)
insert_name-IsSorted b (x ∷ bs) s = elim (Bool-cases (text_leb b x)) [
  | inl y ↦ rw y (
    (λ c m. elim m [
      | Memᴰ.head q ↦ subst (λ z. text_leb b z ≡ true) (sym q) y
      | Memᴰ.tail n ↦ codes_leb_trans (codes b) (codes x) (codes c) y (s.0 c n)
    ]),
    s,
  )
  | inr n ↦ rw n (
    (λ c m. elim ((insert_name-Mem b bs c).0 m) [
      | inl q ↦ subst (λ z. text_leb x z ≡ true) (sym q) (codes_leb_total (codes b) (codes x) n)
      | inr k ↦ s.0 c k
    ]),
    insert_name-IsSorted b bs s.1,
  )
]

pub sort-IsSorted : (bs : List String) → IsSorted (sort bs)
unfolding sort
sort-IsSorted [] = tt
sort-IsSorted (b ∷ bs) = insert_name-IsSorted b (sort bs) (sort-IsSorted bs)

pub dedup-Mem : (bs : List String) (c : String) → Memᴰ c (dedup bs) ↔ Memᴰ c bs
unfolding dedup
dedup-Mem [] c = (λ m. m, λ m. m)
dedup-Mem (b ∷ []) c = (λ m. m, λ m. m)
dedup-Mem (b ∷ (x ∷ bs)) c = elim (Bool-cases (str_eq b x)) [
  | inl y ↦ rw y (
    λ m. Memᴰ.tail ((dedup-Mem (x ∷ bs) c).0 m),
    λ m. elim m [
      | Memᴰ.head q ↦ (dedup-Mem (x ∷ bs) c).1 (Memᴰ.head (ground (arith, q, y, eq_iff b x)))
      | Memᴰ.tail n ↦ (dedup-Mem (x ∷ bs) c).1 n
    ],
  )
  | inr n ↦ rw n (
    λ m. elim m [
      | Memᴰ.head q ↦ Memᴰ.head q
      | Memᴰ.tail k ↦ Memᴰ.tail ((dedup-Mem (x ∷ bs) c).0 k)
    ],
    λ m. elim m [
      | Memᴰ.head q ↦ Memᴰ.head q
      | Memᴰ.tail k ↦ Memᴰ.tail ((dedup-Mem (x ∷ bs) c).1 k)
    ],
  )
]

pub dedup-IsSorted : (bs : List String) → IsSorted bs → IsSorted (dedup bs)
unfolding dedup
dedup-IsSorted [] s = s
dedup-IsSorted (b ∷ []) s = s
dedup-IsSorted (b ∷ (x ∷ bs)) s = elim (Bool-cases (str_eq b x)) [
  | inl y ↦ rw y (dedup-IsSorted (x ∷ bs) s.1)
  | inr n ↦ rw n ((λ c m. s.0 c ((dedup-Mem (x ∷ bs) c).0 m)), dedup-IsSorted (x ∷ bs) s.1)
]
