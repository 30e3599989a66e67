-- ===== src/WorkItems/Listing/Paging.antt =====
-- The pages of `Store::list` in sigiledd/src/work_items.rs, and a client that follows them.
use mathlib.Core.List.{append-nil}
use mathlib.Core.List.Perm
use native.Mathlib.Nat.{zero-add, suc-add}
use mathlib.Core.List.{Perm}
use sigiled.Base.{
  ℕ, zero, suc, ◌+◌, ◌≤◌, ◌<◌, ◌≡◌, refl, sym, ◌∙◌, ap, String, none, some, List, [], ◌∷◌, ◌++◌,
  inl, inr, arith, str_eq, take, drop, length, retain, values, Bool-cases, ltb, length-drop,
}
use sigiled.WorkItems.Items.{Item, Data}
use sigiled.WorkItems.Listing.{Page, page_of, list, rows, sort, place, item_order, is_after}

-- A client that follows `next_offset` until there is none.
abbrev pub follow : ℕ → (ℕ → Page) → ℕ → List Item
follow zero page offset = []
follow (suc fuel) page offset =
    (page offset).items
    ++ elim (page offset).next_offset [ none ↦ [] | some next ↦ follow fuel page next ]

drop-drop : (n m : ℕ) (xs : List Item) → drop m (drop n xs) ≡ drop (n + m) xs
drop-drop zero m xs = rw zero-add refl
drop-drop (suc n) zero [] = rw suc-add refl
drop-drop (suc n) (suc m) [] = rw suc-add refl
drop-drop (suc n) m (x ∷ xs) = rw suc-add (drop-drop n m xs)

take-append-drop : (n : ℕ) (xs : List Item) → take n xs ++ drop n xs ≡ xs
take-append-drop zero xs = refl
take-append-drop (suc n) [] = refl
take-append-drop (suc n) (x ∷ xs) = rw (take-append-drop n xs)

take_all : (n : ℕ) (xs : List Item) → length xs ≤ n → take n xs ≡ xs
take_all zero [] h = refl
take_all zero (x ∷ xs) h = absurd (omega arith)
take_all (suc n) [] h = refl
take_all (suc n) (x ∷ xs) h = rw (take_all n xs (omega arith))

take-drop_step : (n m : ℕ) (xs : List Item) → take m (drop n xs) ++ drop (n + m) xs ≡ drop n xs
take-drop_step n m xs =
    ap (λ t. take m (drop n xs) ++ t) (sym (drop-drop n m xs)) ∙ take-append-drop m (drop n xs)

drop_all : (n : ℕ) (xs : List Item) → length xs ≤ n → drop n xs ≡ []
drop_all zero [] h = refl
drop_all zero (x ∷ xs) h = absurd (omega arith)
drop_all (suc n) [] h = refl
drop_all (suc n) (x ∷ xs) h = drop_all n xs (omega arith)

follow-drop :
    (fuel : ℕ) (all : List Item) (limit offset : ℕ)
    → 0 < limit
    → length all < offset + fuel
    → follow fuel (λ o. page_of all o limit) offset ≡ drop offset all
unfolding page_of
follow-drop zero all limit offset l f = sym (drop_all offset all (omega arith))
follow-drop (suc fuel) all limit offset l f =
    elim (Bool-cases (ltb (offset + limit) (length all))) [
      | inl more ↦ rw more (
          rw (follow-drop fuel all limit (offset + limit) l (omega arith))
            (take-drop_step offset limit all))
      | inr last ↦ rw last (
          rw append-nil (take_all limit (drop offset all) (ground (arith, length-drop offset all))))
    ]

place-perm : (a : Item) (bs : List Item) → Perm (place a bs) (a ∷ bs)
unfolding place
place-perm a [] = Perm.refl (a ∷ [])
place-perm a (b ∷ bs) = elim (Bool-cases (is_after (item_order a b))) [
  | inl y ↦ rw y (Perm.trans (Perm.cons b (place-perm a bs)) (Perm.swap a b bs))
  | inr n ↦ rw n (Perm.refl (a ∷ (b ∷ bs)))
]

sort-perm : (items : List Item) → Perm (sort items) items
unfolding sort
sort-perm [] = Perm.refl []
sort-perm (a ∷ more) = Perm.trans (place-perm a (sort more)) (Perm.cons a (sort-perm more))

-- A client that starts at 0 and follows `next_offset`, with any page size but 0, receives the
-- project's items, every one and each once, whatever the page size; as many pages as there are
-- items, and one more, are enough.
pub list_complete :
    (items : Data) (project : String) (limit fuel : ℕ)
    → 0 < limit
    → (list items project 0 limit).total < fuel
    → (follow fuel (λ o. list items project o limit) 0 ≡ rows items project)
      × Perm (rows items project) (retain (λ i. str_eq i.project project) (values items))
unfolding list
list_complete items project limit fuel l f =
    (follow-drop fuel (rows items project) limit 0 l (omega arith), sort-perm _)
