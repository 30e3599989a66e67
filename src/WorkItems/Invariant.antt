-- ===== src/WorkItems/Invariant.antt =====
-- What holds of every item that `create` and `update` of sigiledd/src/work_items.rs store.
use sigiled.Base.{
  ℕ, suc, ◌+◌, ◌≤◌, ◌≡◌, refl, subst, String, Bool, true, false, Option, none, some, List, [], ◌∷◌,
  ◌++◌, inl, inr, arith, str_eq, eq_iff, get, insert, get-insert, length, length-append, Bool-cases,
}
use sigiled.WorkItems.Items.{Fields, Edit, Item, Create, Update, ok, Data}
use sigiled.WorkItems.Store.{
  create_in, update_in, new_item, edited, max_edits, max_items, project_count,
}
use sigiled.WorkItems.Changes.{create_in-cases, update_in_lem}

-- The audit's edits are numbered from the given revision on.
abbrev pub Numbered : ℕ → List Edit → Type 0
Numbered n [] = Unit
Numbered n (e ∷ es) = (e.revision ≡ n) × Numbered (suc n) es

abbrev pub last_fields : List Edit → Option Fields
last_fields [] = none
last_fields (e ∷ []) = some e.fields
last_fields (e ∷ (d ∷ es)) = last_fields (d ∷ es)

-- The revision counts the edits, which are numbered from 1 and at most 1000; the item's fields
-- are those of the last edit.
pub record IsSound (id : String) (i : Item) : Type 0 where
  pub keyed : i.id ≡ id
  pub counted : i.revision ≡ length i.audit
  pub within : length i.audit ≤ max_edits
  pub numbered : Numbered 1 i.audit
  pub current : last_fields i.audit ≡ some i.fields

abbrev pub AreSound : Data → Type 0
AreSound items =
    ((id : String) (i : Item) → get id items ≡ some i → IsSound id i)
    × ((project : String) → project_count project items ≤ max_items)

Numbered-append :
    (n k : ℕ) (es : List Edit) (e : Edit)
    → Numbered n es
    → k ≡ n + length es
    → e.revision ≡ k
    → Numbered n (es ++ e ∷ [])
Numbered-append n k [] e h a r = (omega arith, tt)
Numbered-append n k (d ∷ es) e h a r = (h.0, Numbered-append (suc n) k es e h.1 (omega arith) r)

last_fields-append : (es : List Edit) (e : Edit) → last_fields (es ++ e ∷ []) ≡ some e.fields
last_fields-append [] e = refl
last_fields-append (d ∷ []) e = refl
last_fields-append (d ∷ (c ∷ es)) e = last_fields-append (c ∷ es) e

abbrev own : String → Item → Bool
own project i = str_eq i.project project

abbrev one_if : Bool → ℕ
one_if true = 1
one_if false = 0

project_count-insert_new :
    (project id : String) (i : Item) (items : Data)
    → get id items ≡ none
    → project_count project (insert id i items)
      ≡ project_count project items + one_if (own project i)
unfolding get insert
project_count-insert_new project id i [] h = ground arith
project_count-insert_new project id i ((j, o) ∷ items) h = elim (Bool-cases (str_eq j id)) [
  | inl y ↦ absurd (ground arith)
  | inr n ↦ rw n (ground (arith, project_count-insert_new project id i items (rw (n, get) at h)))
]

project_count-insert_old :
    (project id : String) (i o : Item) (items : Data)
    → get id items ≡ some o
    → i.project ≡ o.project
    → project_count project (insert id i items) ≡ project_count project items
unfolding get insert
project_count-insert_old project id i o [] h p = cc
project_count-insert_old project id i o ((j, q) ∷ items) h p = elim (Bool-cases (str_eq j id)) [
  | inl y ↦ rw y (ground arith)
  | inr n ↦
      rw n (ground (arith, project_count-insert_old project id i o items (rw (n, get) at h) p))
]

new_item-IsSound :
    (project actor : String) (body : Create) (now : ℕ)
    → IsSound body.id (new_item project actor body now)
new_item-IsSound project actor body now = record {
  keyed = refl;
  counted = refl;
  within = omega arith;
  numbered = (refl, tt);
  current = refl;
}

edited-IsSound :
    (id actor : String) (body : Update) (now : ℕ) (old : Item)
    → IsSound id old
    → suc (length old.audit) ≤ max_edits
    → IsSound id (edited old actor body now)
edited-IsSound id actor body now old s room = record {
  keyed = s.keyed;
  counted = omega (arith, length-append {0} old.audit, s.counted);
  within = omega (arith, length-append {0} old.audit);
  numbered =
      Numbered-append 1 (old.revision + 1) old.audit _ s.numbered (omega (arith, s.counted)) refl;
  current = last_fields-append old.audit _;
}

insert-IsSound :
    (id : String) (i : Item) (items : Data)
    → IsSound id i
    → ((k : String) (o : Item) → get k items ≡ some o → IsSound k o)
    → (k : String) (o : Item) → get k (insert id i items) ≡ some o
    → IsSound k o
insert-IsSound id i items s h k o e = elim (Bool-cases (str_eq id k)) [
  | inl y ↦
      subst (λ x. IsSound x o) ((eq_iff id k).0 y)
        (subst (λ x. IsSound id x) (ground (arith, get-insert id k i items)) s)
  | inr n ↦ h k o (ground (arith, get-insert id k i items))
]

-- A successful `create` keeps every stored item sound (its revision counts its edits, which are
-- numbered from 1 and at most 1000, and its fields are those of the last edit), and no project
-- holds more than 10000 items.
pub create_in-AreSound :
    (project actor : String) (body : Create) (now : ℕ) (items after : Data) (item : Item)
    → create_in project actor body now items ≡ ok (item, after)
    → AreSound items
    → AreSound after
create_in-AreSound project actor body now items after item h s =
    elim (create_in-cases project actor body now items after item h) [
      | inl (same, _, _) ↦ rw same s
      | inr (free, room, made, put) ↦ (
        rw (put, made)
            (insert-IsSound body.id _ items (new_item-IsSound project actor body now) s.0),
        λ p. rw put (
            ground
              (arith, project_count-insert_new p body.id item items free, s.1 p, eq_iff project p)),
      )
    ]

-- A successful `update` keeps every stored item sound in the same sense, and every project within
-- its 10000 items.
pub update_in-AreSound :
    (project id actor : String) (body : Update) (now : ℕ) (items after : Data) (item : Item)
    → update_in project id actor body now items ≡ ok (item, after)
    → AreSound items
    → AreSound after
update_in-AreSound project id actor body now items after item h s =
    let (old, at, owner, current, room, made, put) =
      update_in_lem project id actor body now items after item h in
    (
      rw (put, made)
          (insert-IsSound id _ items (edited-IsSound id actor body now old (s.0 id old at) room)
            s.0),
      λ p. rw put (ground (arith, project_count-insert_old p id item old items at, s.1 p)),
    )
