-- ===== src/WorkItems/Retries.antt =====
-- A `create` of sigiledd/src/work_items.rs that is sent again.
use sigiled.Base.{
  ℕ, ◌+◌, ◌≡◌, refl, String, true, some, List, [], ◌∷◌, ◌++◌, inl, inr, ◌⊎◌, arith, eq_iff, get,
  get-insert, str_eq, Bool-cases, Option-cases,
}
use sigiled.WorkItems.Items.{Edit, Item, Create, Update, ok, Data, same_fields}
use sigiled.WorkItems.Store.{create_in, update_in}
use sigiled.WorkItems.Changes.{same_fields_self, create_in-cases, update_in_lem, update_in_others}

-- The data after further calls that succeed.
pub data Later (start : Data) : Data → Type 0 where
  at_once : Later start start
  created :
      {items after : Data} (project actor : String) (body : Create) (now : ℕ) (item : Item)
      → Later start items
      → create_in project actor body now items ≡ ok (item, after)
      → Later start after
  updated :
      {items after : Data} (project id actor : String) (body : Update) (now : ℕ) (item : Item)
      → Later start items
      → update_in project id actor body now items ≡ ok (item, after)
      → Later start after

edits-cases : (l : List Edit) → (l ≡ []) ⊎ ((e : Edit) × (es : List Edit) × (l ≡ e ∷ es))
edits-cases [] = inl refl
edits-cases (e ∷ es) = inr (e, es, refl)

module _ (project actor : String) (body : Create) where
  -- The item's first edit is the call's.
  abbrev Begins : Item → Type 0
  Begins item =
      (e : Edit) × (es : List Edit) × (item.audit ≡ e ∷ es)
      × (same_fields e.fields body.fields ≡ true)

  -- The item of the call is there, under whatever revision.
  abbrev Kept : Data → Type 0
  Kept items =
      (item : Item) × (get body.id items ≡ some item)
      × (item.project ≡ project)
      × (item.creator ≡ actor)
      × Begins item

  create_in-Kept :
      (now : ℕ) (items after : Data) (item : Item)
      → create_in project actor body now items ≡ ok (item, after)
      → Kept after
  unfolding create_in
  create_in-Kept now items after item h = elim (Option-cases (get body.id items)) [
    | inl free ↦ (
      item,
      ground (arith, free, get-insert body.id body.id item items, eq_iff body.id body.id),
      ground (arith, free),
      ground (arith, free),
      (
        record { fields = body.fields; revision = 1; at = now; actor = actor },
        [],
        ground (arith, free),
        same_fields_self body.fields,
      ),
    )
    | inr (old, there) ↦ elim (edits-cases old.audit) [
      | inl nothing ↦ absurd (ground (arith, there, nothing))
      | inr (e, es, first) ↦
          let own : old.project ≡ project = ground (arith, there, eq_iff old.project project) in
          let by : old.creator ≡ actor = ground (arith, there, eq_iff old.creator actor) in
          let same : same_fields e.fields body.fields ≡ true = ground (arith, there, first) in
          let stays : get body.id after ≡ some old = ground (arith, there, first) in
          (old, stays, own, by, (e, es, first, same))
    ]
  ]

  created-Kept :
      (p a : String) (b : Create) (now : ℕ) (items after : Data) (x : Item)
      → create_in p a b now items ≡ ok (x, after)
      → Kept items
      → Kept after
  created-Kept p a b now items after x h (item, there, own, by, rest) =
      elim (create_in-cases p a b now items after x h) [
        | inl (same, found, theirs) ↦ (item, ground (arith, same), own, by, rest)
        | inr (free, room, made, put) ↦ (
          item,
          ground (arith, put, get-insert b.id body.id x items, eq_iff b.id body.id),
          own,
          by,
          rest,
        )
      ]

  updated-Kept :
      (p id a : String) (b : Update) (now : ℕ) (items after : Data) (x : Item)
      → update_in p id a b now items ≡ ok (x, after)
      → Kept items
      → Kept after
  updated-Kept p id a b now items after x h (item, there, own, by, (e, es, first, same)) =
      elim (Bool-cases (str_eq id body.id)) [
        | inl y ↦
            let (old, at, owner, current, room, made, put) =
              update_in_lem p id a b now items after x h in
            let here : id ≡ body.id = ground (arith, y, eq_iff id body.id) in
            let was : old ≡ item = ground (arith, at, here, there) in
            let last : Edit = record {
              revision = old.revision + 1;
              at = now;
              actor = a;
              fields = b.fields;
            } in
            (
              x,
              ground (arith, put, here, get-insert id id x items, eq_iff id id),
              rw (made, was) own,
              rw (made, was) by,
              (e, es ++ last ∷ [], rw (made, was, first) refl, same),
            )
        | inr n ↦ (
          item,
          ground (
            arith,
            update_in_others p id a b now items after x body.id h
                (λ (q : id ≡ body.id). ground (arith, n, eq_iff id body.id)),
          ),
          own,
          by,
          (e, es, first, same),
        )
      ]

  Later-Kept : (start items : Data) → Kept start → Later start items → Kept items
  Later-Kept start items h at_once = h
  Later-Kept start items h (created {items = before} {after} p a b now x l e) =
      created-Kept p a b now before after x e (Later-Kept start before h l)
  Later-Kept start items h (updated {items = before} {after} p id a b now x l e) =
      updated-Kept p id a b now before after x e (Later-Kept start before h l)

  Kept-retry :
      (now : ℕ) (items : Data)
      → Kept items
      → (item : Item) × (get body.id items ≡ some item)
        × (create_in project actor body now items ≡ ok (item, items))
  unfolding create_in
  Kept-retry now items (item, there, own, by, (e, es, first, same)) =
      (item, there, ground (arith, eq_iff item.project project, eq_iff item.creator actor))

  -- A `create` that succeeded and that the same caller sends again with the same body, after
  -- whatever further calls of `create` and `update` that succeeded, by whomever, succeeds again: it
  -- returns the item as it is by then and changes nothing.
  pub create_in-retry :
      (now later : ℕ) (items after items' : Data) (item : Item)
      → create_in project actor body now items ≡ ok (item, after)
      → Later after items'
      → (current : Item) × (get body.id items' ≡ some current)
        × (create_in project actor body later items' ≡ ok (current, items'))
  create_in-retry now later items after items' item h l =
      Kept-retry later items' (Later-Kept after items' (create_in-Kept now items after item h) l)
