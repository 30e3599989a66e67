-- ===== src/WorkItems/Changes.antt =====
-- What `create` and `update` of sigiledd/src/work_items.rs do to the items.
use sigiled.Base.{
  ℕ, suc, ◌≤◌, ◌≡◌, ◌≢◌, refl, String, true, none, some, inl, inr, ◌⊎◌, arith, eq_iff, eq_refl, get,
  insert, get-insert, Option-cases, length,
}
use sigiled.WorkItems.Items.{
  State, opened, blocked, done, Fields, Item, Create, Update, ok, err, Data, same_fields,
  same_state, revision_conflict,
}
use sigiled.WorkItems.Store.{
  create_in, update_in, new_item, edited, max_edits, max_items, project_count,
}

same_state_self : (s : State) → same_state s s ≡ true
same_state_self opened = refl
same_state_self blocked = refl
same_state_self done = refl

pub same_fields_self : (f : Fields) → same_fields f f ≡ true
unfolding same_fields
same_fields_self f = simp (eq_refl, same_state_self)

-- A `create` that succeeds either finds an item of the project already there under the id and
-- changes nothing, or
-- adds the new item under an id that no item had, in a project with room for it.
pub create_in-cases :
    (project actor : String) (body : Create) (now : ℕ) (items after : Data) (item : Item)
    → create_in project actor body now items ≡ ok (item, after)
    → ((after ≡ items) × (get body.id items ≡ some item) × (item.project ≡ project))
      ⊎ ((get body.id items ≡ none)
          × (suc (project_count project items) ≤ max_items)
          × (item ≡ new_item project actor body now)
          × (after ≡ insert body.id item items))
unfolding create_in
create_in-cases project actor body now items after item h =
    ground (arith, eq_iff item.project project)

-- A `create` touches no item of another id.
pub create_in_others :
    (project actor : String) (body : Create) (now : ℕ) (items after : Data) (item : Item)
    (j : String)
    → create_in project actor body now items ≡ ok (item, after)
    → body.id ≢ j
    → get j after ≡ get j items
create_in_others project actor body now items after item j h d = ground (
  arith,
  create_in-cases project actor body now items after item h,
  get-insert body.id j item items,
  eq_iff body.id j,
)

-- An `update` that succeeds had the current revision, and puts in the item's place the item
-- with the new fields, the revision one higher and one more edit in its audit; every other item
-- stays.
pub update_in_lem :
    (project id actor : String) (body : Update) (now : ℕ) (items after : Data) (item : Item)
    → update_in project id actor body now items ≡ ok (item, after)
    → (old : Item) × (get id items ≡ some old)
      × (old.project ≡ project)
      × (old.revision ≡ body.expected_revision)
      × (suc (length old.audit) ≤ max_edits)
      × (item ≡ edited old actor body now)
      × (after ≡ insert id item items)
unfolding update_in
update_in_lem project id actor body now items after item h = elim (Option-cases (get id items)) [
  | inl e ↦ absurd (ground arith)
  | inr (old, e) ↦ (
    old,
    e,
    ground (arith, eq_iff old.project project),
    ground arith,
    ground arith,
    ground arith,
    ground arith,
  )
]

-- An `update` touches no item of another id.
pub update_in_others :
    (project id actor : String) (body : Update) (now : ℕ) (items after : Data) (item : Item)
    (j : String)
    → update_in project id actor body now items ≡ ok (item, after)
    → id ≢ j
    → get j after ≡ get j items
update_in_others project id actor body now items after item j h d = ground (
  arith,
  update_in_lem project id actor body now items after item h,
  get-insert id j item items,
  eq_iff id j,
)

-- Of two updates that expect the same revision the second is refused, whoever sends it and
-- whatever it says: no edit is lost.
pub update_in_stale :
    (project id first second : String) (one two : Update) (now later : ℕ) (items after : Data)
    (item : Item)
    → one.expected_revision ≡ two.expected_revision
    → update_in project id first one now items ≡ ok (item, after)
    → update_in project id second two later after ≡ err revision_conflict
unfolding update_in
update_in_stale project id first second one two now later items after item same h =
    let (old, at, owner, current, room, made, put) =
      update_in_lem project id first one now items after item h in
    ground (
      arith,
      get-insert id id item items,
      eq_iff id id,
      eq_iff project project,
      eq_iff old.project project,
    )
