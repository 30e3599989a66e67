-- ===== src/WorkItems/Store.antt =====
-- sigiledd/src/work_items.rs, `Store`: `find`, `create` and `update` on the data, and
-- `transaction` and `save` on the file. What the file system answers is an input; the encoded
-- size is a parameter (`serde_json`). The store's lock makes each transaction one step.
use sigiled.Base.{
  ℕ, ◌+◌, ◌*◌, String, Bool, true, false, ◌&&◌, Option, none, some, List, [], ◌∷◌, ◌++◌, ltb, leb,
  ◌==◌, if◌then◌else◌, str_eq, length, retain, values, get, insert,
}
use sigiled.WorkItems.Items.{
  Fields, Edit, Item, Create, Update, Result, ok, err, ◌>>=◌, ◌>>◌, guard, Data, Url, same_fields,
  validate, is_uuid, storage_not_configured, store_invalid, store_unavailable, save_uncertain,
  capacity, not_found, invalid_id, id_conflict, revision_conflict, audit_capacity, panicked,
}

find_in : String → Option Item → Result Item
find_in project none = err not_found
find_in project (some i) = if str_eq i.project project then ok i else err not_found

unfoldable pub find : Data → String → String → Result Item
unfolding find_in
find items project id = find_in project (get id items)

abbrev pub max_items : ℕ
max_items = 10000

abbrev pub max_edits : ℕ
max_edits = 1000

abbrev pub new_item : String → String → Create → ℕ → Item
new_item project actor body now = record {
  id = body.id;
  project = project;
  fields = body.fields;
  created_at = now;
  updated_at = now;
  revision = 1;
  creator = actor;
  editor = actor;
  audit = record { revision = 1; at = now; actor = actor; fields = body.fields } ∷ [];
}

abbrev pub project_count : String → Data → ℕ
project_count project items = length (retain (λ i. str_eq i.project project) (values items))

-- `old.audit[0].fields == body.fields`, once the owner matches.
same_first : Fields → Item → Data → List Edit → Result (Item × Data)
same_first fields old items [] = err panicked
same_first fields old items (e ∷ es) =
    if same_fields e.fields fields then ok (old, items) else err id_conflict

create_over : String → String → Create → ℕ → Data → Option Item → Result (Item × Data)
unfolding same_first
create_over project actor body now items (some old) =
    if str_eq old.project project && str_eq old.creator actor
    then same_first body.fields old items old.audit
    else err id_conflict
create_over project actor body now items none =
    if leb max_items (project_count project items)
    then err capacity
    else (let item = new_item project actor body now in ok (item, insert item.id item items))

-- The closure of `create`.
unfoldable pub create_in : String → String → Create → ℕ → Data → Result (Item × Data)
unfolding create_over
create_in project actor body now items =
    create_over project actor body now items (get body.id items)

abbrev pub edited : Item → String → Update → ℕ → Item
edited item actor body now = record item {
  revision = item.revision + 1;
  updated_at = now;
  editor = actor;
  fields = body.fields;
  audit =
      item.audit
      ++ record { revision = item.revision + 1; at = now; actor = actor; fields = body.fields }
        ∷ [];
}

update_item : String → String → Update → ℕ → Data → Item → Result (Item × Data)
update_item id actor body now items item =
    if item.revision == body.expected_revision
    then if leb max_edits (length item.audit)
      then err audit_capacity
      else (let item' = edited item actor body now in ok (item', insert id item' items))
    else err revision_conflict

-- The closure of `update`.
unfoldable pub update_in : String → String → String → Update → ℕ → Data → Result (Item × Data)
unfolding update_item find
update_in project id actor body now items =
    find items project id >>= update_item id actor body now items

-- The file as a read finds it.
pub data File : Type 0 where
  missing unreadable oversized malformed : File
  holds : Data → File

-- How far the file system goes along with `save`: the folder cannot be made; the temporary file
-- cannot be written or renamed; the folder's sync fails behind the rename; all is well.
pub data SaveReply : Type 0 where
  no_folder not_written not_synced saved : SaveReply

abbrev pub max_bytes : ℕ
max_bytes = 64 * 1024 * 1024

unfoldable pub read_data : File → Result Data
read_data missing = ok []
read_data unreadable = err store_unavailable
read_data oversized = err store_unavailable
read_data malformed = err store_invalid
read_data (holds items) = ok items

-- A transaction's result and the file behind it.
pub record Outcome {ℓ} (A : Type ℓ) : Type ℓ where
  pub result : Result A
  pub file : File

-- What is refused before the transaction leaves the file alone.
unfoldable pub before : File → Result (Unit {0}) → Outcome Item → Outcome Item
before file (ok u) out = out
before file (err e) out = record { result = err e; file = file }

module _ (size : Data → ℕ) where
  write_data : SaveReply → File → Data → Outcome (Unit {0})
  write_data no_folder file items = record { result = err save_uncertain; file = file }
  write_data not_written file items =
      if ltb max_bytes (size items)
      then record { result = err capacity; file = file }
      else record { result = err save_uncertain; file = file }
  write_data not_synced file items =
      if ltb max_bytes (size items)
      then record { result = err capacity; file = file }
      else record { result = err save_uncertain; file = holds items }
  write_data saved file items =
      if ltb max_bytes (size items)
      then record { result = err capacity; file = file }
      else record { result = ok tt; file = holds items }

  unfoldable pub save : SaveReply → File → Data → Outcome (Unit {0})
  unfolding write_data
  save reply file items = write_data reply file items

  module _ {ℓ} {A : Type ℓ} where
    unfoldable pub finish : Bool → SaveReply → File → Result (A × Data) → Outcome A
    unfolding save
    finish write reply file (err e) = record { result = err e; file = file }
    finish false reply file (ok (a, items)) = record { result = ok a; file = file }
    finish true reply file (ok (a, items)) =
        let out = save reply file items in
        record { result = (do out.result; ok a); file = out.file }

    -- `configured` is whether the store has a path.
    unfoldable pub transaction :
        Bool → Bool → SaveReply → File → (Data → Result (A × Data)) → Outcome A
    unfolding finish read_data
    transaction configured write reply file f =
        if configured
        then finish write reply file (read_data file >>= f)
        else record { result = err storage_not_configured; file = file }

  module _ (parse : String → Option Url) where
    unfoldable pub create : Bool → SaveReply → File → String → String → Create → ℕ → Outcome Item
    unfolding before transaction
    create configured reply file project actor body now =
        before file (do validate parse body.fields; guard (is_uuid body.id) invalid_id)
          (transaction configured true reply file (create_in project actor body now))

    unfoldable pub update :
        Bool → SaveReply → File → String → String → String → Update → ℕ → Outcome Item
    unfolding before transaction
    update configured reply file project id actor body now =
        before file (validate parse body.fields)
          (transaction configured true reply file (update_in project id actor body now))

  -- `Store::get`.
  unfoldable pub read_item : Bool → File → String → String → Outcome Item
  unfolding transaction find
  read_item configured file project id =
      transaction configured false saved file
        λ items. do item ← find items project id; ok (item, items)
