-- ===== src/Examples/Items.antt =====
-- Runs and instances for sigiledd/src/work_items.rs.
use mathlib.Core.List.{Perm}
use sigiled.Base.{
  ℕ, ◌<◌, ◌≡◌, ◌≢◌, refl, String, true, Option, none, some, [], ◌∷◌, get, insert, retain, values,
  str_eq, arith,
}
use sigiled.WorkItems.Items.{
  opened, done, Fields, Item, Create, Update, Error, ok, err, Data, Url, revision_conflict,
  save_uncertain,
}
use sigiled.WorkItems.Store.{
  create_in, update_in, new_item, edited, missing, holds, saved, not_written, transaction, create,
  update, read_item,
}
use sigiled.WorkItems.Retries.{Later, create_in-retry}
use sigiled.WorkItems.Changes.{update_in_stale}
use sigiled.WorkItems.Invariant.{AreSound, create_in-AreSound, update_in-AreSound}
use sigiled.WorkItems.Durability.{transaction-failed, create-read_item, update-read_item}
use sigiled.WorkItems.Listing.{list, rows}
use sigiled.WorkItems.Listing.Paging.{follow, list_complete}

abbrev fields : String → Fields
fields title = record {
  title = title;
  description = "";
  state = opened;
  owner = "ivan";
  source_link = "";
}

abbrev id : String
id = "0a1b2c3d-0a1b-0a1b-0a1b-0a1b2c3d4e5f"

abbrev first : Create
first = record { id = id; fields = fields "write" }

abbrev item : Item
item = new_item "proj" "claude" first 5

abbrev stored : Data
stored = (id, item) ∷ []

added : create_in "proj" "claude" first 5 [] ≡ ok (item, stored)
unfolding create_in get insert
added = refl

abbrev change : Update
change = record { expected_revision = 1; fields = fields "review" }

abbrev changed : Item
changed = edited item "codex" change 7

abbrev restored : Data
restored = (id, changed) ∷ []

edited_once : update_in "proj" id "codex" change 7 stored ≡ ok (changed, restored)
unfolding update_in get insert
edited_once = refl

edited_since : Later stored restored
edited_since = Later.updated "proj" id "codex" change 7 changed Later.at_once edited_once

create_in-retry_example :
    (current : Item) × (get id restored ≡ some current)
    × (create_in "proj" "claude" first 9 restored ≡ ok (current, restored))
create_in-retry_example =
    create_in-retry "proj" "claude" first 5 9 [] stored restored item added edited_since

update_in_stale_example : update_in "proj" id "claude" change 8 restored ≡ err revision_conflict
update_in_stale_example =
    update_in_stale "proj" id "codex" "claude" change change 7 8 stored restored changed refl
      edited_once

absent : (k : String) (i : Item) → get k [] ≡ some i → ⊥
unfolding get
absent k i e = ground (arith, e)

nothing-AreSound : AreSound []
nothing-AreSound = (λ k i e. absurd (absent k i e), λ p. ground arith)

create_in-AreSound_example : AreSound stored
create_in-AreSound_example =
    create_in-AreSound "proj" "claude" first 5 [] stored item added nothing-AreSound

stored-AreSound : AreSound stored
stored-AreSound = create_in-AreSound "proj" "claude" first 5 [] stored item added nothing-AreSound

update_in-AreSound_example : AreSound restored
update_in-AreSound_example =
    update_in-AreSound "proj" id "codex" change 7 stored restored changed edited_once
      stored-AreSound

abbrev size : Data → ℕ
size items = 1000

abbrev parse : String → Option Url
parse link = none

refused :
    (transaction size true true not_written missing (create_in "proj" "claude" first 5)).result
    ≡ err save_uncertain
unfolding transaction create_in get
refused = refl

stale :
    (transaction size true true saved
      (holds restored)
      (update_in "proj" id "claude" change 8)).result
    ≡ err revision_conflict
unfolding transaction update_in get
stale = refl

certain : revision_conflict ≢ save_uncertain
certain e = cc

transaction-failed_example :
    (transaction size true true saved (holds restored) (update_in "proj" id "claude" change 8)).file
    ≡ holds restored
transaction-failed_example =
    transaction-failed size true saved (holds restored) (update_in "proj" id "claude" change 8)
      revision_conflict stale certain

created : (create size parse true saved missing "proj" "claude" first 5).result ≡ ok item
unfolding create sigiled.WorkItems.Items.validate sigiled.WorkItems.Items.is_uuid create_in get
created = refl

create-read_item_example :
    let after = (create size parse true saved missing "proj" "claude" first 5).file in
    ((read_item size true after "proj" id).result ≡ ok item)
    × ((q j : String)
        → id ≢ j
        → (read_item size true after q j).result ≡ (read_item size true missing q j).result)
create-read_item_example =
    create-read_item size parse true saved missing "proj" "claude" first 5 item created

updated :
    (update size parse true saved (holds stored) "proj" id "codex" change 7).result ≡ ok changed
unfolding update sigiled.WorkItems.Items.validate update_in get
updated = refl

update-read_item_example :
    let after = (update size parse true saved (holds stored) "proj" id "codex" change 7).file in
    ((read_item size true after "proj" id).result ≡ ok changed)
    × ((q j : String)
        → id ≢ j
        → (read_item size true after q j).result ≡ (read_item size true (holds stored) q j).result)
update-read_item_example =
    update-read_item size parse true saved (holds stored) "proj" id "codex" change 7 changed updated

enough : (list restored "proj" 0 1).total < 3
unfolding list
enough = omega arith

list_complete_example :
    (follow 3 (λ o. list restored "proj" o 1) 0 ≡ rows restored "proj")
    × Perm (rows restored "proj") (retain (λ i. str_eq i.project "proj") (values restored))
list_complete_example = list_complete restored "proj" 1 3 (omega arith) enough
