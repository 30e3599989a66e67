-- ===== src/WorkItems/Durability.antt =====
-- What a caller may rely on after a reply: the file behind `create` and `update` of
-- sigiledd/src/work_items.rs.
use sigiled.Base.{
  ℕ, ◌≡◌, ◌≢◌, refl, String, Bool, true, false, Option, some, inl, inr, arith, eq_iff, get,
  get-insert,
}
use sigiled.WorkItems.Items.{
  Item, Create, Update, Error, Result, ok, err, ◌>>=◌, ◌>>◌, guard, is_uuid, invalid_id, Data, Url,
  validate, save_uncertain,
}
use sigiled.WorkItems.Store.{
  create_in, update_in, find, File, SaveReply, missing, unreadable, oversized, malformed, no_folder,
  not_written, not_synced, saved, holds, Outcome, finish, transaction, create, update, read_item,
  read_data, before,
}
use sigiled.WorkItems.Changes.{create_in-cases, update_in_lem, create_in_others, update_in_others}

module _ {ℓ} {A : Type ℓ} (size : Data → ℕ) where
  finish-failed :
      (reply : SaveReply) (file : File) (r : Result (A × Data)) (e : Error)
      → (finish size true reply file r).result ≡ err e
      → e ≢ save_uncertain
      → (finish size true reply file r).file ≡ file
  unfolding finish
  finish-failed reply file (err x) e h d = refl
  finish-failed no_folder file (ok (a, items)) e h d = refl
  finish-failed not_written file (ok (a, items)) e h d = ground arith
  finish-failed not_synced file (ok (a, items)) e h d = ground arith
  finish-failed saved file (ok (a, items)) e h d = ground arith

  finish-done :
      (reply : SaveReply) (file : File) (r : Result (A × Data)) (a : A)
      → (finish size true reply file r).result ≡ ok a
      → (after : Data) × (r ≡ ok (a, after)) × ((finish size true reply file r).file ≡ holds after)
  unfolding finish
  finish-done reply file (err x) a h = cc
  finish-done no_folder file (ok (b, items)) a h = cc
  finish-done not_written file (ok (b, items)) a h = absurd (ground arith)
  finish-done not_synced file (ok (b, items)) a h = absurd (ground arith)
  finish-done saved file (ok (b, items)) a h = (items, ground arith, ground arith)

  bind_data :
      (r : Result Data) (f : Data → Result (A × Data)) (a : A) (after : Data)
      → (r >>= f) ≡ ok (a, after)
      → (items : Data) × (r ≡ ok items) × (f items ≡ ok (a, after))
  bind_data (err e) f a after h = cc
  bind_data (ok items) f a after h = (items, refl, h)

  -- A transaction that fails leaves the file as it was, unless the failure says that the save is
  -- uncertain.
  pub transaction-failed :
      (configured : Bool) (reply : SaveReply) (file : File) (f : Data → Result (A × Data))
      (e : Error)
      → (transaction size configured true reply file f).result ≡ err e
      → e ≢ save_uncertain
      → (transaction size configured true reply file f).file ≡ file
  unfolding transaction
  transaction-failed false reply file f e h d = refl
  transaction-failed true reply file f e h d = finish-failed reply file (read_data file >>= f) e h d

  -- A transaction that succeeds has run on the data that the file held, and leaves the file with
  -- the data that it made.
  pub transaction-done :
      (configured : Bool) (reply : SaveReply) (file : File) (f : Data → Result (A × Data)) (a : A)
      → (transaction size configured true reply file f).result ≡ ok a
      → (items after : Data) × (configured ≡ true)
        × (read_data file ≡ ok items)
        × (f items ≡ ok (a, after))
        × ((transaction size configured true reply file f).file ≡ holds after)
  unfolding transaction
  transaction-done false reply file f a h = cc
  transaction-done true reply file f a h =
      let (after, made, written) = finish-done reply file (read_data file >>= f) a h in
      let (items, held, ran) = bind_data (read_data file) f a after made in
      (items, after, refl, held, ran, written)

before-ok :
    (file : File) (r : Result (Unit {0})) (out : Outcome Item) (item : Item)
    → (before file r out).result ≡ ok item
    → before file r out ≡ out
unfolding before
before-ok file (ok u) out item h = refl
before-ok file (err e) out item h = cc

read_item-holds :
    (size : Data → ℕ) (items : Data) (project id : String) (item : Item)
    → find items project id ≡ ok item
    → (read_item size true (holds items) project id).result ≡ ok item
unfolding read_item
read_item-holds size items project id item h = ground arith

find_put :
    (items : Data) (project id : String) (item : Item)
    → get id items ≡ some item
    → item.project ≡ project
    → find items project id ≡ ok item
unfolding find
find_put items project id item h p = ground (arith, eq_iff item.project project)

create_in_there :
    (project actor : String) (body : Create) (now : ℕ) (items after : Data) (item : Item)
    → create_in project actor body now items ≡ ok (item, after)
    → find after project body.id ≡ ok item
create_in_there project actor body now items after item h =
    elim (create_in-cases project actor body now items after item h) [
      | inl (same, there, own) ↦ find_put after project body.id item (rw same there) own
      | inr (free, room, made, put) ↦
          find_put after project body.id item
            (rw put (ground (arith, get-insert body.id body.id item items, eq_iff body.id body.id)))
            (rw made)
    ]

update_in_there :
    (project id actor : String) (body : Update) (now : ℕ) (items after : Data) (item : Item)
    → update_in project id actor body now items ≡ ok (item, after)
    → find after project id ≡ ok item
update_in_there project id actor body now items after item h =
    let (old, at, owner, current, room, made, put) =
      update_in_lem project id actor body now items after item h in
    find_put after project id item
      (rw put (ground (arith, get-insert id id item items, eq_iff id id))) (rw made owner)

read_item_same :
    (size : Data → ℕ) (file : File) (items after : Data) (project id : String)
    → read_data file ≡ ok items
    → get id after ≡ get id items
    → (read_item size true (holds after) project id).result
      ≡ (read_item size true file project id).result
unfolding read_item transaction finish read_data find
read_item_same size missing items after project id h e = ground arith
read_item_same size unreadable items after project id h e = ground arith
read_item_same size oversized items after project id h e = ground arith
read_item_same size malformed items after project id h e = ground arith
read_item_same size (holds x) items after project id h e = ground arith

module _ (size : Data → ℕ) (parse : String → Option Url) where
  -- Where `create` answers with an item, a read of the file that it leaves
  -- finds that item under the id and the project of the call; and under any other id it answers,
  -- in every project, as a read of the file before the call does.
  pub create-read_item :
      (configured : Bool) (reply : SaveReply) (file : File) (project actor : String) (body : Create)
      (now : ℕ) (item : Item)
      → (create size parse configured reply file project actor body now).result ≡ ok item
      → ((read_item size configured
            (create size parse configured reply file project actor body now).file
            project
            body.id).result
          ≡ ok item)
        × ((q j : String)
            → body.id ≢ j
            → (read_item size configured
                (create size parse configured reply file project actor body now).file
                q
                j).result
              ≡ (read_item size configured file q j).result)
  unfolding create
  create-read_item configured reply file project actor body now item h =
      let same =
        before-ok file (do validate parse body.fields; guard (is_uuid body.id) invalid_id)
          (transaction size configured true reply file (create_in project actor body now)) item h in
      let (items, after, on, held, ran, written) =
        transaction-done size configured reply file (create_in project actor body now) item
          (rw same at h) in
      (
        rw (same, written, on)
            (read_item-holds size after project body.id item
              (create_in_there project actor body now items after item ran)),
        λ q j other.
            rw (same, written, on)
              (read_item_same size file items after q j held
                (create_in_others project actor body now items after item j ran other)),
      )

  -- Where `update` answers with an item, a read of the file that it leaves
  -- finds that item under the id and the project of the call; and under any other id it answers,
  -- in every project, as a read of the file before the call does.
  pub update-read_item :
      (configured : Bool) (reply : SaveReply) (file : File) (project id actor : String)
      (body : Update) (now : ℕ) (item : Item)
      → (update size parse configured reply file project id actor body now).result ≡ ok item
      → ((read_item size configured
            (update size parse configured reply file project id actor body now).file
            project
            id).result
          ≡ ok item)
        × ((q j : String)
            → id ≢ j
            → (read_item size configured
                (update size parse configured reply file project id actor body now).file
                q
                j).result
              ≡ (read_item size configured file q j).result)
  unfolding update
  update-read_item configured reply file project id actor body now item h =
      let same =
        before-ok file (validate parse body.fields)
          (transaction size configured true reply file (update_in project id actor body now)) item
          h in
      let (items, after, on, held, ran, written) =
        transaction-done size configured reply file (update_in project id actor body now) item
          (rw same at h) in
      (
        rw (same, written, on)
            (read_item-holds size after project id item
              (update_in_there project id actor body now items after item ran)),
        λ q j other.
            rw (same, written, on)
              (read_item_same size file items after q j held
                (update_in_others project id actor body now items after item j ran other)),
      )
