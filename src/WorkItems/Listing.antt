-- ===== src/WorkItems/Listing.antt =====
-- sigiledd/src/work_items.rs, `Store::list`: a project's items, newest first, page by page. The
-- comparison is `sort_by`'s closure; the sort is an insertion sort. `serde_json`'s values become
-- a record. Offsets are far below 2^64, so their sum does not wrap.
pub mod Paging
use Prim.Native.String.{compare}
use Prim.Native.Nat.{Ordering, compare as compare_ℕ}
use sigiled.Base.{
  ℕ, zero, suc, ◌+◌, String, Bool, true, false, Option, none, some, List, [], ◌∷◌, ltb,
  if◌then◌else◌, str_eq, retain, take, drop, length, values,
}
use sigiled.WorkItems.Items.{Item, Data}

then_by : Ordering → Ordering → Ordering
then_by Ordering.eq o = o
then_by o p = o

-- `b.updated_at.cmp(&a.updated_at).then(a.id.cmp(&b.id))`.
unfoldable pub item_order : Item → Item → Ordering
unfolding then_by
item_order a b = then_by (compare_ℕ b.updated_at a.updated_at) (compare a.id b.id)

abbrev pub is_after : Ordering → Bool
is_after Ordering.gt = true
is_after _ = false

-- Goes behind the items that it does not precede.
unfoldable pub place : Item → List Item → List Item
unfolding item_order
place a [] = a ∷ []
place a (b ∷ bs) =
    let rest = place a bs in if is_after (item_order a b) then b ∷ rest else a ∷ (b ∷ bs)

unfoldable pub sort : List Item → List Item
unfolding place
sort [] = []
sort (a ∷ more) = place a (sort more)

unfoldable pub rows : Data → String → List Item
unfolding sort
rows items project = sort (retain (λ i. str_eq i.project project) (values items))

pub record Page : Type 0 where
  pub items : List Item
  pub total : ℕ
  pub offset : ℕ
  pub limit : ℕ
  pub next_offset : Option ℕ

-- The page of sorted rows.
unfoldable pub page_of : List Item → ℕ → ℕ → Page
page_of all offset limit = record {
  items = take limit (drop offset all);
  total = length all;
  offset = offset;
  limit = limit;
  next_offset = if ltb (offset + limit) (length all) then some (offset + limit) else none;
}

unfoldable pub list : Data → String → ℕ → ℕ → Page
unfolding rows page_of
list items project offset limit = page_of (rows items project) offset limit
