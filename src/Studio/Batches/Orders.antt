-- ===== src/Studio/Batches/Orders.antt =====
-- Changing the order of a batch's items (apps/ocr-studio/app/teaching/store.py,
-- `reorder_batch_item` and `prioritize_batch_item`). Both read the batch on one connection and write on
-- another, so they take the table at the read and the table at the write. An answer is the table; the
-- item that the methods return is read from it.
use predixa_learn.Prelude.{
  ℕ, zero, suc, Bool, true, false, not, Option, none, some, List, [], ◌∷◌, if◌then◌else◌, get_elem?,
  keep, first, Text,
}
use predixa_learn.Studio.Batches.State.{
  BatchStatus, draft, queued, paused, ItemStatus, processing, Position, minus_one, at,
  plus_thousand, Item, Table, conflict, missing, invalid_value, Answer, refused, answered, and_then,
  is_item, in_batch, update_items, BatchView, get_batch, is_queued_item,
}

-- The direction -1, the direction 1, and every other number
pub data Direction : Type 0 where
  up down other : Direction

-- `batch["status"] in {"draft", "queued", "paused"}`
abbrev pub is_waiting : BatchStatus → Bool
is_waiting draft = true
is_waiting queued = true
is_waiting paused = true
is_waiting _ = false

abbrev pub is_processing_item : ItemStatus → Bool
is_processing_item processing = true
is_processing_item _ = false

abbrev pub set_position : Position → Item → Item
set_position p i = record i { position = p }

abbrev pub next_index : Option ℕ → Option ℕ
next_index none = none
next_index (some n) = some (suc n)

-- `next((offset for offset, item in enumerate(items) if …), None)`
unfoldable pub index_of : Text → List Item → Option ℕ
index_of id [] = none
index_of id (i ∷ is) =
    let rest = next_index (index_of id is) in if is_item id i then some 0 else rest

-- `items[index + direction]`, `none` where that is out of range
abbrev pub neighbour : Direction → ℕ → List Item → Option Item
neighbour up zero is = none
neighbour up (suc n) is = get_elem? is n
neighbour down n is = get_elem? is (suc n)
neighbour other n is = none

-- The three updates of the swap, in one transaction
unfoldable pub swap_positions : Item → Item → Table → Answer Table
swap_positions i j t = and_then (update_items (is_item i.item_id) (set_position minus_one) t) λ t.
    and_then (update_items (is_item j.item_id) (set_position i.position) t)
      (update_items (is_item i.item_id) (set_position j.position))

abbrev pub swap_with : Item → Option Item → Table → Answer Table
swap_with i none t = answered t
swap_with i (some j) t =
    if is_processing_item i.status
    then refused conflict
    else if is_processing_item j.status
    then refused conflict
    else swap_positions i j t

abbrev pub swap_at : Direction → ℕ → List Item → Option Item → Table → Answer Table
swap_at d n is none t = refused missing
swap_at d n is (some i) t = swap_with i (neighbour d n is) t

abbrev pub move_found : Direction → List Item → Option ℕ → Table → Answer Table
move_found d is none t = refused missing
move_found d is (some n) t = swap_at d n is (get_elem? is n) t

abbrev pub move_in : Text → Direction → Table → BatchView → Answer Table
move_in item d t b =
    if is_waiting b.header.status
    then move_found d b.items (index_of item b.items) t
    else refused conflict

-- `reorder_batch_item`
unfoldable pub reorder_batch_item : Text → Text → Direction → Table → Table → Answer Table
reorder_batch_item id item other before t = refused invalid_value
reorder_batch_item id item d before t = and_then (get_batch id before) (move_in item d t)

-- The `executemany` that numbers the items in order
unfoldable pub number_items : ℕ → List Item → Table → Answer Table
number_items n [] t = answered t
number_items n (i ∷ is) t =
    and_then (update_items (is_item i.item_id) (set_position (at n)) t) (number_items (suc n) is)

abbrev pub shift_position : Item → Item
shift_position i = record i { position = plus_thousand i.position }

unfoldable pub put_first : Text → Text → Item → List Item → Table → Answer Table
put_first id item i is t =
    and_then (update_items (in_batch id) shift_position t)
      (number_items 0 (i ∷ keep (λ j. not (is_item item j)) is))

abbrev pub first_found : Text → Text → List Item → Option Item → Table → Answer Table
first_found id item is none t = refused missing
first_found id item is (some i) t =
    if is_queued_item i.status then put_first id item i is t else refused conflict

abbrev pub prioritize_in : Text → Text → Table → BatchView → Answer Table
prioritize_in id item t b =
    if is_waiting b.header.status
    then first_found id item b.items (first (is_item item) b.items) t
    else refused conflict

-- `prioritize_batch_item`
unfoldable pub prioritize_batch_item : Text → Text → Table → Table → Answer Table
prioritize_batch_item id item before t = and_then (get_batch id before) (prioritize_in id item t)
