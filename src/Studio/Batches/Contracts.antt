-- ===== src/Studio/Batches/Contracts.antt =====
-- What the two changes of a batch's order promise
-- (apps/ocr-studio/app/teaching/store.py, `reorder_batch_item` and `prioritize_batch_item`).
use predixa_learn.Prelude.{
  ℕ, zero, suc, ◌||◌, Option, none, some, List, [], ◌∷◌, map, if◌then◌else◌, get_elem?, first, Text,
  not, keep, same,
}
use predixa_learn.Studio.Batches.State.{
  Position, Item, Table, conflict, missing, invalid_value, Answer, refused, answered, and_then,
  BatchView, items_of, at, is_item, is_queued_item,
}
use predixa_learn.Studio.Batches.Orders.{
  Direction, up, down, other, is_waiting, is_processing_item, index_of, neighbour,
}

-- The ids of a batch's items by position, and the positions
abbrev pub Order : Type 0
Order = List Text × List Position

abbrev pub order_of_items : List Item → Order
order_of_items is = (map (λ (i : Item). i.item_id) is, map (λ (i : Item). i.position) is)

abbrev pub order_of : Text → Table → Order
order_of id t = order_of_items (items_of id t)

-- The list with its entries at `n` and `n + 1` exchanged
abbrev pub swapped {ℓ} : {A : Type ℓ} → ℕ → List A → List A
swapped n [] = []
swapped n (x ∷ []) = x ∷ []
swapped zero (x ∷ y ∷ r) = y ∷ x ∷ r
swapped (suc n) (x ∷ y ∷ r) = x ∷ swapped n (y ∷ r)

abbrev pub moved {ℓ} : {A : Type ℓ} → Direction → ℕ → List A → List A
moved up zero xs = xs
moved up (suc n) xs = swapped n xs
moved down n xs = swapped n xs
moved other n xs = xs

-- The exchange of the entry with the one beside it, where there is one
abbrev pub exchange : Direction → ℕ → List Item → Option Item → Option Item → Answer Order
exchange d n is none j = refused missing
exchange d n is (some i) none = answered (order_of_items is)
exchange d n is (some i) (some j) =
    if is_processing_item i.status || is_processing_item j.status
    then refused conflict
    else answered (moved d n (order_of_items is).0, (order_of_items is).1)

abbrev pub exchange_at : Direction → List Item → Option ℕ → Answer Order
exchange_at d is none = refused missing
exchange_at d is (some n) = exchange d n is (get_elem? is n) (neighbour d n is)

abbrev pub exchange_in : Text → Direction → BatchView → Answer Order
exchange_in item d b =
    if is_waiting b.header.status
    then exchange_at d b.items (index_of item b.items)
    else refused conflict

-- What a move of an item does to the order of a batch
abbrev pub reordered : Text → Direction → Answer BatchView → Answer Order
reordered item other b = refused invalid_value
reordered item d b = and_then b (exchange_in item d)

-- The positions from `n` on, one for each entry
abbrev pub count_up {ℓ} : {A : Type ℓ} → ℕ → List A → List Position
count_up n [] = []
count_up n (x ∷ xs) = at n ∷ count_up (suc n) xs

-- The list with one entry moved to the front
abbrev pub to_front : Text → List Text → List Text
to_front id ids = id ∷ keep (λ i. not (same i id)) ids

abbrev pub with_chosen : Text → List Item → Option Item → Answer Order
with_chosen item is none = refused missing
with_chosen item is (some i) =
    let ids = to_front item (order_of_items is).0 in
    if is_queued_item i.status then answered (ids, count_up 0 ids) else refused conflict

-- What processing an item next does to the order of a batch
abbrev pub prioritized : Text → BatchView → Answer Order
prioritized item b =
    if is_waiting b.header.status
    then with_chosen item b.items (first (is_item item) b.items)
    else refused conflict
