-- ===== src/Studio/Batches/Prioritize.antt =====
-- What `prioritize_batch_item` does to a batch as it is read
-- (apps/ocr-studio/app/teaching/store.py).
use mathlib.Core.Path.{ap₂}
use mathlib.Core.List.Permᴰ
use mathlib.Core.List.{Permᴰ}
use predixa_learn.Prelude.{
  ◌≤◌, ◌≡◌, refl, ap, ◌∙◌, true, Option, none, some, List, ◌∷◌, ◌++◌, map, length, first,
  first_holds, All, All-perm, All-join, All-left, Apart-perm, Apart-left, Text, eq_of_same, arith,
}
use predixa_learn.Studio.Batches.State.{
  rank, Item, Batch, Table, answered, and_then, items_of, get_batch, with_header, is_batch, is_item,
  in_batch, is_queued_item,
}
use predixa_learn.Studio.Batches.Orders.{
  is_waiting, shift_position, number_items, put_first, first_found, prioritize_in,
  prioritize_batch_item,
}
use predixa_learn.Studio.Batches.Swap.{
  IsApart, IsApart-sym, IsSound, IsSound-perm, IsPlaced, HasRows-then,
}
use predixa_learn.Studio.Batches.Rows.{HasRows}
use predixa_learn.Studio.Batches.Views.{
  view-perm, view-in_batch, view_of_rows, others_of, others_out,
}
use predixa_learn.Studio.Batches.Shift.{shift-HasRows}
use predixa_learn.Studio.Batches.Renumber.{numbered, IsFree, number-HasRows}
use predixa_learn.Studio.Batches.Reorder.{read_order, read-if}
use predixa_learn.Studio.Batches.Contracts.{
  order_of_items, order_of, count_up, to_front, with_chosen, prioritized,
}
use predixa_learn.Studio.Batches.Fronts.{
  ordered, ordered-perm, length-perm, ids-numbered, positions-numbered, numbered-IsStrict,
  numbered-in_batch, ids-keep, ids-Apart, Apart-shifted, IsFree-shifted, IsFree-outside, batch_ids,
}

module _ (id item : Text) (t : Table) (s : IsSound t.items)
    (low : All (λ (i : Item). rank i.position ≤ 1000) (items_of id t))
    (few : length (items_of id t) ≤ 1000) where
  chosen_order :
      (i : Item)
      → first (is_item item) (items_of id t) ≡ some i
      → Permᴰ (items_of id t) (ordered item i (items_of id t))
  chosen_order i h =
      ordered-perm item i (items_of id t)
        (Apart-left IsApart (items_of id t) (others_of id t)
          (Apart-perm IsApart IsApart-sym (view-perm id t) s.apart))
        h

  put-HasRows :
      (i : Item)
      → first (is_item item) (items_of id t) ≡ some i
      → HasRows t
          (numbered 0 (ordered item i (items_of id t)) ++ others_of id t)
          (put_first id item i (items_of id t) t)
  unfolding put_first
  put-HasRows i h =
      HasRows-then (number_items 0 new)
        (shift-HasRows id new outer t rows inside (others_out id t.items) (All-perm _ order low)
          (All-left IsPlaced new outer sound.placed) (Apart-left IsApart new outer sound.apart))
        λ t₁ d₁.
          number-HasRows id 0 new outer t₁ d₁ (batch_ids id new inside)
            (Apart-shifted new outer (ids-Apart (new ++ outer) sound.apart))
            (All-join (IsFree id 0) (map shift_position new) outer
              (IsFree-shifted id new (All-left IsPlaced new outer sound.placed))
              (IsFree-outside id outer (others_out id t.items)))
            (omega (arith, few, length-perm order))
    where
      new : List Item
      new = ordered item i (items_of id t)

      outer : List Item
      outer = others_of id t

      order : Permᴰ (items_of id t) new
      order = chosen_order i h

      rows : Permᴰ t.items (new ++ outer)
      rows = Permᴰ.trans (view-perm id t) (Permᴰ.append_right outer order)

      sound : IsSound (new ++ outer)
      sound = IsSound-perm rows s

      inside : All (λ j. in_batch id j ≡ true) new
      inside = All-perm _ order (view-in_batch id t)

  order-put :
      (i : Item)
      → first (is_item item) (items_of id t) ≡ some i
      → i.item_id ≡ item
      → read_order id (put_first id item i (items_of id t) t)
        ≡ answered (to_front item (order_of id t).0, count_up 0 (to_front item (order_of id t).0))
  order-put i h e =
      ap (read_order id) (put-HasRows i h).it
      ∙ ap (λ is. answered (order_of_items is)) viewed
      ∙ λ k.
          answered
            ((ids-numbered 0 new ∙ ids) k, (positions-numbered 0 new ∙ ap (count_up 0) ids) k)
    where
      new : List Item
      new = ordered item i (items_of id t)

      ids : map (λ (j : Item). j.item_id) new ≡ to_front item (order_of id t).0
      ids = ap₂ ◌∷◌ e (ids-keep item (items_of id t))

      viewed : items_of id (put-HasRows i h).after ≡ numbered 0 new
      viewed =
          view_of_rows id t (put-HasRows i h).after (numbered 0 new) (numbered 0 new)
            (put-HasRows i h).rows
            (numbered-in_batch id 0 new (All-perm _ (chosen_order i h) (view-in_batch id t)))
            (Permᴰ.refl (numbered 0 new)) (numbered-IsStrict 0 new)

  chosen :
      (o : Option Item)
      → first (is_item item) (items_of id t) ≡ o
      → read_order id (first_found id item (items_of id t) o t) ≡ with_chosen item (items_of id t) o
  chosen none h = refl
  chosen (some i) h =
      read-if id (is_queued_item i.status) (put_first id item i (items_of id t) t) _
        (order-put i h (eq_of_same i.item_id item (first_holds (is_item item) (items_of id t) i h)))

  batch-prioritized :
      (o : Option Batch)
      → read_order id (and_then (with_header id t o) (prioritize_in id item t))
        ≡ and_then (with_header id t o) (prioritized item)
  batch-prioritized none = refl
  batch-prioritized (some b) =
      read-if id (is_waiting b.status) _ _ (chosen (first (is_item item) (items_of id t)) refl)

-- In a table whose ids and positions are unique, where the batch has at most a thousand items, all at
-- positions below a thousand, processing an item next moves it to the front of the batch as it is read
-- and numbers the batch from 0 on; it fails just when the batch is missing or not waiting, or the item
-- is missing or not queued. So none of its updates meets the unique constraint.
pub prioritize_batch_item_refines :
    (id item : Text) (t : Table)
    → IsSound t.items
    → All (λ (i : Item). rank i.position ≤ 1000) (items_of id t)
    → length (items_of id t) ≤ 1000
    → and_then (prioritize_batch_item id item t t) (λ t'. answered (order_of id t'))
      ≡ and_then (get_batch id t) (prioritized item)
unfolding prioritize_batch_item get_batch
prioritize_batch_item_refines id item t s low few =
    batch-prioritized id item t s low few (first (is_batch id) t.batches)
