-- ===== src/Studio/Batches/Reorder.antt =====
-- What `reorder_batch_item` does to a batch as it is read
-- (apps/ocr-studio/app/teaching/store.py).
use mathlib.Core.Option.{some-injective}
use mathlib.Core.List.Permᴰ
use mathlib.Core.List.{Permᴰ}
use predixa_learn.Prelude.{
  ℕ, zero, suc, ◌≡◌, refl, ap, sym, subst, ◌∙◌, Bool, true, false, ◌||◌, Option, none, some, List,
  [], ◌∷◌, ◌++◌, map, if◌then◌else◌, get_elem?, All, All-perm, length, first, IsStrict-keys,
  IsStrict, Text, eq_of_same, arith,
}
use predixa_learn.Studio.Batches.State.{
  Position, Item, Table, conflict, Answer, refused, answered, and_then, items_of, get_batch,
  with_header, is_batch, Batch, in_batch, position_rank, rank,
}
use predixa_learn.Studio.Batches.Orders.{
  Direction, up, down, other, is_waiting, is_processing_item, index_of, neighbour,
  reorder_batch_item, swap_positions, swap_with, swap_at, move_found, move_in, set_position,
}
use predixa_learn.Studio.Batches.Swap.{IsSound, IsSound-perm, HasRows-perm, swap-HasRows}
use predixa_learn.Studio.Batches.Rows.{HasRows}
use predixa_learn.Studio.Batches.Views.{
  view-perm, view-in_batch, view-IsStrict, view_of_rows, others_of,
}
use predixa_learn.Studio.Batches.Contracts.{
  Order, order_of_items, order_of, swapped, moved, exchange, exchange_at, exchange_in, reordered,
}

-- A list around two neighbours
pub record IsAround (n : ℕ) (x y : Item) (is : List Item) : Type 0 where
  pub before : List Item
  pub after : List Item
  pub it : is ≡ before ++ x ∷ y ∷ after
  pub place : length before ≡ n

around :
    (n : ℕ) (x y : Item) (is : List Item)
    → get_elem? is n ≡ some x
    → get_elem? is (suc n) ≡ some y
    → IsAround n x y is
around n x y [] h k = absurd (ground arith)
around zero x y (i ∷ []) h k = absurd (ground arith)
around zero x y (i ∷ j ∷ is) h k = record {
  before = [];
  after = is;
  it = rw (some-injective i x h, some-injective j y k) refl;
  place = refl;
}
around (suc n) x y (i ∷ is) h k =
    let a = around n x y is h k in
    record { before = i ∷ a.before; after = a.after; it = ap (◌∷◌ i) a.it; place = ap suc a.place }

swapped-around {ℓ} :
    {A : Type ℓ} (xs : List A) (x y : A) (ys : List A)
    → swapped (length xs) (xs ++ x ∷ y ∷ ys) ≡ xs ++ y ∷ x ∷ ys
swapped-around [] x y ys = refl
swapped-around (z ∷ []) x y ys = refl
swapped-around (z ∷ w ∷ xs) x y ys = ap (◌∷◌ z) (swapped-around (w ∷ xs) x y ys)

-- The two rows first, and the rest
front :
    (before : List Item) (x y : Item) (after : List Item)
    → Permᴰ (before ++ x ∷ y ∷ after) (x ∷ y ∷ (before ++ after))
front before x y after =
    Permᴰ.trans (Permᴰ.middle x before (y ∷ after)) (Permᴰ.cons refl (Permᴰ.middle y before after))

module _ (x y : Item) (after : List Item) where
  -- `y` and `x` at the positions of `x` and `y`
  abbrev exchanged : List Item → List Item
  exchanged before = before ++ set_position x.position y ∷ set_position y.position x ∷ after

  ids-exchanged :
      (before : List Item)
      → map (λ (i : Item). i.item_id) (exchanged before)
        ≡ swapped (length before) (map (λ (i : Item). i.item_id) (before ++ x ∷ y ∷ after))
  ids-exchanged [] = refl
  ids-exchanged (z ∷ []) = refl
  ids-exchanged (z ∷ w ∷ before) = ap (◌∷◌ z.item_id) (ids-exchanged (w ∷ before))

  module _ {ℓ} {A : Type ℓ} (f : Position → A) where
    positions-exchanged :
        (before : List Item)
        → map (λ (i : Item). f i.position) (before ++ x ∷ y ∷ after)
          ≡ map (λ (i : Item). f i.position) (exchanged before)
    positions-exchanged [] = refl
    positions-exchanged (z ∷ before) = ap (◌∷◌ (f z.position)) (positions-exchanged before)

abbrev pub read_order : Text → Answer Table → Answer Order
read_order id r = and_then r (λ t. answered (order_of id t))

-- What the swap of two neighbours does to the order
view-exchanged :
    (id : Text) (n : ℕ) (x y : Item) (t : Table) (r : Answer Table)
    → IsSound t.items
    → (a : IsAround n x y (items_of id t))
    → HasRows t
        (set_position y.position x
          ∷ set_position x.position y
          ∷ ((a.before ++ a.after) ++ others_of id t))
        r
    → read_order id r ≡ answered (swapped n (order_of id t).0, (order_of id t).1)
view-exchanged id n x y t r s a h =
    ap (read_order id) h.it ∙ ap (λ is. answered (order_of_items is)) viewed ∙ orders
  where
    inside : All (λ i. in_batch id i ≡ true) (a.before ++ x ∷ y ∷ a.after)
    inside = subst (All (λ i. in_batch id i ≡ true)) a.it (view-in_batch id t)

    viewed : items_of id h.after ≡ exchanged x y a.after a.before
    viewed =
        view_of_rows id t h.after
          (set_position y.position x ∷ set_position x.position y ∷ (a.before ++ a.after))
          (exchanged x y a.after a.before) h.rows
          (All-perm (λ i. in_batch id i ≡ true) (front a.before x y a.after) inside)
          (Permᴰ.trans (Permᴰ.swap refl refl) (
            Permᴰ.symm
              (front a.before (set_position x.position y) (set_position y.position x) a.after)))
          (IsStrict-keys position_rank (a.before ++ x ∷ y ∷ a.after)
            (exchanged x y a.after a.before) (positions-exchanged x y a.after rank a.before)
            (subst (IsStrict position_rank) a.it (view-IsStrict id t s)))

    orders :
        answered (order_of_items (exchanged x y a.after a.before))
        ≡ answered (swapped n (order_of id t).0, (order_of id t).1)
    orders =
        rw (a.it, sym a.place)
          λ k. answered (
            ids-exchanged x y a.after a.before k,
            sym (positions-exchanged x y a.after (λ p. p) a.before) k,
          )

module _ (id : Text) (n : ℕ) (x y : Item) (t : Table) (s : IsSound t.items)
    (a : IsAround n x y (items_of id t)) where
  rows-around : Permᴰ t.items (x ∷ y ∷ ((a.before ++ a.after) ++ others_of id t))
  rows-around =
      Permᴰ.trans (view-perm id t)
        (rw a.it (Permᴰ.append_right (others_of id t) (front a.before x y a.after)))

  one_batch : y.batch_id ≡ x.batch_id
  one_batch =
      let inside =
        All-perm (λ i. in_batch id i ≡ true) (front a.before x y a.after)
          (subst (All (λ i. in_batch id i ≡ true)) a.it (view-in_batch id t)) in
      eq_of_same y.batch_id id inside.1.0 ∙ sym (eq_of_same x.batch_id id inside.0)

  -- Either of two neighbours is exchanged with the other.
  swap_down :
      read_order id (swap_positions x y t)
      ≡ answered (swapped n (order_of id t).0, (order_of id t).1)
  swap_down = view-exchanged id n x y t (swap_positions x y t) s a (
      swap-HasRows x y ((a.before ++ a.after) ++ others_of id t) t rows-around
        (IsSound-perm rows-around s) one_batch)

  swap_up :
      read_order id (swap_positions y x t)
      ≡ answered (swapped n (order_of id t).0, (order_of id t).1)
  swap_up =
      let rows = Permᴰ.trans rows-around (Permᴰ.swap refl refl) in
      let h =
        swap-HasRows y x ((a.before ++ a.after) ++ others_of id t) t rows (IsSound-perm rows s)
          (sym one_batch) in
      view-exchanged id n x y t (swap_positions y x t) s a (HasRows-perm (Permᴰ.swap refl refl) h)

pub read-if :
    (id : Text) (b : Bool) (r : Answer Table) (o : Answer Order)
    → read_order id r ≡ o
    → read_order id (if b then r else refused conflict) ≡ (if b then o else refused conflict)
read-if id true r o h = h
read-if id false r o h = refl

module _ (id : Text) (t : Table) (s : IsSound t.items) where
  refused_either :
      (b c : Bool) (r : Answer Table) (o : Order)
      → read_order id r ≡ answered o
      → read_order id (if b then refused conflict else if c then refused conflict else r)
        ≡ (if b || c then refused conflict else answered o)
  refused_either true c r o h = refl
  refused_either false true r o h = refl
  refused_either false false r o h = h

  pair-exchanged :
      (d : Direction) (n : ℕ) (i j : Item)
      → get_elem? (items_of id t) n ≡ some i
      → neighbour d n (items_of id t) ≡ some j
      → read_order id (swap_positions i j t)
        ≡ answered (moved d n (order_of id t).0, (order_of id t).1)
  pair-exchanged up zero i j h k = absurd (ground arith)
  pair-exchanged up (suc n) i j h k = swap_up id n j i t s (around n j i (items_of id t) k h)
  pair-exchanged down n i j h k = swap_down id n i j t s (around n i j (items_of id t) h k)
  pair-exchanged other n i j h k = absurd (ground arith)

  neighbour-exchanged :
      (d : Direction) (n : ℕ) (i : Item) (o : Option Item)
      → get_elem? (items_of id t) n ≡ some i
      → neighbour d n (items_of id t) ≡ o
      → read_order id (swap_with i o t) ≡ exchange d n (items_of id t) (some i) o
  neighbour-exchanged d n i none h k = refl
  neighbour-exchanged d n i (some j) h k =
      refused_either (is_processing_item i.status) (is_processing_item j.status)
        (swap_positions i j t) (moved d n (order_of id t).0, (order_of id t).1)
        (pair-exchanged d n i j h k)

  place-exchanged :
      (d : Direction) (n : ℕ) (o : Option Item)
      → get_elem? (items_of id t) n ≡ o
      → read_order id (swap_at d n (items_of id t) o t)
        ≡ exchange d n (items_of id t) o (neighbour d n (items_of id t))
  place-exchanged d n none h = refl
  place-exchanged d n (some i) h = neighbour-exchanged d n i (neighbour d n (items_of id t)) h refl

  index-exchanged :
      (d : Direction) (o : Option ℕ)
      → read_order id (move_found d (items_of id t) o t) ≡ exchange_at d (items_of id t) o
  index-exchanged d none = refl
  index-exchanged d (some n) = place-exchanged d n (get_elem? (items_of id t) n) refl

  batch-exchanged :
      (item : Text) (d : Direction) (o : Option Batch)
      → read_order id (and_then (with_header id t o) (move_in item d t))
        ≡ and_then (with_header id t o) (exchange_in item d)
  batch-exchanged item d none = refl
  batch-exchanged item d (some b) =
      read-if id (is_waiting b.status)
        (move_found d (items_of id t) (index_of item (items_of id t)) t)
        (exchange_at d (items_of id t) (index_of item (items_of id t)))
        (index-exchanged d (index_of item (items_of id t)))

-- Moving an item up or down in a table whose ids and positions are unique exchanges it with its
-- neighbour in the batch as it is read, and keeps the sequence of the positions; it changes nothing at
-- either end, and fails just when the direction is not ±1, the batch is missing or not waiting, the
-- item is missing or one of the two is processing. So no update of it meets the unique constraint.
pub reorder_batch_item_refines :
    (id item : Text) (d : Direction) (t : Table)
    → IsSound t.items
    → and_then (reorder_batch_item id item d t t) (λ t'. answered (order_of id t'))
      ≡ reordered item d (get_batch id t)
unfolding reorder_batch_item get_batch
reorder_batch_item_refines id item up t s =
    batch-exchanged id t s item up (first (is_batch id) t.batches)
reorder_batch_item_refines id item down t s =
    batch-exchanged id t s item down (first (is_batch id) t.batches)
reorder_batch_item_refines id item other t s = refl
