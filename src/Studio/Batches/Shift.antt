-- ===== src/Studio/Batches/Shift.antt =====
-- The update that moves every item of a batch a thousand positions up
-- (apps/ocr-studio/app/teaching/store.py, `prioritize_batch_item`).
use mathlib.Core.List.{Permᴰ, append-nil}
use predixa_learn.Prelude.{
  ◌+◌, ◌≤◌, ◌≡◌, refl, ap, subst, ◌∙◌, Bool, true, false, ◌||◌, List, [], ◌∷◌, ◌++◌, map,
  if◌then◌else◌, All, All-join, any, any_none, keep, keep-append, keep-All, keep_none, Apart, Text,
  same_refl, same_sym, eq_of_same, arith,
}
use predixa_learn.Studio.Batches.State.{
  Position, rank, plus_thousand, minus_one, at, Item, Table, in_batch, collides, set_rows,
  update_items,
}
use predixa_learn.Studio.Batches.Orders.{shift_position}
use predixa_learn.Studio.Batches.Rows.{HasRows, clash, update-HasRows}
use predixa_learn.Studio.Batches.Swap.{IsApart}

pub rank-plus_thousand : (p : Position) → rank (plus_thousand p) ≡ rank p + 1000
rank-plus_thousand minus_one = refl
rank-plus_thousand (at n) = omega arith

-- Rows that are one or do not collide
abbrev IsAllowed : Item → Item → Type 0
IsAllowed x y = collides x y ≡ false

IsAllowed-self : (x : Item) → IsAllowed x x
unfolding collides
IsAllowed-self x = ground (arith, same_refl x.item_id)

IsAllowed-apart : (x y : Item) → IsApart x y → IsAllowed x y
unfolding collides
IsAllowed-apart x y h = ground (arith, h.1)

IsAllowed-sym : (x y : Item) → IsAllowed x y → IsAllowed y x
unfolding collides
IsAllowed-sym x y h =
    ground (arith, h, same_sym x.item_id y.item_id, same_sym x.batch_id y.batch_id)

module _ (x : Item) where
  All-apart : (ys : List Item) → All (IsApart x) ys → All (IsAllowed x) ys
  All-apart [] h = tt
  All-apart (y ∷ ys) h = (IsAllowed-apart x y h.0, All-apart ys h.1)

  with_first :
      (ys zs : List Item)
      → All (IsAllowed x) ys
      → All (λ y. All (IsAllowed y) zs) ys
      → All (λ y. All (IsAllowed y) (x ∷ zs)) ys
  with_first [] zs h k = tt
  with_first (y ∷ ys) zs h k = ((IsAllowed-sym x y h.0, k.0), with_first ys zs h.1 k.1)

-- No two rows of a sound table collide.
All-IsAllowed : (xs : List Item) → Apart IsApart xs → All (λ x. All (IsAllowed x) xs) xs
All-IsAllowed [] h = tt
All-IsAllowed (x ∷ xs) h =
    let others = All-apart x xs h.0 in
    ((IsAllowed-self x, others), with_first x xs xs others (All-IsAllowed xs h.1))

shift-IsAllowed : (x y : Item) → IsAllowed x y → IsAllowed (shift_position x) (shift_position y)
unfolding collides
shift-IsAllowed x y h =
    ground (arith, h, rank-plus_thousand x.position, rank-plus_thousand y.position)

-- A shifted row and one that is not shifted, whose position is below a thousand
shift_above :
    (x y : Item) → rank y.position ≤ 1000 → 1 ≤ rank x.position → IsAllowed (shift_position x) y
unfolding collides
shift_above x y h k = ground (arith, h, k, rank-plus_thousand x.position)

shift_outside :
    (id : Text) (x y : Item)
    → in_batch id x ≡ true
    → in_batch id y ≡ false
    → IsAllowed (shift_position x) y
unfolding collides
shift_outside id x y h k = rw (eq_of_same x.batch_id id h) (ground (arith, k))

module _ (id : Text) (x : Item) where
  shifted_apart :
      (ys : List Item)
      → All (IsAllowed x) ys
      → All (IsAllowed (shift_position x)) (map shift_position ys)
  shifted_apart [] h = tt
  shifted_apart (y ∷ ys) h = (shift-IsAllowed x y h.0, shifted_apart ys h.1)

  shifted_above :
      (ys : List Item)
      → 1 ≤ rank x.position
      → All (λ (y : Item). rank y.position ≤ 1000) ys
      → All (IsAllowed (shift_position x)) ys
  shifted_above [] k h = tt
  shifted_above (y ∷ ys) k h = (shift_above x y h.0 k, shifted_above ys k h.1)

  shifted_outside :
      (ys : List Item)
      → in_batch id x ≡ true
      → All (λ y. in_batch id y ≡ false) ys
      → All (IsAllowed (shift_position x)) ys
  shifted_outside [] k h = tt
  shifted_outside (y ∷ ys) k h = (shift_outside id x y k h.0, shifted_outside ys k h.1)

module _ (id : Text) (is others : List Item) (outside : All (λ i. in_batch id i ≡ false) others)
    (low : All (λ (i : Item). rank i.position ≤ 1000) is) where
  -- The check of one shifted row
  abbrev check : Item → Bool
  check x = any (collides x) (is ++ others) || any (collides x) (map shift_position is ++ others)

  check_row :
      (x : Item)
      → in_batch id x ≡ true
      → 1 ≤ rank x.position
      → All (IsAllowed x) is
      → check (shift_position x) ≡ false
  check_row x b k h =
      let apart = shifted_outside id x others b outside in
      rw
        (
          any_none (collides (shift_position x)) (is ++ others) (
              All-join (IsAllowed (shift_position x)) is others (shifted_above id x is k low)
                apart),
          any_none (collides (shift_position x)) (map shift_position is ++ others) (
              All-join (IsAllowed (shift_position x)) (map shift_position is) others
                (shifted_apart id x is h) apart),
        )
        refl

  check_rows :
      (xs : List Item)
      → All (λ i. in_batch id i ≡ true) xs
      → All (λ (i : Item). 1 ≤ rank i.position) xs
      → All (λ x. All (IsAllowed x) is) xs
      → any check (map shift_position xs) ≡ false
  unfolding any
  check_rows [] b k h = refl
  check_rows (x ∷ xs) b k h = simp (check_row x b.0 k.0 h.0) (check_rows xs b.1 k.1 h.1)

set_inside :
    (id : Text) (xs : List Item)
    → All (λ i. in_batch id i ≡ true) xs
    → set_rows (in_batch id) shift_position xs ≡ map shift_position xs
unfolding set_rows
set_inside id [] h = refl
set_inside id (x ∷ xs) h = simp h.0 (ap (◌∷◌ (shift_position x)) (set_inside id xs h.1))

set_outside :
    (id : Text) (xs : List Item)
    → All (λ i. in_batch id i ≡ false) xs
    → set_rows (in_batch id) shift_position xs ≡ xs
unfolding set_rows
set_outside id [] h = refl
set_outside id (x ∷ xs) h = simp h.0 (ap (◌∷◌ x) (set_outside id xs h.1))

set-append :
    (p : Item → Bool) (f : Item → Item) (xs ys : List Item)
    → set_rows p f (xs ++ ys) ≡ set_rows p f xs ++ set_rows p f ys
unfolding set_rows
set-append p f [] ys = refl
set-append p f (x ∷ xs) ys = ap (◌∷◌ (if p x then f x else x)) (set-append p f xs ys)

-- The shift of a batch whose positions are below a thousand succeeds, and leaves the other batches.
pub shift-HasRows :
    (id : Text) (is others : List Item) (t : Table)
    → Permᴰ t.items (is ++ others)
    → All (λ i. in_batch id i ≡ true) is
    → All (λ i. in_batch id i ≡ false) others
    → All (λ (i : Item). rank i.position ≤ 1000) is
    → All (λ (i : Item). 1 ≤ rank i.position) is
    → Apart IsApart is
    → HasRows t (map shift_position is ++ others) (update_items (in_batch id) shift_position t)
shift-HasRows id is others t d inside outside low placed apart =
    subst (λ js. HasRows t js (update_items (in_batch id) shift_position t)) rows
      (update-HasRows (in_batch id) shift_position t (is ++ others) d clear)
  where
    rows : set_rows (in_batch id) shift_position (is ++ others) ≡ map shift_position is ++ others
    rows =
        set-append (in_batch id) shift_position is others
        ∙ rw (set_inside id is inside, set_outside id others outside) refl

    kept : keep (in_batch id) (is ++ others) ≡ is
    kept =
        keep-append (in_batch id) is others
        ∙ rw (keep-All (in_batch id) is inside, keep_none (in_batch id) others outside)
            (append-nil is)

    clear : clash (in_batch id) shift_position (is ++ others) ≡ false
    clear =
        rw (rows, kept)
          (check_rows id is others outside low is inside placed (All-IsAllowed is apart))
