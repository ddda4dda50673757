-- ===== src/Studio/Batches/Swap.antt =====
-- The three updates of a swap (apps/ocr-studio/app/teaching/store.py, `reorder_batch_item`).
use mathlib.Core.List.{Permᴰ}
use predixa_learn.Prelude.{
  ℕ, ◌≤◌, ◌≡◌, refl, ap, sym, ◌∙◌, Bool, true, false, ◌&&◌, List, [], ◌∷◌, ◌==◌, All, All-perm,
  Apart, Apart-perm, Text, same, same_refl, same_sym, arith,
}
use predixa_learn.Studio.Batches.State.{minus_one, rank, Item, Table, Answer, and_then}
use predixa_learn.Studio.Batches.Orders.{set_position, swap_positions}
use predixa_learn.Studio.Batches.Rows.{HasRows, IsClear, move-HasRows}

-- Two rows with different ids and, in one batch, different positions
abbrev pub IsApart : Item → Item → Type 0
IsApart x y = IsClear x x.position y

pub IsApart-sym : (x y : Item) → IsApart x y → IsApart y x
IsApart-sym x y h =
    (same_sym x.item_id y.item_id ∙ h.0, ground (arith, h.1, same_sym x.batch_id y.batch_id))

-- The position is a number.
abbrev pub IsPlaced : Item → Type 0
IsPlaced x = 1 ≤ rank x.position

-- Ids are unique, positions are unique in each batch, and no position is -1.
pub record IsSound (is : List Item) : Type 0 where
  pub apart : Apart IsApart is
  pub placed : All IsPlaced is

pub IsSound-perm : {xs ys : List Item} → Permᴰ xs ys → IsSound xs → IsSound ys
IsSound-perm d h = record {
  apart = Apart-perm IsApart IsApart-sym d h.apart;
  placed = All-perm IsPlaced d h.placed;
}

-- What one row of the rest needs for the three updates
IsClear-below : (x z : Item) → IsApart x z → IsPlaced z → IsClear x minus_one z
IsClear-below x z h k = (h.0, ground (arith, k))

IsClear-beside :
    (x y z : Item) → y.batch_id ≡ x.batch_id → IsApart x z → IsApart y z → IsClear x y.position z
IsClear-beside x y z e h k = (h.0, rw (sym e) k.1)

All-below :
    (x : Item) (zs : List Item)
    → All (IsApart x) zs
    → All IsPlaced zs
    → All (IsClear x minus_one) zs
All-below x [] h k = tt
All-below x (z ∷ zs) h k = (IsClear-below x z h.0 k.0, All-below x zs h.1 k.1)

All-beside :
    (x y : Item) (zs : List Item)
    → y.batch_id ≡ x.batch_id
    → All (IsApart x) zs
    → All (IsApart y) zs
    → All (IsClear x y.position) zs
All-beside x y [] e h k = tt
All-beside x y (z ∷ zs) e h k = (IsClear-beside x y z e h.0 k.0, All-beside x y zs e h.1 k.1)

pub HasRows-perm :
    {t : Table} {is js : List Item} {r : Answer Table}
    → Permᴰ is js
    → HasRows t is r
    → HasRows t js r
HasRows-perm d h = record {
  after = h.after;
  it = h.it;
  rows = Permᴰ.trans h.rows d;
  same_batches = h.same_batches;
}

-- The second of two statements
pub HasRows-then :
    {t : Table} {is js : List Item} {r : Answer Table} (next : Table → Answer Table)
    → HasRows t is r
    → ((t' : Table) → Permᴰ t'.items is → HasRows t' js (next t'))
    → HasRows t js (and_then r next)
HasRows-then {t} {is} {js} {r} next h k =
    let h' = k h.after h.rows in
    record {
      after = h'.after;
      it = ap (λ a. and_then a next) h.it ∙ h'.it;
      rows = h'.rows;
      same_batches = h'.same_batches ∙ h.same_batches;
    }

other_rank : (b c : Text) (m n : ℕ) → c ≡ b → (same c b && n == m) ≡ false → (m == n) ≡ false
other_rank b c m n e h = ground (arith, h, same_text)
  where
    same_text : same c b ≡ true
    same_text = rw e (same_refl b)

unless_both : (a b : Bool) → b ≡ false → (a && b) ≡ false
unless_both a b h = ground arith

no_rank : (a : Bool) (n : ℕ) → 1 ≤ n → (a && 0 == n) ≡ false
no_rank a n h = ground arith

-- The swap exchanges the positions of two rows of a batch, and leaves the other rows.
pub swap-HasRows :
    (i j : Item) (rest : List Item) (t : Table)
    → Permᴰ t.items (i ∷ j ∷ rest)
    → IsSound (i ∷ j ∷ rest)
    → j.batch_id ≡ i.batch_id
    → HasRows t
        (set_position j.position i ∷ set_position i.position j ∷ rest)
        (swap_positions i j t)
unfolding swap_positions
swap-HasRows i j rest t d s e =
    let below = All-below i (j ∷ rest) s.apart.0 s.placed.1 in
    HasRows-then _ (move-HasRows i minus_one (j ∷ rest) t d below) λ t₁ d₁.
      HasRows-then _
        (move-HasRows j i.position (set_position minus_one i ∷ rest) t₁
          (Permᴰ.trans d₁ (Permᴰ.swap refl refl))
          (
            ((IsApart-sym i j s.apart.0.0).0, no_rank _ (rank i.position) s.placed.0),
            All-beside j i rest (sym e) s.apart.1.0 s.apart.0.1,
          ))
        λ t₂ d₂.
          move-HasRows (set_position minus_one i) j.position (set_position i.position j ∷ rest) t₂
            (Permᴰ.trans d₂ (Permᴰ.swap refl refl))
            (
              (
                s.apart.0.0.0,
                unless_both (same j.batch_id i.batch_id) _ (
                    other_rank i.batch_id j.batch_id (rank i.position) (rank j.position) e
                      s.apart.0.0.1),
              ),
              All-beside i j rest e s.apart.0.1 s.apart.1.0,
            )
