-- ===== src/Studio/Batches/Renumber.antt =====
-- The updates that number the items of a batch anew
-- (apps/ocr-studio/app/teaching/store.py, `prioritize_batch_item`).
use mathlib.Core.List.Permᴰ
use mathlib.Core.List.{Permᴰ}
use predixa_learn.Prelude.{
  ℕ, suc, ◌+◌, ◌≤◌, ◌≡◌, refl, ◌∙◌, false, ◌&&◌, List, [], ◌∷◌, ◌++◌, map, ltb, leb, All, All-perm,
  length, Apart, Apart-perm, Text, same_sym, arith,
}
use predixa_learn.Studio.Batches.State.{at, rank, Item, Table, is_item, in_batch}
use predixa_learn.Studio.Batches.Orders.{set_position, shift_position, number_items}
use predixa_learn.Studio.Batches.Rows.{HasRows, IsClear, move-HasRows}
use predixa_learn.Studio.Batches.Swap.{HasRows-then, HasRows-perm}

-- The items numbered from `n` on
abbrev pub numbered : ℕ → List Item → List Item
numbered n [] = []
numbered n (i ∷ is) = set_position (at n) i ∷ numbered (suc n) is

-- Two rows with different ids
abbrev pub IsOther : Item → Item → Type 0
IsOther x y = is_item x.item_id y ≡ false

IsOther-sym : (x y : Item) → IsOther x y → IsOther y x
IsOther-sym x y h = same_sym x.item_id y.item_id ∙ h

-- The row does not have a number from `n` to 999 in the batch.
abbrev pub IsFree : Text → ℕ → Item → Type 0
IsFree id n z = (in_batch id z && ltb n (rank z.position) && leb (rank z.position) 1000) ≡ false

free-IsClear :
    (id : Text) (n : ℕ) (x z : Item)
    → x.batch_id ≡ id
    → suc n ≤ 1000
    → IsOther x z
    → IsFree id n z
    → IsClear x (at n) z
free-IsClear id n x z e l h k = (h, rw e (ground (arith, k, l)))

All-IsClear :
    (id : Text) (n : ℕ) (x : Item) (zs : List Item)
    → x.batch_id ≡ id
    → suc n ≤ 1000
    → All (IsOther x) zs
    → All (IsFree id n) zs
    → All (IsClear x (at n)) zs
All-IsClear id n x [] e l h k = tt
All-IsClear id n x (z ∷ zs) e l h k =
    (free-IsClear id n x z e l h.0 k.0, All-IsClear id n x zs e l h.1 k.1)

still-IsFree :
    (id : Text) (n : ℕ) (zs : List Item) → All (IsFree id n) zs → All (IsFree id (suc n)) zs
still-IsFree id n [] h = tt
still-IsFree id n (z ∷ zs) h = (ground (arith, h.0), still-IsFree id n zs h.1)

-- The row that has its number goes to the rest.
turn : (x : Item) (js rest : List Item) → Permᴰ (x ∷ (js ++ rest)) (js ++ (x ∷ rest))
turn x js rest = Permᴰ.symm (Permᴰ.middle x js rest)

numbered-IsFree : (id : Text) (n : ℕ) (x : Item) → IsFree id (suc n) (set_position (at n) x)
numbered-IsFree id n x = ground arith

-- Numbering shifted items one after the other never meets the unique constraint.
pub number-HasRows :
    (id : Text) (n : ℕ) (is rest : List Item) (t : Table)
    → Permᴰ t.items (map shift_position is ++ rest)
    → All (λ (i : Item). i.batch_id ≡ id) is
    → Apart IsOther (map shift_position is ++ rest)
    → All (IsFree id n) (map shift_position is ++ rest)
    → n + length is ≤ 1000
    → HasRows t (numbered n is ++ rest) (number_items n is t)
unfolding number_items
number-HasRows id n [] rest t d b a f l = record {
  after = t;
  it = refl;
  rows = d;
  same_batches = refl;
}
number-HasRows id n (i ∷ is) rest t d b a f l =
    let x = set_position (at n) i in
    let later = map shift_position is in
    HasRows-then (number_items (suc n) is)
      (move-HasRows (shift_position i) (at n) (later ++ rest) t d
        (All-IsClear id n (shift_position i) (later ++ rest) b.0 (omega (arith, l)) a.0 f.1))
      λ t₁ d₁. HasRows-perm (Permᴰ.middle x (numbered (suc n) is) rest) (
        number-HasRows id (suc n) is (x ∷ rest) t₁ (Permᴰ.trans d₁ (turn x later rest)) b.1
          (Apart-perm IsOther IsOther-sym (turn x later rest) (a.0, a.1))
          (All-perm (IsFree id (suc n)) (turn x later rest)
            (numbered-IsFree id n i, still-IsFree id n (later ++ rest) f.1))
          (omega (arith, l)))
