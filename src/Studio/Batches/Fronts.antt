-- ===== src/Studio/Batches/Fronts.antt =====
-- The items of a batch with one of them moved to the front and numbered anew
-- (apps/ocr-studio/app/teaching/store.py, `prioritize_batch_item`).
use mathlib.Core.Path.{ap₂}
use mathlib.Core.Option.{some-injective}
use mathlib.Core.List.{Permᴰ}
use predixa_learn.Prelude.{
  ℕ, suc, ◌≤◌, ◌<◌, ◌≡◌, refl, ap, sym, subst, ◌∙◌, true, false, not, some, List, [], ◌∷◌, ◌++◌,
  map, length, first, All, Apart, keep, partition-perm, count, count-perm, IsStrict, Text, same,
  eq_of_same, arith, Bool-cases, inl, inr,
}
use predixa_learn.Studio.Batches.State.{at, Item, is_item, in_batch, position_rank}
use predixa_learn.Studio.Batches.Orders.{shift_position}
use predixa_learn.Studio.Batches.Swap.{IsApart, IsPlaced}
use predixa_learn.Studio.Batches.Shift.{rank-plus_thousand}
use predixa_learn.Studio.Batches.Renumber.{numbered, IsOther, IsFree}
use predixa_learn.Studio.Batches.Contracts.{count_up}

-- The items in the new order
abbrev pub ordered : Text → Item → List Item → List Item
ordered item i is = i ∷ keep (λ j. not (is_item item j)) is

none_left :
    (i : Item) (item : Text) (is : List Item)
    → i.item_id ≡ item
    → All (IsApart i) is
    → keep (is_item item) is ≡ []
unfolding keep
none_left i item [] e h = refl
none_left i item (j ∷ is) e h =
    simp (subst (λ x. is_item x j ≡ false) e h.0.0) (none_left i item is e h.1)

-- The rows with the id are the one that was found.
found_alone :
    (item : Text) (i : Item) (is : List Item)
    → Apart IsApart is
    → first (is_item item) is ≡ some i
    → keep (is_item item) is ≡ i ∷ []
unfolding keep first
found_alone item i [] a h = absurd (ground arith)
found_alone item i (j ∷ is) a h = elim (Bool-cases (is_item item j)) [
  | inl e ↦ simp e (
      ap₂ ◌∷◌ (some-injective j i (simp e at h))
        (none_left j item is (eq_of_same j.item_id item e) a.0))
  | inr e ↦ simp e (found_alone item i is a.1 (simp e at h))
]

pub ordered-perm :
    (item : Text) (i : Item) (is : List Item)
    → Apart IsApart is
    → first (is_item item) is ≡ some i
    → Permᴰ is (ordered item i is)
ordered-perm item i is a h =
    subst (λ js. Permᴰ is (js ++ keep (λ j. not (is_item item j)) is)) (found_alone item i is a h)
      (partition-perm (is_item item) is)

length-count : {A : Type 0} (xs : List A) → count (λ _. true) xs ≡ length xs
unfolding count
length-count [] = refl
length-count (x ∷ xs) = ap suc (length-count xs)

pub length-perm : {A : Type 0} {xs ys : List A} → Permᴰ xs ys → length xs ≡ length ys
length-perm {A} {xs} {ys} d = sym (length-count xs) ∙ count-perm (λ _. true) d ∙ length-count ys

pub ids-numbered :
    (n : ℕ) (is : List Item)
    → map (λ (i : Item). i.item_id) (numbered n is) ≡ map (λ (i : Item). i.item_id) is
ids-numbered n [] = refl
ids-numbered n (i ∷ is) = ap (◌∷◌ i.item_id) (ids-numbered (suc n) is)

pub positions-numbered :
    (n : ℕ) (is : List Item)
    → map (λ (i : Item). i.position) (numbered n is) ≡ count_up n (map (λ (i : Item). i.item_id) is)
positions-numbered n [] = refl
positions-numbered n (i ∷ is) = ap (◌∷◌ (at n)) (positions-numbered (suc n) is)

numbered_above : (k n : ℕ) (is : List Item) → k ≤ n → All (λ i. k < position_rank i) (numbered n is)
numbered_above k n [] l = tt
numbered_above k n (i ∷ is) l = (omega (arith, l), numbered_above k (suc n) is (omega (arith, l)))

pub numbered-IsStrict : (n : ℕ) (is : List Item) → IsStrict position_rank (numbered n is)
numbered-IsStrict n [] = tt
numbered-IsStrict n (i ∷ is) =
    (numbered_above (suc n) (suc n) is (omega arith), numbered-IsStrict (suc n) is)

pub numbered-in_batch :
    (id : Text) (n : ℕ) (is : List Item)
    → All (λ i. in_batch id i ≡ true) is
    → All (λ i. in_batch id i ≡ true) (numbered n is)
numbered-in_batch id n [] h = tt
numbered-in_batch id n (i ∷ is) h = (h.0, numbered-in_batch id (suc n) is h.1)

pub ids-keep :
    (item : Text) (is : List Item)
    → map (λ (i : Item). i.item_id) (keep (λ j. not (is_item item j)) is)
      ≡ keep (λ i. not (same i item)) (map (λ (i : Item). i.item_id) is)
unfolding keep
ids-keep item [] = refl
ids-keep item (i ∷ is) = ground (arith, ids-keep item is)

pub ids-Apart : (xs : List Item) → Apart IsApart xs → Apart IsOther xs
ids-Apart [] h = tt
ids-Apart (x ∷ xs) h = (fst_all xs h.0, ids-Apart xs h.1)
  where
    fst_all : (ys : List Item) → All (IsApart x) ys → All (IsOther x) ys
    fst_all [] k = tt
    fst_all (y ∷ ys) k = (k.0.0, fst_all ys k.1)

All-shifted :
    (x : Item) (ys others : List Item)
    → All (IsOther x) (ys ++ others)
    → All (IsOther (shift_position x)) (map shift_position ys ++ others)
All-shifted x [] others h = h
All-shifted x (y ∷ ys) others h = (h.0, All-shifted x ys others h.1)

pub Apart-shifted :
    (is others : List Item)
    → Apart IsOther (is ++ others)
    → Apart IsOther (map shift_position is ++ others)
Apart-shifted [] others h = h
Apart-shifted (i ∷ is) others h = (All-shifted i is others h.0, Apart-shifted is others h.1)

pub IsFree-shifted :
    (id : Text) (is : List Item) → All IsPlaced is → All (IsFree id 0) (map shift_position is)
IsFree-shifted id [] h = tt
IsFree-shifted id (i ∷ is) h =
    (ground (arith, h.0, rank-plus_thousand i.position), IsFree-shifted id is h.1)

pub IsFree-outside :
    (id : Text) (others : List Item)
    → All (λ i. in_batch id i ≡ false) others
    → All (IsFree id 0) others
IsFree-outside id [] h = tt
IsFree-outside id (i ∷ others) h = (ground (arith, h.0), IsFree-outside id others h.1)

pub batch_ids :
    (id : Text) (is : List Item)
    → All (λ i. in_batch id i ≡ true) is
    → All (λ (i : Item). i.batch_id ≡ id) is
batch_ids id [] h = tt
batch_ids id (i ∷ is) h = (eq_of_same i.batch_id id h.0, batch_ids id is h.1)
