-- ===== src/Studio/Batches/Views.antt =====
-- A batch as it is read, by position, against the rows of the table
-- (apps/ocr-studio/app/teaching/store.py, `get_batch`).
use mathlib.Core.List.Permᴰ
use mathlib.Core.List.{Permᴰ, append-nil}
use predixa_learn.Prelude.{
  ℕ, ◌≡◌, refl, subst, ◌∙◌, Bool, true, false, not, List, [], ◌∷◌, ◌++◌, All, All-perm, Apart,
  Apart-keep, keep, keep-perm, keep-append, keep-All, keep_none, keep-holds, partition-perm, count,
  sort-perm, sort-IsStrict, sort-arrangement, IsStrict, ◌==◌, eq_of_same, HasUniqueKeys, Text, same,
  same_refl, arith,
}
use predixa_learn.Studio.Batches.State.{Item, Table, in_batch, items_of, position_rank}
use predixa_learn.Studio.Batches.Swap.{IsApart, IsSound}

-- The rows of the other batches
abbrev pub others_of : Text → Table → List Item
others_of id t = keep (λ i. not (in_batch id i)) t.items

-- The table is the batch as it is read, and the rows of the other batches.
pub view-perm : (id : Text) (t : Table) → Permᴰ t.items (items_of id t ++ others_of id t)
unfolding items_of
view-perm id t =
    Permᴰ.trans (partition-perm (in_batch id) t.items)
      (Permᴰ.append_right (others_of id t) (sort-perm position_rank (keep (in_batch id) t.items)))

pub view-in_batch : (id : Text) (t : Table) → All (λ i. in_batch id i ≡ true) (items_of id t)
unfolding items_of
view-in_batch id t =
    All-perm (λ i. in_batch id i ≡ true) (sort-perm position_rank (keep (in_batch id) t.items))
      (keep-holds (in_batch id) t.items)

turned :
    (p : Item → Bool) (is : List Item) → All (λ i. not (p i) ≡ true) is → All (λ i. p i ≡ false) is
turned p [] h = tt
turned p (i ∷ is) h = (ground (arith, h.0), turned p is h.1)

pub others_out :
    (id : Text) (is : List Item)
    → All (λ i. in_batch id i ≡ false) (keep (λ i. not (in_batch id i)) is)
others_out id is =
    turned (in_batch id) (keep (λ i. not (in_batch id i)) is)
      (keep-holds (λ i. not (in_batch id i)) is)

-- How a batch reads when the table has its rows in some order.
pub view_of_rows :
    (id : Text) (t t' : Table) (rows view : List Item)
    → Permᴰ t'.items (rows ++ others_of id t)
    → All (λ i. in_batch id i ≡ true) rows
    → Permᴰ rows view
    → IsStrict position_rank view
    → items_of id t' ≡ view
unfolding items_of
view_of_rows id t t' rows view d h p s =
    sort-arrangement position_rank (keep (in_batch id) t'.items) view
      (Permᴰ.trans (subst (Permᴰ (keep (in_batch id) t'.items)) kept (keep-perm (in_batch id) d)) p)
      s
  where
    kept : keep (in_batch id) (rows ++ others_of id t) ≡ rows
    kept =
        keep-append (in_batch id) rows (others_of id t)
        ∙ rw
            (
              keep-All (in_batch id) rows h,
              keep_none (in_batch id) (others_of id t) (others_out id t.items),
            )
            (append-nil rows)

in_one_batch :
    (x y : Item) (id : Text)
    → in_batch id x ≡ true
    → in_batch id y ≡ true
    → same y.batch_id x.batch_id ≡ true
in_one_batch x y id h k = rw (eq_of_same x.batch_id id h, eq_of_same y.batch_id id k) (same_refl id)

none_at :
    (x : Item) (id : Text) (k : ℕ) (ys : List Item)
    → position_rank x ≡ k
    → in_batch id x ≡ true
    → All (IsApart x) ys
    → All (λ i. in_batch id i ≡ true) ys
    → count (λ y. position_rank y == k) ys ≡ 0
unfolding count
none_at x id k [] e b h m = refl
none_at x id k (y ∷ ys) e b h m =
    ground (arith, e, h.0.1, in_one_batch x y id b m.0, none_at x id k ys e b h.1 m.1)

unique_positions :
    (id : Text) (is : List Item)
    → Apart IsApart is
    → All (λ i. in_batch id i ≡ true) is
    → HasUniqueKeys position_rank is
unfolding count
unique_positions id [] h m k = omega arith
unique_positions id (i ∷ is) h m k = ground (arith, unique_positions id is h.1 m.1 k, none_left)
  where
    none_left : position_rank i ≡ k → count (λ y. position_rank y == k) is ≡ 0
    none_left e = none_at i id k is e m.0 h.0 m.1

-- In a sound table a batch reads in strict order.
pub view-IsStrict :
    (id : Text) (t : Table) → IsSound t.items → IsStrict position_rank (items_of id t)
unfolding items_of
view-IsStrict id t s = sort-IsStrict position_rank (keep (in_batch id) t.items) (
    unique_positions id (keep (in_batch id) t.items)
      (Apart-keep IsApart (in_batch id) t.items s.apart) (keep-holds (in_batch id) t.items))
