-- ===== src/Studio/Batches/Rows.antt =====
-- One update of one item (apps/ocr-studio/app/teaching/store.py): it succeeds where no other item of
-- the batch has the position, and the table has the same rows apart from that one.
use mathlib.Core.List.{Permᴰ}
use predixa_learn.Prelude.{
  ◌≡◌, refl, ap, subst, ◌∙◌, Bool, false, ◌&&◌, ◌||◌, List, [], ◌∷◌, map, if◌then◌else◌, ◌==◌, All,
  any, any-perm, keep, keep-perm, map-perm, same, same_refl,
}
use predixa_learn.Studio.Batches.State.{
  Position, rank, Item, Table, Answer, answered, is_item, collides, set_rows, update_items,
}
use predixa_learn.Studio.Batches.Orders.{set_position}

-- The check of an update
abbrev pub clash : (Item → Bool) → (Item → Item) → List Item → Bool
clash p f is =
    any (λ x. any (collides x) is || any (collides x) (set_rows p f is)) (map f (keep p is))

clash-perm :
    (p : Item → Bool) (f : Item → Item) {xs ys : List Item}
    → Permᴰ xs ys
    → clash p f xs ≡ clash p f ys
unfolding set_rows
clash-perm p f {xs} {ys} d =
    any-perm (λ x. any (collides x) xs || any (collides x) (set_rows p f xs))
      (map-perm f (keep-perm p d))
    ∙ λ k.
        any
          (λ x.
            any-perm (collides x) d k
            || any-perm (collides x) (map-perm (λ i. if p i then f i else i) d) k)
          (map f (keep p ys))

-- What an update answers, and the rows it leaves
pub record HasRows (t : Table) (is : List Item) (r : Answer Table) : Type 0 where
  pub after : Table
  pub it : r ≡ answered after
  pub rows : Permᴰ after.items is
  pub same_batches : after.batches ≡ t.batches

pub update-HasRows :
    (p : Item → Bool) (f : Item → Item) (t : Table) (xs : List Item)
    → Permᴰ t.items xs
    → clash p f xs ≡ false
    → HasRows t (set_rows p f xs) (update_items p f t)
unfolding update_items set_rows
update-HasRows p f t xs d c = record {
  after = record t { items = set_rows p f t.items };
  it = simp (clash-perm p f d ∙ c) refl;
  rows = map-perm (λ i. if p i then f i else i) d;
  same_batches = refl;
}

-- Rows that have neither the id of `x` nor, in its batch, the position `p`
abbrev pub IsClear : Item → Position → Item → Type 0
IsClear x p z =
    (is_item x.item_id z ≡ false)
    × ((same z.batch_id x.batch_id && rank z.position == rank p) ≡ false)

set_others :
    (x : Item) (p : Position) (rest : List Item)
    → All (IsClear x p) rest
    → set_rows (is_item x.item_id) (set_position p) rest ≡ rest
unfolding set_rows
set_others x p [] h = refl
set_others x p (z ∷ rest) h = simp h.0.0 (ap (◌∷◌ z) (set_others x p rest h.1))

set_head :
    (x : Item) (p : Position) (rest : List Item)
    → All (IsClear x p) rest
    → set_rows (is_item x.item_id) (set_position p) (x ∷ rest) ≡ set_position p x ∷ rest
unfolding set_rows
set_head x p rest h =
    simp (same_refl x.item_id) (ap (◌∷◌ (set_position p x)) (set_others x p rest h))

keep_others :
    (x : Item) (p : Position) (rest : List Item)
    → All (IsClear x p) rest
    → keep (is_item x.item_id) rest ≡ []
unfolding keep
keep_others x p [] h = refl
keep_others x p (z ∷ rest) h = simp h.0.0 (keep_others x p rest h.1)

keep_head :
    (x : Item) (p : Position) (rest : List Item)
    → All (IsClear x p) rest
    → keep (is_item x.item_id) (x ∷ rest) ≡ x ∷ []
unfolding keep
keep_head x p rest h = simp (same_refl x.item_id) (ap (◌∷◌ x) (keep_others x p rest h))

collides_none :
    (x : Item) (p : Position) (rest : List Item)
    → All (IsClear x p) rest
    → any (collides (set_position p x)) rest ≡ false
unfolding any collides
collides_none x p [] h = refl
collides_none x p (z ∷ rest) h = simp (h.0.1, h.0.0) (collides_none x p rest h.1)

collides_head :
    (x y : Item) (p : Position) (rest : List Item)
    → y.item_id ≡ x.item_id
    → All (IsClear x p) rest
    → any (collides (set_position p x)) (y ∷ rest) ≡ false
unfolding any collides
collides_head x y p rest e h = simp (e, same_refl x.item_id) (collides_none x p rest h)

head-not_clash :
    (x : Item) (p : Position) (rest : List Item)
    → All (IsClear x p) rest
    → clash (is_item x.item_id) (set_position p) (x ∷ rest) ≡ false
unfolding any
head-not_clash x p rest h =
    simp
      (
        keep_head x p rest h,
        set_head x p rest h,
        collides_head x x p rest refl h,
        collides_head x (set_position p x) p rest refl h,
      )
      refl

-- The update of the position of one item, where no other row has its id or, in its batch, the position.
pub move-HasRows :
    (x : Item) (p : Position) (rest : List Item) (t : Table)
    → Permᴰ t.items (x ∷ rest)
    → All (IsClear x p) rest
    → HasRows t (set_position p x ∷ rest) (update_items (is_item x.item_id) (set_position p) t)
move-HasRows x p rest t d h =
    subst (λ is. HasRows t is (update_items (is_item x.item_id) (set_position p) t))
      (set_head x p rest h)
      (update-HasRows (is_item x.item_id) (set_position p) t (x ∷ rest) d
        (head-not_clash x p rest h))
