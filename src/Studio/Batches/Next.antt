-- ===== src/Studio/Batches/Next.antt =====
-- Which item the coordinator takes next (apps/ocr-studio/app/teaching/batches.py, `_next_item`).
use mathlib.Core.Option.{none-ne-some}
use mathlib.Core.List.{reverse}
use mathlib.Core.List.Permᴰ
use predixa_learn.Prelude.{
  Apart, Apart-take, Apart-reverse, sort-IsSorted, ◌≤◌, not_both, ◌≡◌, ◌≢◌, ◌||◌, refl, sym, ◌∙◌,
  Bool, true, false, Option, none, some, List, [], ◌∷◌, map, if◌then◌else◌, All, All-perm, All-take,
  any, first, take, sort, sort-perm, Text, same_refl, arith, Bool-cases, inl, inr,
}
use predixa_learn.Studio.Batches.State.{
  BatchStatus, Item, Batch, Table, Answer, answered, and_then, BatchView, is_batch, get_batch,
  with_header,
}
use predixa_learn.Studio.Batches.Statuses.{
  created, views, list_batches, patch_batch, patched_batches, set_batch_status, is_processing_batch,
}
use predixa_learn.Studio.Batches.Coordinator.{
  is_active, final_status, Candidate, queued_in, next_unless, next_in, next_item,
}
use predixa_learn.Studio.Batches.Choices.{
  HasNone, IsChoice, first-IsFirstQueued, none-queued, passed,
}

-- The table has the batch.
abbrev pub Has : Table → BatchView → Type 0
Has t b = any (is_batch b.header.batch_id) t.batches ≡ true

-- What the loop answers
pub record Chooses (bs : List BatchView) (t : Table) (r : Answer (Candidate × Table)) : Type 0 where
  pub candidate : Candidate
  pub table : Table
  pub it : r ≡ answered (candidate, table)
  pub choice : IsChoice bs candidate
  pub same_items : table.items ≡ t.items

found : (id : Text) (bs : List Batch) → any (is_batch id) bs ≡ true → first (is_batch id) bs ≢ none
unfolding any first
found id [] h = absurd (ground (arith, h))
found id (b ∷ bs) h = elim (Bool-cases (is_batch id b)) [
  | inl e ↦ simp e λ n. none-ne-some b (sym n)
  | inr e ↦ simp e (found id bs (simp e at h))
]

patch_there :
    (id : Text) (s : BatchStatus) (t : Table)
    → any (is_batch id) t.batches ≡ true
    → patch_batch id s t ≡ answered (patched_batches t id s)
unfolding patch_batch get_batch
patch_there id s t h = there (first (is_batch id) t.batches) (found id t.batches h)
  where
    there :
        (o : Option Batch)
        → o ≢ none
        → and_then (with_header id t o) (λ b. answered (patched_batches t id s))
          ≡ answered (patched_batches t id s)
    there none n = absurd (n refl)
    there (some b) n = refl

any-patched :
    (id other : Text) (s : BatchStatus) (bs : List Batch)
    → any (is_batch id) (map (set_batch_status other s) bs) ≡ any (is_batch id) bs
unfolding any
any-patched id other s [] = refl
any-patched id other s (b ∷ bs) = rw (any-patched id other s bs) (branch (is_batch other b))
  where
    branch :
        (c : Bool)
        → (is_batch id (if c then record b { status = s } else b) || any (is_batch id) bs)
          ≡ (is_batch id b || any (is_batch id) bs)
    branch true = refl
    branch false = refl

All-patched :
    (t : Table) (id : Text) (s : BatchStatus) (bs : List BatchView)
    → All (Has t) bs
    → All (Has (patched_batches t id s)) bs
All-patched t id s [] h = tt
All-patched t id s (b ∷ bs) h =
    (any-patched b.header.batch_id id s t.batches ∙ h.0, All-patched t id s bs h.1)

-- The rest of the loop, behind a batch that has nothing to take
later :
    (b : BatchView) (bs : List BatchView) (t t' : Table) (r : Answer (Candidate × Table))
    → HasNone b
    → t'.items ≡ t.items
    → Chooses bs t' r
    → Chooses (b ∷ bs) t r
later b bs t t' r h e c = record {
  candidate = c.candidate;
  table = c.table;
  it = c.it;
  choice = passed b bs c.candidate h c.choice;
  same_items = c.same_items ∙ e;
}

next-Chooses : (bs : List BatchView) (t : Table) → All (Has t) bs → Chooses bs t (next_in bs t)
unfolding next_in
next-Chooses [] t h = record {
  candidate = none;
  table = t;
  it = refl;
  choice = tt;
  same_items = refl;
}
next-Chooses (b ∷ bs) t h =
    let id = b.header.batch_id in
    let s = final_status b.items in
    active (is_active b.header.status) refl (next-Chooses bs t h.1)
      (next-Chooses bs (patched_batches t id s) (All-patched t id s bs h.1))
  where
    closed : Table
    closed = patched_batches t b.header.batch_id (final_status b.items)

    closing :
        (p : Bool)
        → HasNone b
        → Chooses bs t (next_in bs t)
        → Chooses bs closed (next_in bs closed)
        → Chooses (b ∷ bs) t (
            if p
            then and_then (patch_batch b.header.batch_id (final_status b.items) t) (next_in bs)
            else next_in bs t)
    closing true n c c' =
        rw (patch_there b.header.batch_id (final_status b.items) t h.0)
          (later b bs t closed _ n refl c')
    closing false n c c' = later b bs t t _ n refl c

    queued :
        (o : Option Item)
        → queued_in b ≡ o
        → is_active b.header.status ≡ true
        → Chooses bs t (next_in bs t)
        → Chooses bs closed (next_in bs closed)
        → Chooses (b ∷ bs) t (next_unless b o (next_in bs) t)
    queued (some i) e a c c' = record {
      candidate = some (b, i);
      table = t;
      it = refl;
      choice = (
        record { older = []; newer = bs; it = refl; none_older = tt; active = a },
        first-IsFirstQueued b.items i e,
      );
      same_items = refl;
    }
    queued none e a c c' =
        closing (is_processing_batch b.header.status) (λ k. none-queued b.items e) c c'

    active :
        (a : Bool)
        → is_active b.header.status ≡ a
        → Chooses bs t (next_in bs t)
        → Chooses bs closed (next_in bs closed)
        → Chooses
            (b ∷ bs)
            t
            (if a then next_unless b (queued_in b) (next_in bs) t else next_in bs t)
    active true e c c' = queued (queued_in b) refl e c c'
    active false e c c' = later b bs t t _ (λ k. absurd (not_both k e)) refl c

All-within :
    (xs zs : List Batch)
    → ((id : Text) → any (is_batch id) xs ≡ true → any (is_batch id) zs ≡ true)
    → All (λ (b : Batch). any (is_batch b.batch_id) zs ≡ true) xs
unfolding any
All-within [] zs h = tt
All-within (x ∷ xs) zs h = (
  h x.batch_id (rw (same_refl x.batch_id) refl),
  All-within xs zs λ id k. h id (ground (arith, k)),
)

All-viewed :
    (t : Table) (bs : List Batch)
    → All (λ (b : Batch). any (is_batch b.batch_id) t.batches ≡ true) bs
    → All (Has t) (views t bs)
All-viewed t [] h = tt
All-viewed t (b ∷ bs) h = (h.0, All-viewed t bs h.1)

listed-Has : (t : Table) → All (Has t) (reverse (list_batches t))
unfolding list_batches
listed-Has t = All-perm (Has t) (Permᴰ.symm (Permᴰ.reverse (views t newest))) (
    All-viewed t newest (
      All-take Known 100 (reverse (sort created t.batches)) (
        All-perm Known (Permᴰ.symm (Permᴰ.reverse (sort created t.batches))) (
          All-perm Known (sort-perm created t.batches)
            (All-within t.batches t.batches λ id h. h)))))
  where
    newest : List Batch
    newest = take 100 (reverse (sort created t.batches))

    Known : Batch → Type 0
    Known b = any (is_batch b.batch_id) t.batches ≡ true

-- The batches, those created earlier first
abbrev pub AreOldestFirst : List BatchView → Type 0
AreOldestFirst bs = Apart (λ b c. b.header.created_at ≤ c.header.created_at) bs

module _ (t : Table) where
  later_views :
      (b : Batch) (bs : List Batch)
      → All (λ (c : Batch). c.created_at ≤ b.created_at) bs
      → All (λ (c : BatchView). c.header.created_at ≤ b.created_at) (views t bs)
  later_views b [] h = tt
  later_views b (c ∷ cs) h = (h.0, later_views b cs h.1)

  views-Apart :
      (bs : List Batch)
      → Apart (λ (b c : Batch). c.created_at ≤ b.created_at) bs
      → Apart (λ (b c : BatchView). c.header.created_at ≤ b.header.created_at) (views t bs)
  views-Apart [] h = tt
  views-Apart (b ∷ bs) h = (later_views b bs h.0, views-Apart bs h.1)

  listed-AreOldestFirst : AreOldestFirst (reverse (list_batches t))
  unfolding list_batches
  listed-AreOldestFirst =
      Apart-reverse (λ (b c : BatchView). c.header.created_at ≤ b.header.created_at) _
        (views-Apart _ (
          Apart-take (λ (b c : Batch). c.created_at ≤ b.created_at) 100 _
            (Apart-reverse (λ (b c : Batch). b.created_at ≤ c.created_at) (sort created t.batches)
              (sort-IsSorted created t.batches))))

-- `_next_item` goes through the listed batches by the time of their creation, the oldest first. It never
-- fails, and answers the first queued item, by position, of the first of them that is queued or
-- processing and has a queued item, or nothing if no such batch has one; and it changes no item.
pub next_item-Chooses :
    (t : Table)
    → AreOldestFirst (reverse (list_batches t)) × Chooses (reverse (list_batches t)) t (next_item t)
unfolding next_item
next_item-Chooses t =
    (listed-AreOldestFirst t, next-Chooses (reverse (list_batches t)) t (listed-Has t))
