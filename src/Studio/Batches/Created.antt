-- ===== src/Studio/Batches/Created.antt =====
-- Reading a batch that was just created (apps/ocr-studio/app/teaching/store.py, `create_batch`).
use predixa_learn.Prelude.{
  ℕ, suc, ◌≤◌, ◌<◌, ◌≡◌, refl, ap, sym, ◌∙◌, Bool, true, false, not, ◌||◌, Option, none, some, List,
  [], ◌∷◌, ◌++◌, if◌then◌else◌, ◌==◌, ltb, All, any, first, first-append, keep, keep-append,
  keep-All, keep_none, length, sort, sort_of_strict, IsStrict, Text, text, same_refl, arith,
}
use predixa_learn.Studio.Batches.State.{
  BatchStatus, Table, Answer, refused, answered, invalid_value, is_batch, in_batch, items_of,
  get_batch, with_header, position_rank,
}
use predixa_learn.Studio.Batches.Statuses.{
  batch_status, is_english, is_foreign, given, NewItem, NewBatch, new_item, new_items, new_batch,
  with_batch_status, create_batch,
}

new-in_batch :
    (id : Text) (n : ℕ) (is : List NewItem) → All (λ i. in_batch id i ≡ true) (new_items id n is)
unfolding new_items new_item
new-in_batch id n [] = tt
new-in_batch id n (i ∷ is) = (same_refl id, new-in_batch id (suc n) is)

new_above :
    (id : Text) (k n : ℕ) (is : List NewItem)
    → k ≤ n
    → All (λ i. k < position_rank i) (new_items id n is)
unfolding new_items new_item
new_above id k n [] l = tt
new_above id k n (i ∷ is) l = (omega (arith, l), new_above id k (suc n) is (omega (arith, l)))

new-IsStrict : (id : Text) (n : ℕ) (is : List NewItem) → IsStrict position_rank (new_items id n is)
unfolding new_items new_item
new-IsStrict id n [] = tt
new-IsStrict id n (i ∷ is) =
    (new_above id (suc n) (suc n) is (omega arith), new-IsStrict id (suc n) is)

-- What a creation that succeeds wrote
pub record IsCreated (b : NewBatch) (is : List NewItem) (t t' : Table) : Type 0 where
  pub status : BatchStatus
  pub named : batch_status (given b.status (text "queued")) ≡ some status
  pub some_files : 1 ≤ length is
  pub few_files : length is ≤ 100
  pub batches : t'.batches ≡ t.batches ++ new_batch b status ∷ []
  pub items : t'.items ≡ t.items ++ new_items b.batch_id 0 is

guard :
    (c : Bool) (r : Answer Table) (t' : Table)
    → (if c then refused invalid_value else r) ≡ answered t'
    → (c ≡ false) × (r ≡ answered t')
guard true r t' h = absurd (ground arith)
guard false r t' h = (refl, h)

table_of : Table → Answer Table → Table
table_of t (refused e) = t
table_of t (answered t') = t'

create-IsCreated :
    (b : NewBatch) (is : List NewItem) (t t' : Table)
    → create_batch b is t ≡ answered t'
    → IsCreated b is t t'
unfolding create_batch table_of
create-IsCreated b is t t' h =
    let g = guard (length is == 0 || ltb 100 (length is)) _ t' h in
    statuses (batch_status (given b.status (text "queued"))) refl g.0 g.1
  where
    statuses :
        (o : Option BatchStatus)
        → batch_status (given b.status (text "queued")) ≡ o
        → (length is == 0 || ltb 100 (length is)) ≡ false
        → with_batch_status b is t o ≡ answered t'
        → IsCreated b is t t'
    statuses none e c k = absurd (ground arith)
    statuses (some s) e c k =
        let english = guard (not (is_english (given b.language (text "en")))) _ t' k in
        let files = guard (any is_foreign is) _ t' english.1 in
        record {
          status = s;
          named = e;
          some_files = ground (arith, c);
          few_files = ground (arith, c);
          batches = sym (ap (λ r. (table_of t r).batches) files.1);
          items = sym (ap (λ r. (table_of t r).items) files.1);
        }

module _ {b : NewBatch} {is : List NewItem} {t t' : Table} (c : IsCreated b is t t') where
  header_read :
      first (is_batch b.batch_id) t.batches ≡ none
      → first (is_batch b.batch_id) t'.batches ≡ some (new_batch b c.status)
  unfolding first new_batch
  header_read fresh =
      ap (first (is_batch b.batch_id)) c.batches
      ∙ first-append (is_batch b.batch_id) t.batches (new_batch b c.status ∷ []) fresh
      ∙ simp (same_refl b.batch_id) refl

  items_read :
      All (λ i. in_batch b.batch_id i ≡ false) t.items
      → items_of b.batch_id t' ≡ new_items b.batch_id 0 is
  unfolding items_of
  items_read fresh =
      ap (λ js. sort position_rank (keep (in_batch b.batch_id) js)) c.items
      ∙ ap (sort position_rank) (
          keep-append (in_batch b.batch_id) t.items (new_items b.batch_id 0 is)
          ∙ rw
              (
                keep_none (in_batch b.batch_id) t.items fresh,
                keep-All (in_batch b.batch_id) (new_items b.batch_id 0 is)
                    (new-in_batch b.batch_id 0 is),
              )
              refl)
      ∙ sort_of_strict position_rank (new_items b.batch_id 0 is) (new-IsStrict b.batch_id 0 is)

-- A batch that was created under a new id reads as its header and its one to a hundred files, queued
-- and in the order that they were given in.
pub create_batch_reads :
    (b : NewBatch) (is : List NewItem) (t t' : Table)
    → All (λ i. in_batch b.batch_id i ≡ false) t.items
    → first (is_batch b.batch_id) t.batches ≡ none
    → create_batch b is t ≡ answered t'
    → (status : BatchStatus) × (batch_status (given b.status (text "queued")) ≡ some status)
      × (1 ≤ length is)
      × (length is ≤ 100)
      × (get_batch b.batch_id t'
          ≡ answered (record { header = new_batch b status; items = new_items b.batch_id 0 is }))
unfolding get_batch
create_batch_reads b is t t' no_items new_id h =
    let c = create-IsCreated b is t t' h in
    (
      c.status,
      c.named,
      c.some_files,
      c.few_files,
      ap (with_header b.batch_id t') (header_read c new_id)
          ∙ ap (λ js. answered (record { header = new_batch b c.status; items = js }))
              (items_read c no_items),
    )
