-- ===== src/Studio/Batches/Escapes.antt =====
-- What stops the coordinator (apps/ocr-studio/app/teaching/batches.py, `BatchCoordinator._process`).
use predixa_learn.Prelude.{same_refl, ◌≡◌, refl, true, false, none, some, first, count, Text}
use predixa_learn.Studio.Batches.State.{
  BatchStatus, ItemStatus, Item, Batch, Table, missing, refused, answered, BatchView, is_batch,
  get_batch,
}
use predixa_learn.Studio.Batches.Statuses.{
  ItemPatch, is_item_of, patch_batch, patch_batch_item, patched_batches, patch_rows,
}
use predixa_learn.Studio.Batches.Coordinator.{
  World, source_error, raised, Exception, full, stop, error, escaped, handle, process, after_wait,
  accepted, Ending, ended, with_job,
}

module _ (id item : Text) where
  IsGone : Table → Type 0
  IsGone t = count (is_item_of id item) t.items ≡ 0

  gone_refused :
      (p : ItemPatch) (t : Table) → IsGone t → patch_batch_item id item p t ≡ refused missing
  unfolding patch_batch_item IsGone
  gone_refused p t h = simp h refl

  gone_handled :
      (e : Exception) (t : Table) → IsGone t → handle id item (raised e t) ≡ escaped missing t
  gone_handled full t h = simp (gone_refused _ t h) refl
  gone_handled stop t h = simp (gone_refused _ t h) refl
  gone_handled (error e) t h = simp (gone_refused _ t h) refl

  module _ (w : World) where
    gone_waited :
        (e : Ending) (job : Text) (t : Table)
        → IsGone t
        → handle id item (after_wait w id item e job t) ≡ escaped missing t
    gone_waited Ending.completed job t h = simp (gone_refused _ t h) refl
    gone_waited (Ending.cancelled e) job t h = simp (gone_refused _ t h) refl
    gone_waited (Ending.otherwise e) job t h = simp (gone_refused _ t h) refl
    gone_waited Ending.stopped job t h = gone_handled stop t h
    gone_waited (Ending.wait_error e) job t h = gone_handled (error e) t h

  one_patched :
      (p : ItemPatch) (t : Table) (job : Text)
      → count (is_item_of id item) t.items ≡ 1
      → p.job_id ≡ some job
      → t.has_job job ≡ true
      → patch_batch_item id item p t ≡ answered (record t { items = patch_rows id item p t.items })
  unfolding patch_batch_item
  one_patched p t job h e k = simp (h, e, k) refl

  started :
      (s : BatchStatus) (t : Table) (b : Batch)
      → first (is_batch id) t.batches ≡ some b
      → patch_batch id s t ≡ answered (patched_batches t id s)
  unfolding patch_batch get_batch
  started s t b h = simp h refl

-- If the item is in the table and passes its checks, the queue accepts it and writes it to the history,
-- and the item is taken out of the table while the coordinator waits for its job, then a KeyError
-- escapes from `_process`, whatever becomes of the job: so the task of the coordinator, which has no
-- handler around it, ends. The API allows this, since an item that is cancelled while it is processing
-- may be deleted.
pub process_escapes :
    (w : World) (b : BatchView) (i : Item) (t : Table) (header : Batch) (job : Text)
    → first (is_batch b.header.batch_id) t.batches ≡ some header
    → source_error w b.header i ≡ none
    → w.submit ≡ accepted job true
    → count (is_item_of b.header.batch_id i.item_id) t.items ≡ 1
    → ((t' : Table) → count (is_item_of b.header.batch_id i.item_id) (w.during_wait t').items ≡ 0)
    → (t' : Table) × (process w b i t ≡ escaped missing t')
unfolding process IsGone
process_escapes w b i t header job found sound submitted one gone = (
  w.during_wait submitted_table,
  simp
      (
        started b.header.batch_id i.item_id BatchStatus.processing t header found,
        sound,
        submitted,
        one_patched b.header.batch_id i.item_id (ended ItemStatus.processing job none false) before
            job one refl (rw (same_refl job) refl),
      )
      (gone_waited b.header.batch_id i.item_id w w.wait job (w.during_wait submitted_table)
        (gone submitted_table)),
)
  where
    before : Table
    before = with_job job true (patched_batches t b.header.batch_id BatchStatus.processing)

    submitted_table : Table
    submitted_table = record before {
      items =
          patch_rows b.header.batch_id i.item_id (ended ItemStatus.processing job none false)
            before.items;
    }
