-- ===== src/Studio/Batches/Processing.antt =====
-- How the coordinator leaves the item that it has processed
-- (apps/ocr-studio/app/teaching/batches.py, `BatchCoordinator._process`).
use predixa_learn.Prelude.{
  not_both, ◌≡◌, ◌⊎◌, inl, inr, refl, Bool, true, false, not, Option, none, some, List, [], ◌∷◌,
  if◌then◌else◌, ◌==◌, All, first, count, Text, Bool-cases,
}
use predixa_learn.Studio.Batches.State.{
  BatchStatus, Item, Batch, Table, missing, integrity, Answer, refused, answered, and_then,
  BatchView, is_batch, get_batch, with_header,
}
use predixa_learn.Studio.Batches.Orders.{is_processing_item}
use predixa_learn.Studio.Batches.Statuses.{
  ItemPatch, set_item, is_item_of, patch_rows, is_unknown_job, patch_batch, patch_batch_item,
  patched_batches,
}
use predixa_learn.Studio.Batches.Coordinator.{
  World, source_error, Body, finished, raised, full, stop, error, Outcome, returned, cancelled_on,
  escaped, handled, handle, process, stored, unlinked, after_wait, after_submit, body, with_job,
  Submission, Ending,
}

-- The row of the item, if there is one, is not processing.
abbrev pub IsSettled : Text → Text → Table → Type 0
IsSettled id item t =
    All (λ (i : Item). is_item_of id item i ≡ true → is_processing_item i.status ≡ false) t.items

-- How the call ends
abbrev pub Ends : Text → Text → Outcome → Type 0
Ends id item (returned t) = IsSettled id item t
Ends id item (cancelled_on t) = IsSettled id item t
Ends id item (escaped e t) =
    (e ≡ missing)
    × ((first (is_batch id) t.batches ≡ none) ⊎ ((count (is_item_of id item) t.items == 1) ≡ false))

-- What the body of the `try` leaves where it raises nothing
abbrev BodyEnds : Text → Text → Body → Type 0
BodyEnds id item (finished t) = IsSettled id item t
BodyEnds id item (raised e t) = Unit

module _ (id item : Text) where
  patched-IsSettled :
      (p : ItemPatch) (is : List Item)
      → is_processing_item p.status ≡ false
      → All
          (λ (i : Item). is_item_of id item i ≡ true → is_processing_item i.status ≡ false)
          (patch_rows id item p is)
  unfolding set_item
  patched-IsSettled p [] h = tt
  patched-IsSettled p (i ∷ is) h = (branch (is_item_of id item i) refl, patched-IsSettled p is h)
    where
      branch :
          (b : Bool)
          → is_item_of id item i ≡ b
          → is_item_of id item (if b then set_item p i else i) ≡ true
          → is_processing_item (if b then set_item p i else i).status ≡ false
      branch true e k = h
      branch false e k = absurd (not_both k e)

  -- What a patch that sets no job answers
  patched :
      (p : ItemPatch) (t : Table) (next : Table → Outcome)
      → p.job_id ≡ none
      → is_processing_item p.status ≡ false
      → ((t' : Table) → IsSettled id item t' → Ends id item (next t'))
      → Ends id item (handled t (patch_batch_item id item p t) next)
  unfolding patch_batch_item
  patched p t next e h k = elim (Bool-cases (count (is_item_of id item) t.items == 1)) [
    | inl one ↦ simp (one, e) (k _ (patched-IsSettled p t.items h))
    | inr other ↦ simp other (refl, inr refl)
  ]

  handle-Ends : (b : Body) → BodyEnds id item b → Ends id item (handle id item b)
  handle-Ends (finished t) h = h
  handle-Ends (raised full t) h = patched _ t returned refl refl λ t' k. k
  handle-Ends (raised stop t) h = patched _ t cancelled_on refl refl λ t' k. k
  handle-Ends (raised (error e) t) h = patched _ t returned refl refl λ t' k. k

  module _ (w : World) where
    stored-BodyEnds :
        (p : ItemPatch) (t : Table) (next : Table → Body)
        → is_processing_item p.status ≡ false
        → ((t' : Table) → IsSettled id item t' → BodyEnds id item (next t'))
        → BodyEnds id item (stored w t (patch_batch_item id item p t) next)
    unfolding patch_batch_item
    stored-BodyEnds p t next h k =
        either (not (count (is_item_of id item) t.items == 1)) (is_unknown_job t p.job_id)
      where
        either :
            (b c : Bool)
            → BodyEnds id item (
                stored w t
                  (if b
                    then refused missing
                    else if c
                    then refused integrity
                    else answered (record t { items = patch_rows id item p t.items }))
                  next)
        either true c = tt
        either false true = tt
        either false false = k _ (patched-IsSettled p t.items h)

    unlinked-BodyEnds :
        (o : Option Text) (t : Table) → IsSettled id item t → BodyEnds id item (unlinked o t)
    unlinked-BodyEnds none t h = h
    unlinked-BodyEnds (some e) t h = tt

    waited-BodyEnds :
        (e : Ending) (job : Text) (t : Table) → BodyEnds id item (after_wait w id item e job t)
    waited-BodyEnds Ending.completed job t =
        stored-BodyEnds _ t (unlinked w.unlink) refl (unlinked-BodyEnds w.unlink)
    waited-BodyEnds (Ending.cancelled e) job t =
        stored-BodyEnds _ t (unlinked w.unlink) refl (unlinked-BodyEnds w.unlink)
    waited-BodyEnds (Ending.otherwise e) job t = stored-BodyEnds _ t finished refl λ t' h. h
    waited-BodyEnds Ending.stopped job t = tt
    waited-BodyEnds (Ending.wait_error e) job t = tt

    after_stored :
        (t : Table) (r : Answer Table) (next : Table → Body)
        → ((t' : Table) → BodyEnds id item (next t'))
        → BodyEnds id item (stored w t r next)
    after_stored t (refused e) next h = tt
    after_stored t (answered t') next h = h t'

    submitted-BodyEnds :
        (s : Submission) (t : Table) → BodyEnds id item (after_submit w id item s t)
    submitted-BodyEnds (Submission.accepted job saved) t =
        after_stored (with_job job saved t) _ _ λ t'. waited-BodyEnds w.wait job (w.during_wait t')
    submitted-BodyEnds Submission.queue_full t = tt
    submitted-BodyEnds Submission.stopped t = tt
    submitted-BodyEnds (Submission.submit_error e) t = tt

    body-BodyEnds : (o : Option Text) (t : Table) → BodyEnds id item (body w id item o t)
    body-BodyEnds none t = submitted-BodyEnds w.submit t
    body-BodyEnds (some e) t = tt

  started-Ends :
      (s : BatchStatus) (t : Table) (next : Table → Outcome)
      → ((t' : Table) → Ends id item (next t'))
      → Ends id item (handled t (patch_batch id s t) next)
  unfolding patch_batch get_batch
  started-Ends s t next h = found (first (is_batch id) t.batches) refl
    where
      found :
          (o : Option Batch)
          → first (is_batch id) t.batches ≡ o
          → Ends id item (
              handled t (and_then (with_header id t o) λ b. answered (patched_batches t id s)) next)
      found none e = (refl, inl e)
      found (some b) e = h _

-- Whatever the file system, the queue and the other calls do, `_process` leaves no row of its item that
-- is still processing, when it returns and when it is cancelled; otherwise a KeyError of the store
-- escapes from it, and then the batch or the item was not in the table.
pub process-Ends :
    (w : World) (b : BatchView) (i : Item) (t : Table)
    → Ends b.header.batch_id i.item_id (process w b i t)
unfolding process
process-Ends w b i t = started-Ends b.header.batch_id i.item_id BatchStatus.processing t _ λ t'.
    handle-Ends b.header.batch_id i.item_id _
      (body-BodyEnds b.header.batch_id i.item_id w (source_error w b.header i) t')
