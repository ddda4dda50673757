-- ===== src/Studio/Batches/Coordinator.antt =====
-- The coordinator of the batches (apps/ocr-studio/app/teaching/batches.py, `BatchCoordinator`).
-- The file system and the queue are a `World`; reading a staged file and its disk's free space does not
-- fail. Other calls may change the table while the coordinator waits for the queue.
use predixa_learn.Prelude.{
  ℕ, ◌*◌, Bool, true, false, not, ◌&&◌, ◌||◌, Option, none, some, List, [], ◌∷◌, if◌then◌else◌, ltb,
  any, first, take, Text, text, same,
}
use mathlib.Core.List.{reverse}
use predixa_learn.Studio.Batches.State.{
  BatchStatus, ItemStatus, Item, Batch, Table, StoreError, Answer, refused, answered, and_then,
  BatchView, is_queued_item,
}
use predixa_learn.Studio.Batches.Statuses.{
  given, is_english, list_batches, patch_batch, ItemPatch, patch_batch_item, is_processing_batch,
}

-- `batch["status"] in {"queued", "processing"}`
abbrev pub is_active : BatchStatus → Bool
is_active BatchStatus.queued = true
is_active BatchStatus.processing = true
is_active _ = false

abbrev pub is_completed_item : ItemStatus → Bool
is_completed_item ItemStatus.completed = true
is_completed_item _ = false

-- `"completed" if terminal <= {"completed"} else "partial"`
abbrev pub final_status : List Item → BatchStatus
final_status is =
    if any (λ (i : Item). not (is_completed_item i.status)) is
    then BatchStatus.partial
    else BatchStatus.completed

abbrev pub Candidate : Type 0
Candidate = Option (BatchView × Item)

abbrev pub queued_in : BatchView → Option Item
queued_in b = first (λ (i : Item). is_queued_item i.status) b.items

-- The rest of the loop's body, once the first queued item has been looked for
abbrev pub next_unless :
    BatchView
    → Option Item
    → (Table → Answer (Candidate × Table))
    → Table
    → Answer (Candidate × Table)
next_unless b (some i) next t = answered (some (b, i), t)
next_unless b none next t =
    if is_processing_batch b.header.status
    then and_then (patch_batch b.header.batch_id (final_status b.items) t) next
    else next t

-- The loop over the batches
unfoldable pub next_in : List BatchView → Table → Answer (Candidate × Table)
next_in [] t = answered (none, t)
next_in (b ∷ bs) t =
    let later = next_in bs t in
    if is_active b.header.status then next_unless b (queued_in b) (next_in bs) t else later

-- `_next_item`
unfoldable pub next_item : Table → Answer (Candidate × Table)
next_item t = next_in (reverse (list_batches t)) t

-- What the queue's `submit` does: it accepts the item under a job id, where its write to the history
-- goes through or not, or raises.
pub data Submission : Type 0 where
  accepted : Text → Bool → Submission
  queue_full stopped : Submission
  submit_error : Text → Submission

-- What `wait_for_result` does: the result's status and error, or an exception
pub data Ending : Type 0 where
  completed : Ending
  cancelled otherwise : Option Text → Ending
  stopped : Ending
  wait_error : Text → Ending

pub record World : Type 0 where
  -- The parts of the protected directory and of a staged path, both resolved
  pub root : List Text
  pub resolve : Text → List Text
  pub file_hash : List Text → Option Text
  pub free_space : List Text → ℕ
  pub submit : Submission
  pub wait : Ending
  pub during_wait : Table → Table
  -- What `unlink` raises, if it does
  pub unlink : Option Text
  -- The text of an exception of the store
  pub error_text : StoreError → Text

-- `candidate.relative_to(root)` does not raise.
unfoldable pub is_under : List Text → List Text → Bool
is_under [] path = true
is_under (r ∷ root) [] = false
is_under (r ∷ root) (p ∷ path) = same r p && is_under root path

-- The keys of `_WORKFLOWS`
unfoldable pub is_workflow : Text → Bool
is_workflow w =
    same w (text "text_recognition")
    || same w (text "layout_parsing")
    || same w (text "table_extraction")
    || same w (text "vl_processing")

abbrev has_hash : Option Text → Text → Bool
has_hash none sha = false
has_hash (some h) sha = same h sha

abbrev max : ℕ → ℕ → ℕ
max a b = if ltb a b then b else a

-- The errors that `_process` raises before it submits the item
unfoldable pub source_error : World → Batch → Item → Option Text
source_error w b i =
    let path = w.resolve i.staged_path in
    if not (is_under w.root path)
    then some (text "Stored batch source path is outside the protected batch directory")
    else if not (has_hash (w.file_hash path) i.source_sha256)
    then some (text "The staged batch source is missing or failed its checksum")
    else if ltb (w.free_space path) (max (i.size_bytes * 2) (100 * 1024 * 1024))
    then some (text "Insufficient disk space to process this batch item safely")
    else if not (is_workflow b.workflow)
    then some (text "The stored batch workflow is unsupported")
    else if not (is_english (given i.overrides.language b.language))
    then some (
        text
          "This queued item uses a language that is unavailable in the current English-only release; recreate the batch in English")
    else none

-- The table `history_jobs` after the queue's write: batch items refer to its rows.
abbrev pub with_job : Text → Bool → Table → Table
with_job job saved t = record t { has_job = λ j. (saved && same j job) || t.has_job j }

-- QueueFullError, asyncio.CancelledError and the other exceptions
pub data Exception : Type 0 where
  full stop : Exception
  error : Text → Exception

-- How the body of the `try` ends, and the table that it leaves
pub data Body : Type 0 where
  finished : Table → Body
  raised : Exception → Table → Body

abbrev pub stored : World → Table → Answer Table → (Table → Body) → Body
stored w t (refused e) next = raised (error (w.error_text e)) t
stored w t (answered t') next = next t'

-- The table of an answer, which is unchanged where the store refuses
abbrev pub unlinked : Option Text → Table → Body
unlinked none t = finished t
unlinked (some e) t = raised (error e) t

-- `result.error or "OCR processing failed"`
abbrev pub error_or_default : Option Text → Text
error_or_default none = text "OCR processing failed"
error_or_default (some []) = text "OCR processing failed"
error_or_default (some (c ∷ cs)) = c ∷ cs

abbrev pub ended : ItemStatus → Text → Option Text → Bool → ItemPatch
ended s job e retry = record { status = s; job_id = some job; retry_pending = retry; error = e }

module _ (w : World) (id item : Text) where
  abbrev pub patch : ItemPatch → Table → Answer Table
  patch = patch_batch_item id item

  abbrev pub after_wait : Ending → Text → Table → Body
  after_wait completed job t =
      stored w t (patch (ended ItemStatus.completed job none false) t) (unlinked w.unlink)
  after_wait (cancelled e) job t =
      stored w t (patch (ended ItemStatus.cancelled job e false) t) (unlinked w.unlink)
  after_wait (otherwise e) job t =
      stored w t (patch (ended ItemStatus.failed job (some (error_or_default e)) true) t) finished
  after_wait stopped job t = raised stop t
  after_wait (wait_error e) job t = raised (error e) t

  abbrev pub after_submit : Submission → Table → Body
  after_submit (accepted job saved) t0 =
      let t = with_job job saved t0 in
      stored w t (patch (ended ItemStatus.processing job none false) t)
        λ t. after_wait w.wait job (w.during_wait t)
  after_submit queue_full t = raised full t
  after_submit stopped t = raised stop t
  after_submit (submit_error e) t = raised (error e) t

  abbrev pub body : Option Text → Table → Body
  body (some e) t = raised (error e) t
  body none t = after_submit w.submit t

-- How `_process` ends: it returns, the CancelledError goes on, or an exception of the store escapes.
pub data Outcome : Type 0 where
  returned cancelled_on : Table → Outcome
  escaped : StoreError → Table → Outcome

abbrev pub handled : Table → Answer Table → (Table → Outcome) → Outcome
handled t (refused e) next = escaped e t
handled t (answered t') next = next t'

abbrev pub failure : ItemStatus → Text → ItemPatch
failure s e = record { status = s; job_id = none; retry_pending = true; error = some e }

abbrev pub handle : Text → Text → Body → Outcome
handle id item (finished t) = returned t
handle id item (raised full t) =
    handled t
      (patch_batch_item id item
        (failure ItemStatus.queued (text "OCR queue is busy; retrying automatically")) t)
      returned
handle id item (raised stop t) =
    handled t
      (patch_batch_item id item
        (failure ItemStatus.interrupted (text "Service stopped during processing")) t)
      cancelled_on
handle id item (raised (error e) t) =
    handled t (patch_batch_item id item (failure ItemStatus.failed (take 1000 e)) t) returned

-- `_process`
unfoldable pub process : World → BatchView → Item → Table → Outcome
process w b i t = handled t (patch_batch b.header.batch_id BatchStatus.processing t) λ t.
    handle b.header.batch_id i.item_id
      (body w b.header.batch_id i.item_id (source_error w b.header i) t)
