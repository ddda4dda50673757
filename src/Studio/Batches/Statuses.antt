-- ===== src/Studio/Batches/Statuses.antt =====
-- Creating, changing, recovering and deleting batches
-- (apps/ocr-studio/app/teaching/store.py, `create_batch`, `list_batches`, `patch_batch`,
-- `patch_batch_item`, `recover_batches` and `delete_batch`).
use mathlib.Core.List.{reverse}
use predixa_learn.Prelude.{
  ℕ, suc, ◌+◌, Bool, true, false, not, ◌&&◌, ◌||◌, Option, none, some, List, [], ◌∷◌, ◌++◌, map,
  strip, if◌then◌else◌, ◌==◌, ltb, leb, any, keep, take, count, length, sort, Text, text, same,
}
use predixa_learn.Studio.Batches.State.{
  BatchStatus, ItemStatus, at, Overrides, Item, Batch, Table, missing, invalid_value, conflict,
  integrity, Answer, refused, answered, and_then, BatchView, is_item, in_batch, is_batch, items_of,
  get_batch,
}
use predixa_learn.Studio.Batches.Orders.{is_processing_item}

unfoldable pub batch_status : Text → Option BatchStatus
batch_status t =
    if same t (text "draft")
    then some BatchStatus.draft
    else if same t (text "queued")
    then some BatchStatus.queued
    else if same t (text "processing")
    then some BatchStatus.processing
    else if same t (text "paused")
    then some BatchStatus.paused
    else if same t (text "completed")
    then some BatchStatus.completed
    else if same t (text "partial")
    then some BatchStatus.partial
    else if same t (text "cancelled")
    then some BatchStatus.cancelled
    else none

-- `casefold`, of which only what becomes an `e` or an `n` matters here
abbrev pub fold_case : ℕ → ℕ
fold_case c = if leb 65 c && leb c 90 then c + 32 else c

-- `str(language).strip().casefold() == "en"`
unfoldable pub is_english : Text → Bool
is_english t = same (map fold_case (strip t)) (text "en")

abbrev pub given : Option Text → Text → Text
given none default = default
given (some t) default = t

-- A file of a batch to create: the columns that the item gets from it, and its new id
pub record NewItem : Type 0 where
  pub item_id : Text
  pub input_name : Text
  pub staged_path : Text
  pub source_sha256 : Text
  pub size_bytes : ℕ
  pub overrides : Overrides

pub record NewBatch : Type 0 where
  pub batch_id : Text
  pub status : Option Text
  pub workflow : Option Text
  pub language : Option Text
  pub document_profile : Option Text
  pub remove_terms : List Text
  pub created_at : ℕ

unfoldable pub new_item : Text → ℕ → NewItem → Item
new_item id n i = record {
  item_id = i.item_id;
  batch_id = id;
  position = at n;
  input_name = i.input_name;
  staged_path = i.staged_path;
  source_sha256 = i.source_sha256;
  size_bytes = i.size_bytes;
  overrides = i.overrides;
  status = ItemStatus.queued;
  job_id = none;
  retry_pending = false;
  error = none;
}

-- `enumerate(items)`
unfoldable pub new_items : Text → ℕ → List NewItem → List Item
new_items id n [] = []
new_items id n (i ∷ is) = new_item id n i ∷ new_items id (suc n) is

abbrev pub is_foreign : NewItem → Bool
is_foreign i = not (is_english (given i.overrides.language (text "en")))

-- The columns that operations read: name, settings, creator and media types are left out.
unfoldable pub new_batch : NewBatch → BatchStatus → Batch
new_batch b s = record {
  batch_id = b.batch_id;
  status = s;
  workflow = given b.workflow (text "text_recognition");
  language = text "en";
  document_profile = b.document_profile;
  remove_terms = b.remove_terms;
  created_at = b.created_at;
}

abbrev pub with_batch_status : NewBatch → List NewItem → Table → Option BatchStatus → Answer Table
with_batch_status b is t none = refused invalid_value
with_batch_status b is t (some status) =
    if not (is_english (given b.language (text "en")))
    then refused invalid_value
    else if any is_foreign is
    then refused invalid_value
    else answered (record t {
      batches = t.batches ++ new_batch b status ∷ [];
      items = t.items ++ new_items b.batch_id 0 is;
    })

-- `create_batch`. The ids are new (`uuid4`), so the inserts meet no constraint.
unfoldable pub create_batch : NewBatch → List NewItem → Table → Answer Table
create_batch b is t =
    if length is == 0 || ltb 100 (length is)
    then refused invalid_value
    else with_batch_status b is t (batch_status (given b.status (text "queued")))

abbrev pub created : Batch → ℕ
created b = b.created_at

abbrev pub views : Table → List Batch → List BatchView
views t [] = []
views t (b ∷ bs) = record { header = b; items = items_of b.batch_id t } ∷ views t bs

-- `list_batches`: the newest first, at most a hundred
unfoldable pub list_batches : Table → List BatchView
list_batches t = views t (take 100 (reverse (sort created t.batches)))

abbrev pub set_batch_status : Text → BatchStatus → Batch → Batch
set_batch_status id s b = if is_batch id b then record b { status = s } else b

abbrev pub patched_batches : Table → Text → BatchStatus → Table
patched_batches t id s = record t { batches = map (set_batch_status id s) t.batches }

-- `patch_batch` with a status
unfoldable pub patch_batch : Text → BatchStatus → Table → Answer Table
patch_batch id s t = and_then (get_batch id t) λ b. answered (patched_batches t id s)

pub record ItemPatch : Type 0 where
  pub status : ItemStatus
  pub job_id : Option Text
  pub retry_pending : Bool
  pub error : Option Text

abbrev coalesce : Option Text → Option Text → Option Text
coalesce none old = old
coalesce (some t) old = some t

unfoldable pub set_item : ItemPatch → Item → Item
set_item p i = record i {
  status = p.status;
  job_id = coalesce p.job_id i.job_id;
  retry_pending = p.retry_pending;
  error = p.error;
}

abbrev pub is_item_of : Text → Text → Item → Bool
is_item_of id item i = in_batch id i && is_item item i

abbrev pub patch_rows : Text → Text → ItemPatch → List Item → List Item
patch_rows id item p is = map (λ i. if is_item_of id item i then set_item p i else i) is

-- The job that the row would refer to is none of `history_jobs`.
abbrev pub is_unknown_job : Table → Option Text → Bool
is_unknown_job t none = false
is_unknown_job t (some j) = not (t.has_job j)

-- `patch_batch_item`, which rolls back unless it has changed one row
unfoldable pub patch_batch_item : Text → Text → ItemPatch → Table → Answer Table
patch_batch_item id item p t =
    if not (count (is_item_of id item) t.items == 1)
    then refused missing
    else if is_unknown_job t p.job_id
    then refused integrity
    else answered (record t { items = patch_rows id item p t.items })

abbrev pub is_interrupted_item : ItemStatus → Bool
is_interrupted_item ItemStatus.interrupted = true
is_interrupted_item _ = false

abbrev pub is_processing_batch : BatchStatus → Bool
is_processing_batch BatchStatus.processing = true
is_processing_batch _ = false

abbrev pub interrupt : Item → Item
interrupt i =
    if is_processing_item i.status
    then record i {
      status = ItemStatus.interrupted;
      error = some (text "Service stopped during processing");
    }
    else i

abbrev pub requeue : Item → Item
requeue i =
    if is_interrupted_item i.status
    then record i { status = ItemStatus.queued; retry_pending = true }
    else i

abbrev pub requeue_batch : Batch → Batch
requeue_batch b =
    if is_processing_batch b.status then record b { status = BatchStatus.queued } else b

-- `recover_batches`: the number of rows of the first update, and the table
unfoldable pub recover_batches : Table → ℕ × Table
recover_batches t = (
  count (λ (i : Item). is_processing_item i.status) t.items,
  record t { batches = map requeue_batch t.batches; items = map requeue (map interrupt t.items) },
)

-- `delete_batch`, which answers the staged paths; the items go with the batch. It reads the table
-- `before` and writes to the table `t`.
unfoldable pub delete_batch : Text → Table → Table → Answer (List Text × Table)
delete_batch id before t = and_then (get_batch id before) λ b.
    if any (λ (i : Item). is_processing_item i.status) b.items
    then refused conflict
    else answered (
      map (λ (i : Item). i.staged_path) b.items,
      record t {
        batches = keep (λ b. not (is_batch id b)) t.batches;
        items = keep (λ i. not (in_batch id i)) t.items;
      },
    )
