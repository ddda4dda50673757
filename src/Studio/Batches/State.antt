-- ===== src/Studio/Batches/State.antt =====
-- The tables `batches` and `batch_items` and the statements that change them
-- (apps/ocr-studio/app/teaching/store.py and the schema in storage/history.py).
use predixa_learn.Prelude.{
  ℕ, suc, ◌+◌, Bool, true, false, not, ◌&&◌, ◌||◌, Option, none, some, List, map, if◌then◌else◌,
  ◌==◌, any, keep, first, sort, Text, same,
}

-- `_BATCH_STATUSES`
pub data BatchStatus : Type 0 where
  draft queued processing paused completed partial cancelled : BatchStatus

-- The statuses that `patch_batch_item` allows
pub data ItemStatus : Type 0 where
  queued processing completed failed cancelled interrupted : ItemStatus

-- The position column: a number, or the -1 that a swap puts in between.
pub data Position : Type 0 where
  minus_one : Position
  at : ℕ → Position

-- The order of the positions
abbrev pub rank : Position → ℕ
rank minus_one = 0
rank (at n) = suc n

-- `position + 1000`
abbrev pub plus_thousand : Position → Position
plus_thousand minus_one = at 999
plus_thousand (at n) = at (n + 1000)

pub record Overrides : Type 0 where
  pub language : Option Text
  pub remove_terms : Option (List Text)
  pub document_profile : Option Text

pub record Item : Type 0 where
  pub item_id : Text
  pub batch_id : Text
  pub position : Position
  pub input_name : Text
  pub staged_path : Text
  pub source_sha256 : Text
  pub size_bytes : ℕ
  pub overrides : Overrides
  pub status : ItemStatus
  pub job_id : Option Text
  pub retry_pending : Bool
  pub error : Option Text

pub record Batch : Type 0 where
  pub batch_id : Text
  pub status : BatchStatus
  pub workflow : Text
  pub language : Text
  pub document_profile : Option Text
  pub remove_terms : List Text
  pub created_at : ℕ

-- The two tables, and which jobs `history_jobs` has, which `job_id` refers to.
pub record Table : Type 0 where
  pub batches : List Batch
  pub items : List Item
  pub has_job : Text → Bool

abbrev pub is_queued_item : ItemStatus → Bool
is_queued_item queued = true
is_queued_item _ = false

-- KeyError, TeachingConflictError, TeachingValidationError and sqlite3's IntegrityError
pub data StoreError : Type 0 where
  missing conflict invalid_value integrity : StoreError

pub data Answer (A : Type 0) : Type 0 where
  refused : StoreError → Answer A
  answered : A → Answer A

-- The next statement of a method, which an exception skips.
abbrev pub and_then : {A B : Type 0} → Answer A → (A → Answer B) → Answer B
and_then (refused e) next = refused e
and_then (answered a) next = next a

abbrev pub is_item : Text → Item → Bool
is_item id i = same i.item_id id

abbrev pub in_batch : Text → Item → Bool
in_batch id i = same i.batch_id id

abbrev pub is_batch : Text → Batch → Bool
is_batch id b = same b.batch_id id

-- Two rows that `UNIQUE(batch_id, position)` does not allow beside each other
unfoldable pub collides : Item → Item → Bool
collides x y =
    not (same y.item_id x.item_id)
    && same y.batch_id x.batch_id
    && rank y.position == rank x.position

unfoldable pub set_rows : (Item → Bool) → (Item → Item) → List Item → List Item
set_rows p f is = map (λ i. if p i then f i else i) is

-- `UPDATE batch_items SET … WHERE …`. The database does not say in which order it changes the rows,
-- and checks each as it is written: the statement fails here where it fails in some order.
unfoldable pub update_items : (Item → Bool) → (Item → Item) → Table → Answer Table
update_items p f t =
    let is = set_rows p f t.items in
    if any (λ x. any (collides x) t.items || any (collides x) is) (map f (keep p t.items))
    then refused integrity
    else answered (record t { items = is })

-- The header of a batch and its items, by position
pub record BatchView : Type 0 where
  pub header : Batch
  pub items : List Item

abbrev pub position_rank : Item → ℕ
position_rank i = rank i.position

unfoldable pub items_of : Text → Table → List Item
items_of id t = sort position_rank (keep (in_batch id) t.items)

abbrev pub with_header : Text → Table → Option Batch → Answer BatchView
with_header id t none = refused missing
with_header id t (some b) = answered (record { header = b; items = items_of id t })

-- `get_batch`
unfoldable pub get_batch : Text → Table → Answer BatchView
get_batch id t = with_header id t (first (is_batch id) t.batches)
