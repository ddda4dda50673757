-- ===== src/Studio/Batches/Tests.antt =====
-- Runs of the batch operations at concrete tables.
use mathlib.Core.List.{reverse}
use predixa_learn.Prelude.{
  ◌≤◌, ◌≡◌, ◌*◌, refl, true, false, none, some, List, [], ◌∷◌, ◌++◌, All, any, first, keep, sort,
  insert, count, length, Text, text, same, strip_left, is_space, arith,
}
use predixa_learn.Studio.Batches.State.{
  BatchStatus, ItemStatus, Position, at, rank, Overrides, Item, Batch, Table, missing, Answer,
  answered, and_then, BatchView, in_batch, is_batch, collides, set_rows, update_items, items_of,
  get_batch,
}
use predixa_learn.Studio.Batches.Orders.{
  up, index_of, swap_positions, reorder_batch_item, number_items, put_first, prioritize_batch_item,
}
use predixa_learn.Studio.Batches.Swap.{IsSound}
use predixa_learn.Studio.Batches.Contracts.{order_of, reordered, prioritized}
use predixa_learn.Studio.Batches.Reorder.{reorder_batch_item_refines}
use predixa_learn.Studio.Batches.Prioritize.{prioritize_batch_item_refines}
use predixa_learn.Studio.Batches.Statuses.{
  batch_status, is_english, NewItem, NewBatch, new_items, new_batch, create_batch, list_batches,
  is_item_of, is_processing_batch, recover_batches,
}
use predixa_learn.Studio.Batches.Coordinator.{
  World, Submission, Ending, source_error, is_under, is_workflow, next_item, process, escaped,
}
use predixa_learn.Studio.Batches.Processing.{Ends, process-Ends}
use predixa_learn.Studio.Batches.Escapes.{process_escapes}
use predixa_learn.Studio.Batches.Recovery.{IsIdle, AreRecovered, recover_batches_lem}
use predixa_learn.Studio.Batches.Next.{AreOldestFirst, Chooses, next_item-Chooses}
use predixa_learn.Studio.Batches.Created.{create_batch_reads}

abbrev plain : Overrides
plain = record { language = none; remove_terms = none; document_profile = none }

abbrev item : Text → Position → ItemStatus → Item
item id p s = record {
  item_id = id;
  batch_id = text "b";
  position = p;
  input_name = id;
  staged_path = id;
  source_sha256 = text "h";
  size_bytes = 1;
  overrides = plain;
  status = s;
  job_id = none;
  retry_pending = false;
  error = none;
}

abbrev batch : BatchStatus → Batch
batch s = record {
  batch_id = text "b";
  status = s;
  workflow = text "text_recognition";
  language = text "en";
  document_profile = none;
  remove_terms = [];
  created_at = 0;
}

-- The rows are not stored by position.
abbrev table : BatchStatus → Table
table s = record {
  batches = batch s ∷ [];
  items =
      item (text "y") (at 1) ItemStatus.queued
      ∷ item (text "x") (at 0) ItemStatus.failed
      ∷ item (text "z") (at 2) ItemStatus.queued
      ∷ [];
  has_job = λ j. true;
}

table-IsSound : (s : BatchStatus) → IsSound (table s).items
unfolding same
table-IsSound s = record {
  apart = (((refl, refl), ((refl, refl), tt)), (((refl, refl), tt), (tt, tt)));
  placed = (omega arith, (omega arith, (omega arith, tt)));
}

abbrev ids_after : Answer Table → Answer (List Text × List Position)
ids_after r = and_then r λ t. answered (order_of (text "b") t)

reorder_run :
    ids_after (
      reorder_batch_item
        (text "b")
        (text "z")
        up
        (table BatchStatus.paused)
        (table BatchStatus.paused))
    ≡ answered ((text "x" ∷ text "z" ∷ text "y" ∷ []), (at 0 ∷ at 1 ∷ at 2 ∷ []))
unfolding reorder_batch_item get_batch first same items_of sort insert keep index_of swap_positions
    update_items any collides set_rows
reorder_run = refl

prioritize_run :
    ids_after (
      prioritize_batch_item
        (text "b")
        (text "z")
        (table BatchStatus.queued)
        (table BatchStatus.queued))
    ≡ answered ((text "z" ∷ text "x" ∷ text "y" ∷ []), (at 0 ∷ at 1 ∷ at 2 ∷ []))
unfolding prioritize_batch_item get_batch first same items_of sort insert keep put_first
    number_items update_items any collides set_rows
prioritize_run = refl

reorder_batch_item_refines_example :
    ids_after (
      reorder_batch_item
        (text "b")
        (text "z")
        up
        (table BatchStatus.paused)
        (table BatchStatus.paused))
    ≡ reordered (text "z") up (get_batch (text "b") (table BatchStatus.paused))
reorder_batch_item_refines_example =
    reorder_batch_item_refines (text "b") (text "z") up (table BatchStatus.paused)
      (table-IsSound BatchStatus.paused)

few_items : length (items_of (text "b") (table BatchStatus.queued)) ≤ 1000
unfolding items_of sort insert keep same
few_items = omega arith

low_items :
    All (λ (i : Item). rank i.position ≤ 1000) (items_of (text "b") (table BatchStatus.queued))
unfolding items_of sort insert keep same
low_items = (omega arith, (omega arith, (omega arith, tt)))

prioritize_batch_item_refines_example :
    ids_after (
      prioritize_batch_item
        (text "b")
        (text "z")
        (table BatchStatus.queued)
        (table BatchStatus.queued))
    ≡ and_then (get_batch (text "b") (table BatchStatus.queued)) (prioritized (text "z"))
prioritize_batch_item_refines_example =
    prioritize_batch_item_refines (text "b") (text "z") (table BatchStatus.queued)
      (table-IsSound BatchStatus.queued) low_items few_items

abbrev staged : List Text
staged = text "uploads" ∷ text "y" ∷ []

-- The item is cancelled and deleted while its job runs.
abbrev delete_items : Table → Table
delete_items t = record t { items = [] }

abbrev world : World
world = record {
  root = text "uploads" ∷ [];
  resolve = λ p. staged;
  file_hash = λ p. some (text "h");
  free_space = λ p. 200 * 1024 * 1024;
  submit = Submission.accepted (text "j") true;
  wait = Ending.cancelled none;
  during_wait = delete_items;
  unlink = none;
  error_text = λ e. text "error";
}

abbrev view : BatchView
view = record { header = batch BatchStatus.queued; items = [] }

abbrev queued_item : Item
queued_item = item (text "y") (at 1) ItemStatus.queued

accepted_source : source_error world (batch BatchStatus.queued) queued_item ≡ none
unfolding source_error is_under is_workflow is_english strip_left is_space same
accepted_source = refl

process-Ends_example :
    Ends (text "b") (text "y") (process world view queued_item (table BatchStatus.queued))
process-Ends_example = process-Ends world view queued_item (table BatchStatus.queued)

one_row : count (is_item_of (text "b") (text "y")) (table BatchStatus.queued).items ≡ 1
unfolding count same
one_row = refl

header_found :
    first (is_batch (text "b")) (table BatchStatus.queued).batches ≡ some (batch BatchStatus.queued)
unfolding first same
header_found = refl

process_escapes_example :
    (t : Table) × (process world view queued_item (table BatchStatus.queued) ≡ escaped missing t)
unfolding count
process_escapes_example =
    process_escapes world view queued_item (table BatchStatus.queued) (batch BatchStatus.queued)
      (text "j") header_found accepted_source refl one_row (λ t. refl)

abbrev processing_table : Table
processing_table = record {
  batches = batch BatchStatus.processing ∷ [];
  items =
      item (text "x") (at 0) ItemStatus.completed
      ∷ item (text "y") (at 1) ItemStatus.processing
      ∷ [];
  has_job = λ j. true;
}

recover_run :
    (recover_batches processing_table).1.items
    ≡ item (text "x") (at 0) ItemStatus.completed
      ∷ record (item (text "y") (at 1) ItemStatus.queued) {
        retry_pending = true;
        error = some (text "Service stopped during processing");
      }
      ∷ []
unfolding recover_batches
recover_run = refl

recover_batches_lem_example :
    All IsIdle (recover_batches processing_table).1.items
    × All
        (λ (b : Batch). is_processing_batch b.status ≡ false)
        (recover_batches processing_table).1.batches
    × AreRecovered processing_table.items (recover_batches processing_table).1.items
    × ((id : Text)
        → order_of id (recover_batches processing_table).1 ≡ order_of id processing_table)
recover_batches_lem_example = recover_batches_lem processing_table

next_item-Chooses_example :
    AreOldestFirst (reverse (list_batches (table BatchStatus.queued)))
    × Chooses
        (reverse (list_batches (table BatchStatus.queued)))
        (table BatchStatus.queued)
        (next_item (table BatchStatus.queued))
next_item-Chooses_example = next_item-Chooses (table BatchStatus.queued)

abbrev new_file : NewItem
new_file = record {
  item_id = text "f";
  input_name = text "f.pdf";
  staged_path = text "f";
  source_sha256 = text "h";
  size_bytes = 1;
  overrides = plain;
}

abbrev order : NewBatch
order = record {
  batch_id = text "c";
  status = none;
  workflow = none;
  language = some (text " EN ");
  document_profile = none;
  remove_terms = [];
  created_at = 1;
}

unfoldable created_table : Table
created_table = record {
  batches = (table BatchStatus.queued).batches ++ new_batch order BatchStatus.queued ∷ [];
  items = (table BatchStatus.queued).items ++ new_items (text "c") 0 (new_file ∷ []);
  has_job = λ j. true;
}

create_run : create_batch order (new_file ∷ []) (table BatchStatus.queued) ≡ answered created_table
unfolding created_table create_batch batch_status is_english strip_left is_space any same
create_run = refl

none_yet : All (λ i. in_batch (text "c") i ≡ false) (table BatchStatus.queued).items
unfolding same
none_yet = (refl, (refl, (refl, tt)))

no_header : first (is_batch (text "c")) (table BatchStatus.queued).batches ≡ none
unfolding first same
no_header = refl

create_batch_reads_example :
    (status : BatchStatus) × (batch_status (text "queued") ≡ some status)
    × (1 ≤ length (new_file ∷ []))
    × (length (new_file ∷ []) ≤ 100)
    × (get_batch (text "c") created_table
        ≡ answered (record {
          header = new_batch order status;
          items = new_items (text "c") 0 (new_file ∷ []);
        }))
create_batch_reads_example =
    create_batch_reads order (new_file ∷ []) (table BatchStatus.queued) created_table none_yet
      no_header create_run
