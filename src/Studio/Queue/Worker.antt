-- ===== src/Studio/Queue/Worker.antt =====
-- `_execute` on the one worker thread (apps/ocr-studio/app/core/queue.py), one function for each
-- section under the lock, and the events that drive the queue.
use predixa_learn.Prelude.{
  ℕ, String, Bool, false, Option, none, some, List, [], ◌∷◌, ◌==◌, if◌then◌else◌, contains, without,
}
use predixa_learn.Studio.Queue.State.{
  processing, completed, failed, Document, done, Phase, checked, entered, working, published,
  completed_marked, completed_shown, failed_marked, failed_shown, ending, JobQueue, put,
}
use predixa_learn.Studio.Queue.Ops.{
  prune, ProgressUpdate, set_progress, notice, item_count, persist_history, unlink_input,
  drop_input,
}
use predixa_learn.Studio.Queue.Calls.{
  Submission, submit, attach, finish_cancelled, cancel, get_result, shutdown, close_pool,
}

-- What the workflow, the artifact builder and the history store do next: they report progress, hand
-- back a document with the path of its manifest and of the saved result (`none`: saving raised), or
-- raise an `OCRServiceError` (its text and class name) or any other exception.
pub data Reply : Type 0 where
  progress : ProgressUpdate → Reply
  returned : Document → String → Option String → Reply
  service_error : String → String → Reply
  other_error : Reply

unfoldable pub at_phase : JobQueue → ℕ → Phase → JobQueue
at_phase q id phase = record q { worker = some (id, phase) }

-- `self._finish_cancelled(entry); return`, before the `try`: the thread is free again.
unfoldable pub end_early : ℕ → ℕ → Bool → JobQueue → JobQueue
end_early id now saved q =
    let q' = finish_cancelled id now saved q in
    put q' id (record (q'.entry id) { future = some done })

-- The thread takes `id` from the pool and reads the cancel event.
unfoldable pub begin : ℕ → ℕ → Bool → JobQueue → JobQueue
begin id now saved q =
    let q' = record q { pool = without id q.pool } in
    if contains id q.pool
    then (if (q.entry id).cancel_event then end_early id now saved q' else at_phase q' id checked)
    else q

-- `entry.result.status = JobStatus.PROCESSING` and the two lines after it
unfoldable pub enter : ℕ → ℕ → Bool → JobQueue → JobQueue
enter id now saved q =
    let e = q.entry id in
    at_phase
      (persist_history id none saved (
        put q id (record e {
          result = record e.result { status = processing; started_at = some now; updated_at = now };
        })))
      id entered

unfoldable pub initialize : ℕ → ℕ → JobQueue → JobQueue
initialize id now q =
    at_phase
      (put q id (
        set_progress
          (record (notice "initializing" "Preparing the OCR engine") { completed_pages = some 0 })
          now (q.entry id)))
      id working

-- `report_progress`: after a cancellation it raises, and the handler finishes the entry.
unfoldable pub report_progress : ℕ → ProgressUpdate → ℕ → Bool → JobQueue → JobQueue
report_progress id u now saved q =
    if (q.entry id).cancel_event
    then at_phase (finish_cancelled id now saved q) id ending
    else put q id (set_progress u now (q.entry id))

-- From the document that was published to the unlinked input; the unlinking does not raise.
unfoldable pub publish : ℕ → Document → String → Option String → JobQueue → JobQueue
publish id d manifest result_path q =
    let e = q.entry id in
    let e' = record e {
      result = record e.result { result = some d };
      artifact_manifest_path = some manifest;
    } in
    at_phase (drop_input id (put q id e')) id (published (item_count e'.result) result_path)

-- `entry.result.status = …` with the two error fields, as the exception handlers set them
unfoldable pub mark_completed : ℕ → Option ℕ → Option String → JobQueue → JobQueue
mark_completed id total result_path q =
    let e = q.entry id in
    at_phase (put q id (record e { result = record e.result { status = completed } })) id
      (completed_marked total result_path)

unfoldable pub mark_failed : ℕ → String → String → JobQueue → JobQueue
mark_failed id message code q =
    let e = q.entry id in
    at_phase
      (put q id (record e {
        result = record e.result { status = failed; error = some message; error_code = some code };
      }))
      id (failed_marked message)

-- `total_pages or completed_pages`
abbrev pub pages_or : Option ℕ → ℕ → ℕ
pages_or none old = old
pages_or (some n) old = if n == 0 then old else n

unfoldable pub show_completed : ℕ → Option ℕ → Option String → ℕ → JobQueue → JobQueue
show_completed id total result_path now q =
    let e = q.entry id in
    at_phase
      (put q id (
        set_progress
          (record {
            stage = "completed";
            message = "Processing complete";
            current_page = total;
            total_pages = total;
            completed_pages = some (pages_or total e.result.progress.completed_pages);
          })
          now e))
      id (completed_shown result_path)

unfoldable pub show_failed : ℕ → String → ℕ → JobQueue → JobQueue
show_failed id message now q =
    at_phase (put q id (set_progress (notice "failed" message) now (q.entry id))) id failed_shown

-- `entry.result.completed_at = entry.result.updated_at`, then `_persist_history`
unfoldable pub stamp_and_persist : ℕ → Option String → Bool → JobQueue → JobQueue
stamp_and_persist id result_path saved q =
    let e = q.entry id in
    persist_history id result_path saved
      (put q id (record e { result = record e.result { completed_at = some e.result.updated_at } }))

abbrev pub result_warning : String
result_warning = "OCR succeeded, but its result could not be added to history"

-- `if result_save_failed: …`
unfoldable pub warn_unsaved : ℕ → Option String → JobQueue → JobQueue
warn_unsaved id (some path) q = q
warn_unsaved id none q =
    let e = q.entry id in
    put q id (record e {
      result = record e.result { history_saved = false; history_warning = some result_warning };
    })

-- The `finally` block; the thread is free afterwards and the future is done.
unfoldable pub clean_up : ℕ → ℕ → JobQueue → JobQueue
clean_up id now q =
    let q' = prune now (unlink_input id q) in
    record (put q' id (record (q'.entry id) { future = some done })) { worker = none }

-- While the workflow runs.
unfoldable pub work : ℕ → Reply → ℕ → Bool → JobQueue → JobQueue
work id (progress u) now saved q = report_progress id u now saved q
work id (returned d manifest result_path) now saved q = publish id d manifest result_path q
work id (service_error message code) now saved q = mark_failed id message code q
work id other_error now saved q =
    mark_failed id "OCR processing failed unexpectedly" "InternalError" q

-- The next section of `_execute`.
unfoldable pub advance : ℕ → Phase → Reply → ℕ → Bool → JobQueue → JobQueue
advance id checked r now saved q = enter id now saved q
advance id entered r now saved q = initialize id now q
advance id working r now saved q = work id r now saved q
advance id (published total path) r now saved q = mark_completed id total path q
advance id (completed_marked total path) r now saved q = show_completed id total path now q
advance id (completed_shown path) r now saved q =
    at_phase (warn_unsaved id path (stamp_and_persist id path saved q)) id ending
advance id (failed_marked message) r now saved q = show_failed id message now q
advance id failed_shown r now saved q = at_phase (stamp_and_persist id none saved q) id ending
advance id ending r now saved q = clean_up id now q

-- One section of some thread. `begun` needs a free thread and `worked` a busy one; otherwise they
-- are no steps, and change nothing.
pub data Event : Type 0 where
  submitted : Submission → ℕ → ℕ → Bool → Event
  attached : ℕ → Event
  begun : ℕ → ℕ → Bool → Event
  worked : Reply → ℕ → Bool → Event
  cancel_requested : ℕ → ℕ → Bool → Event
  was_read : ℕ → ℕ → Event
  future_dropped : ℕ → Event
  shut_down : ℕ → (ℕ → Bool) → Event
  pool_closed : Event

unfoldable pub begin_if_free : Option (ℕ × Phase) → ℕ → ℕ → Bool → JobQueue → JobQueue
begin_if_free none id now saved q = begin id now saved q
begin_if_free (some _) id now saved q = q

unfoldable pub advance_if_busy : Option (ℕ × Phase) → Reply → ℕ → Bool → JobQueue → JobQueue
advance_if_busy none r now saved q = q
advance_if_busy (some (id, phase)) r now saved q = advance id phase r now saved q

unfoldable pub step : Event → JobQueue → JobQueue
unfolding begin_if_free advance_if_busy
step (submitted s id now saved) q = (submit s id now saved q).0
step (attached id) q = attach id q
step (begun id now saved) q = begin_if_free q.worker id now saved q
step (worked r now saved) q = advance_if_busy q.worker r now saved q
step (cancel_requested id now saved) q = (cancel id now saved q).0
step (was_read id now) q = (get_result id now q).0
step (future_dropped id) q = record q { pool = without id q.pool }
step (shut_down now saves) q = shutdown now saves q
step pool_closed q = close_pool q

-- The sections of all threads, in the order in which they take the lock.
unfoldable pub run : List Event → JobQueue → JobQueue
run [] q = q
run (e ∷ es) q = run es (step e q)
