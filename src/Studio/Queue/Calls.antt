-- ===== src/Studio/Queue/Calls.antt =====
-- What callers run on the queue: `submit`, `_finish_cancelled`, `cancel`, the readers and
-- `shutdown` (apps/ocr-studio/app/core/queue.py).
use predixa_learn.Prelude.{
  ℕ, suc, String, Bool, true, false, ◌&&◌, Option, none, some, List, [], ◌∷◌, ◌++◌, leb, ◌==◌,
  if◌then◌else◌, keep, map, contains,
}
use predixa_learn.Studio.Queue.State.{
  pending, cancelled, is_active, is_terminal, is_pending, InputKind, JobResult, Future, waiting,
  stopped, JobEntry, JobQueue, status_of, max_inflight, put,
}
use predixa_learn.Studio.Queue.Ops.{
  active_count, prune, set_progress, notice, persist_history, drop_input,
}

-- The arguments of `submit`, with the input kind that the suffix of the path tells, and with the
-- name of the path where no input name is given.
pub record Submission : Type 0 where
  pub workflow : String
  pub input_path : String
  pub input_name : String
  pub input_kind : InputKind
  pub delete_input : Bool
  pub remove_text : Option String
  pub remove_terms : List String
  pub language : Option String
  pub document_profile : String

pub data Submitted : Type 0 where
  accepted : ℕ → Submitted
  shut_down queue_full : Submitted

-- The `_JobEntry` that `submit` builds.
unfoldable pub new_entry : Submission → ℕ → ℕ → JobEntry
new_entry s id now = record {
  result = record {
    job_id = id;
    status = pending;
    workflow = s.workflow;
    result = none;
    error = none;
    error_code = none;
    input_name = s.input_name;
    input_kind = s.input_kind;
    language = s.language;
    document_profile = some s.document_profile;
    progress = record {
      stage = "queued";
      message = "Upload verified; waiting for GPU";
      current_page = none;
      total_pages = none;
      completed_pages = 0;
      updated_at = now;
    };
    started_at = none;
    completed_at = none;
    history_saved = false;
    history_warning = none;
    cancel_requested = false;
    created_at = now;
    updated_at = now;
  };
  input_path = s.input_path;
  delete_input = s.delete_input;
  remove_text = s.remove_text;
  remove_terms = s.remove_terms;
  language = s.language;
  document_profile = s.document_profile;
  artifact_manifest_path = none;
  future = none;
  cancel_event = false;
}

-- `self._jobs[job_id] = entry`: a new key goes to the end, and a known one keeps its place.
unfoldable pub add_key : ℕ → List ℕ → List ℕ
add_key id jobs = if contains id jobs then jobs else jobs ++ id ∷ []

-- The part of `submit` under the lock. Its last statement, outside of the lock, is `attach`.
unfoldable pub submit : Submission → ℕ → ℕ → Bool → JobQueue → JobQueue × Submitted
submit s id now saved q =
    if q.closed
    then (q, shut_down)
    else let q' = prune now q in
      if leb (max_inflight q') (active_count q') then (q', queue_full) else (
        persist_history id none saved
            (put (record q' { jobs = add_key id q'.jobs }) id (new_entry s id now)),
        accepted id,
      )

-- `entry.future = loop.run_in_executor(self._pool, self._execute, entry)`
unfoldable pub run_in_executor : ℕ → JobQueue → JobQueue
run_in_executor id q =
    put (record q { pool = q.pool ++ id ∷ [] }) id (record (q.entry id) { future = some waiting })

-- The last statement of `submit`; the pool refuses work after its shutdown.
unfoldable pub attach : ℕ → JobQueue → JobQueue
attach id q = if q.pool_closed then q else run_in_executor id q

-- `_finish_cancelled` for an entry that has not finished
unfoldable pub mark_cancelled : ℕ → ℕ → Bool → JobQueue → JobQueue
mark_cancelled id now saved q =
    let e = q.entry id in
    let shown =
      set_progress (notice "cancelled" "Processing was cancelled") now
        (record e { result = record e.result { cancel_requested = true; status = cancelled } }) in
    drop_input id (
      persist_history id none saved (
        put q id (record shown {
          result = record shown.result { completed_at = some shown.result.updated_at };
        })))

-- `_finish_cancelled`
unfoldable pub finish_cancelled : ℕ → ℕ → Bool → JobQueue → JobQueue
finish_cancelled id now saved q =
    if is_terminal (status_of q id) then q else mark_cancelled id now saved q

-- `entry.future and entry.future.cancel()`
abbrev pub can_stop : Option Future → Bool
can_stop (some waiting) = true
can_stop _ = false

-- The fields that `cancel` and `shutdown` set first.
unfoldable pub request_cancel : JobEntry → JobEntry
request_cancel e = record e {
  result = record e.result { cancel_requested = true };
  cancel_event = true;
}

unfoldable pub stop_future : JobEntry → JobEntry
stop_future e = record e { future = some stopped }

abbrev pub cancel_message : String
cancel_message = "Cancellation requested; finishing the current safe operation"

-- `cancel` for a job that is known and has not finished
unfoldable pub cancel_active : ℕ → ℕ → Bool → JobQueue → JobQueue
cancel_active id now saved q =
    let e = request_cancel (q.entry id) in
    if is_pending e.result.status && can_stop e.future
    then finish_cancelled id now saved (put q id (stop_future e))
    else put q id (set_progress (notice e.result.progress.stage cancel_message) now e)

-- `cancel`, with the snapshot that it returns
unfoldable pub cancel : ℕ → ℕ → Bool → JobQueue → JobQueue × Option JobResult
cancel id now saved q =
    let q' = prune now q in
    if contains id q'.jobs
    then (if is_terminal (status_of q' id)
        then (q', some (q'.entry id).result)
        else let q'' = cancel_active id now saved q' in (q'', some (q''.entry id).result))
    else (q', none)

unfoldable pub index_from : ℕ → ℕ → List ℕ → Option ℕ
index_from k id [] = none
index_from k id (x ∷ xs) = let rest = index_from (suc k) id xs in if x == id then some k else rest

unfoldable pub pending_ids : JobQueue → List ℕ
pending_ids q = keep (λ id. is_pending (status_of q id)) q.jobs

-- `queue_position`: `pending.index(job_id) + 1`
unfoldable pub queue_position : ℕ → JobQueue → Option ℕ
unfolding index_from
queue_position id q = index_from 1 id (pending_ids q)

-- `get_result`
unfoldable pub get_result : ℕ → ℕ → JobQueue → JobQueue × Option JobResult
get_result id now q =
    let q' = prune now q in (q', if contains id q'.jobs then some (q'.entry id).result else none)

-- `list_jobs`
unfoldable pub list_jobs : ℕ → JobQueue → JobQueue × List (ℕ × JobResult)
list_jobs now q = let q' = prune now q in (q', map (λ id. (id, (q'.entry id).result)) q'.jobs)

-- `wait_for_result` once the future is done: the result of a job that was known when the wait began,
-- and from the object if its key is gone by now.
unfoldable pub result_after_wait : ℕ → ℕ → JobQueue → JobQueue × JobResult
result_after_wait id now q = let q' = prune now q in (q', (q'.entry id).result)

-- The body of the loop of `shutdown`.
unfoldable pub stop_job : ℕ → ℕ → Bool → JobQueue → JobQueue
stop_job id now saved q =
    let e = request_cancel (q.entry id) in
    if is_active (status_of q id)
    then (if is_pending e.result.status && can_stop e.future
        then finish_cancelled id now saved (put q id (stop_future e))
        else put q id e)
    else q

unfoldable pub stop_jobs : ℕ → (ℕ → Bool) → List ℕ → JobQueue → JobQueue
stop_jobs now saves [] q = q
stop_jobs now saves (id ∷ ids) q = stop_jobs now saves ids (stop_job id now (saves id) q)

-- The part of `shutdown` under the lock.
unfoldable pub shutdown : ℕ → (ℕ → Bool) → JobQueue → JobQueue
shutdown now saves q =
    if q.closed then q else stop_jobs now saves q.jobs (record q { closed = true })

-- `self._pool.shutdown(wait=True, cancel_futures=True)` drops the work that has not begun.
unfoldable pub close_pool : JobQueue → JobQueue
close_pool q = record q { pool = []; pool_closed = true }
