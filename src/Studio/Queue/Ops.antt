-- ===== src/Studio/Queue/Ops.antt =====
-- The methods of `JobQueue` that callers and the event loop run (apps/ocr-studio/app/core/queue.py),
-- one function for each section under the lock. A section reads the clock once, `now`; `saved` says
-- whether the write to the history store went through.
use predixa_learn.Prelude.{
  ℕ, zero, suc, ◌+◌, ◌*◌, String, Bool, true, false, not, ◌&&◌, Option, none, some, List, [], ◌∷◌,
  ◌++◌, ◌==◌, ltb, if◌then◌else◌, length, keep, first, count, without,
}
use predixa_learn.Studio.Queue.State.{
  is_active, is_terminal, Document, InputKind, image, JobResult, JobEntry, HistoryRow, JobQueue,
  status_of, put,
}

-- `_active_count`
unfoldable pub active_count : JobQueue → ℕ
active_count q = count (λ id. is_active (status_of q id)) q.jobs

-- `has_active_jobs`
pub has_active_jobs : JobQueue → Bool
has_active_jobs q = ltb 0 (active_count q)

-- `updated_at < now - timedelta(seconds=job_ttl_seconds)` for a finished job
unfoldable pub is_expired : JobQueue → ℕ → ℕ → Bool
is_expired q now id =
    is_terminal (status_of q id)
    && ltb ((q.entry id).result.updated_at + q.settings.job_ttl_seconds * 1000000) now

-- The `while` loop of `_prune`; a round removes a key, so as many rounds as keys are enough.
unfoldable pub trim : (ℕ → Bool) → ℕ → ℕ → List ℕ → List ℕ
trim removable limit zero jobs = jobs
trim removable limit (suc fuel) jobs =
    if ltb limit (length jobs)
    then elim (first removable jobs) [
      | none ↦ jobs
      | some id ↦ trim removable limit fuel (without id jobs)
    ]
    else jobs

-- `_prune`
unfoldable pub prune : ℕ → JobQueue → JobQueue
prune now q =
    let kept = keep (λ id. not (is_expired q now id)) q.jobs in
    record q {
      jobs =
          trim (λ id. is_terminal (status_of q id)) q.settings.max_job_history (length kept) kept;
    }

-- `_set_progress`, where `none` leaves a page number as it is
pub record ProgressUpdate : Type 0 where
  pub stage : String
  pub message : String
  pub current_page : Option ℕ
  pub total_pages : Option ℕ
  pub completed_pages : Option ℕ

-- `if value is not None: field = value`
abbrev pub if_given {ℓ} : {A : Type ℓ} → Option A → Option A → Option A
if_given none old = old
if_given (some n) old = some n

abbrev pub value_or : Option ℕ → ℕ → ℕ
value_or none old = old
value_or (some n) old = n

unfoldable pub set_progress : ProgressUpdate → ℕ → JobEntry → JobEntry
set_progress u now e =
    let p = e.result.progress in
    record e {
      result = record e.result {
        progress = record {
          stage = u.stage;
          message = u.message;
          current_page = if_given u.current_page p.current_page;
          total_pages = if_given u.total_pages p.total_pages;
          completed_pages = value_or u.completed_pages p.completed_pages;
          updated_at = now;
        };
        updated_at = now;
      };
    }

abbrev pub notice : String → String → ProgressUpdate
notice stage message = record {
  stage = stage;
  message = message;
  current_page = none;
  total_pages = none;
  completed_pages = none;
}

abbrev document_pages : Option Document → Option ℕ
document_pages none = none
document_pages (some d) = d.page_count

abbrev one_image : InputKind → Option ℕ
one_image image = some 1
one_image _ = none

-- `_item_count`: the first of the page total, the document's page count and 1 for an image
unfoldable pub item_count : JobResult → Option ℕ
item_count r =
    if_given r.progress.total_pages (if_given (document_pages r.result) (one_image r.input_kind))

abbrev quality : Option Document → Option ℕ
quality none = none
quality (some d) = d.coverage_percent

abbrev warnings : Option Document → ℕ
warnings none = 0
warnings (some d) = d.warning_count

unfoldable pub history_row : JobEntry → Option String → HistoryRow
history_row e result_path = record {
  job_id = e.result.job_id;
  input_name = e.result.input_name;
  workflow = e.result.workflow;
  input_kind = e.result.input_kind;
  status = e.result.status;
  item_count = item_count e.result;
  error = e.result.error;
  result_path = result_path;
  artifact_manifest_path = e.artifact_manifest_path;
  created_at = e.result.created_at;
  started_at = e.result.started_at;
  completed_at = e.result.completed_at;
  updated_at = e.result.updated_at;
  language = e.language;
  document_profile = e.document_profile;
  remove_terms = e.remove_terms;
  quality_score = quality e.result.result;
  warning_count = warnings e.result.result;
}

abbrev pub is_row_of : ℕ → HistoryRow → Bool
is_row_of id r = r.job_id == id

-- `ON CONFLICT(job_id) DO UPDATE` in `HistoryStore.upsert`, of the row that is there
unfoldable pub updated_row : HistoryRow → HistoryRow → HistoryRow
updated_row new old = record new {
  result_path = if_given new.result_path old.result_path;
  artifact_manifest_path = if_given new.artifact_manifest_path old.artifact_manifest_path;
  created_at = old.created_at;
  started_at = if_given new.started_at old.started_at;
  language = if_given new.language old.language;
  quality_score = if_given new.quality_score old.quality_score;
}

-- `HistoryStore.upsert`
unfoldable pub upsert : HistoryRow → List HistoryRow → List HistoryRow
upsert new [] = new ∷ []
upsert new (r ∷ rs) =
    let rest = upsert new rs in if is_row_of new.job_id r then updated_row new r ∷ rs else r ∷ rest

abbrev pub unsaved_warning : String
unsaved_warning = "OCR succeeded, but its history record could not be saved"

-- `_persist_history`
unfoldable pub persist_history : ℕ → Option String → Bool → JobQueue → JobQueue
persist_history id result_path saved q =
    let e = q.entry id in
    if saved
    then put (record q { history = upsert (history_row e result_path) q.history }) id
        (record e { result = record e.result { history_saved = true; history_warning = none } })
    else put q id (record e {
      result = record e.result { history_saved = false; history_warning = some unsaved_warning };
    })

-- `if entry.delete_input: entry.input_path.unlink(missing_ok=True)`
unfoldable pub unlink_input : ℕ → JobQueue → JobQueue
unlink_input id q =
    let e = q.entry id in
    if e.delete_input then record q { unlinked = q.unlinked ++ e.input_path ∷ [] } else q

-- `if entry.delete_input: …; entry.delete_input = False`
unfoldable pub drop_input : ℕ → JobQueue → JobQueue
drop_input id q = put (unlink_input id q) id (record (q.entry id) { delete_input = false })
