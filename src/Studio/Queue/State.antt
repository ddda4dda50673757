-- ===== src/Studio/Queue/State.antt =====
-- The queue's objects (apps/ocr-studio/app/core/queue.py, the classes above `JobQueue` and the
-- fields that `__init__` sets). A job id is the number that `uuid4().hex` spells, a time is a
-- number of microseconds, and a path is its text.
use predixa_learn.Prelude.{ℕ, ◌+◌, String, Bool, true, false, Option, List, ◌==◌, if◌then◌else◌}

pub data JobStatus : Type 0 where
  pending processing completed failed cancelled : JobStatus

-- The set `active` of `_active_count`.
abbrev pub is_active : JobStatus → Bool
is_active pending = true
is_active processing = true
is_active _ = false

-- The set `terminal` of `_prune`, and the statuses that `cancel` and `_finish_cancelled` leave alone.
abbrev pub is_terminal : JobStatus → Bool
is_terminal completed = true
is_terminal failed = true
is_terminal cancelled = true
is_terminal _ = false

abbrev pub is_pending : JobStatus → Bool
is_pending pending = true
is_pending _ = false

pub record JobProgress : Type 0 where
  pub stage : String
  pub message : String
  pub current_page : Option ℕ
  pub total_pages : Option ℕ
  pub completed_pages : ℕ
  pub updated_at : ℕ

-- What the queue reads of a published result, which is otherwise an opaque document: the field
-- `page_count` where it is an integer that is not negative, the finite coverage in millionths of a
-- percent, and the number of warnings.
pub record Document : Type 0 where
  pub content : String
  pub page_count : Option ℕ
  pub coverage_percent : Option ℕ
  pub warning_count : ℕ

pub data InputKind : Type 0 where
  pdf image : InputKind

pub record JobResult : Type 0 where
  pub job_id : ℕ
  pub status : JobStatus
  pub workflow : String
  pub result : Option Document
  pub error : Option String
  pub error_code : Option String
  pub input_name : String
  pub input_kind : InputKind
  pub language : Option String
  pub document_profile : Option String
  pub progress : JobProgress
  pub started_at : Option ℕ
  pub completed_at : Option ℕ
  pub history_saved : Bool
  pub history_warning : Option String
  pub cancel_requested : Bool
  pub created_at : ℕ
  pub updated_at : ℕ

-- The asyncio future of `run_in_executor`, as far as its `cancel` method tells apart.
pub data Future : Type 0 where
  waiting stopped done : Future

pub record JobEntry : Type 0 where
  pub result : JobResult
  pub input_path : String
  pub delete_input : Bool
  pub remove_text : Option String
  pub remove_terms : List String
  pub language : Option String
  pub document_profile : String
  pub artifact_manifest_path : Option String
  pub future : Option Future
  pub cancel_event : Bool

-- The arguments of one `HistoryStore.upsert` that went through.
pub record HistoryRow : Type 0 where
  pub job_id : ℕ
  pub input_name : String
  pub workflow : String
  pub input_kind : InputKind
  pub status : JobStatus
  pub item_count : Option ℕ
  pub error : Option String
  pub result_path : Option String
  pub artifact_manifest_path : Option String
  pub created_at : ℕ
  pub started_at : Option ℕ
  pub completed_at : Option ℕ
  pub updated_at : ℕ
  pub language : Option String
  pub document_profile : String
  pub remove_terms : List String
  pub quality_score : Option ℕ
  pub warning_count : ℕ

-- Where the one worker thread stands in `_execute`: each constructor is a place between two
-- sections under the lock, with the local variables that are read later: the item count, and the
-- path of the saved result (`none` if saving it raised).
pub data Phase : Type 0 where
  checked entered working : Phase
  published : Option ℕ → Option String → Phase
  completed_marked : Option ℕ → Option String → Phase
  completed_shown : Option String → Phase
  failed_marked : String → Phase
  failed_shown ending : Phase

pub record Settings : Type 0 where
  pub job_ttl_seconds : ℕ
  pub max_job_history : ℕ
  pub max_queued_jobs : ℕ

-- `jobs` holds the keys of the ordered dictionary, oldest first, and `entry` the objects, which the
-- worker goes on using when their key is gone. `pool` is the work queue of the
-- executor, which runs one worker thread.
pub record JobQueue : Type 0 where
  pub settings : Settings
  pub jobs : List ℕ
  pub entry : ℕ → JobEntry
  pub closed : Bool
  pub pool : List ℕ
  pub pool_closed : Bool
  pub worker : Option (ℕ × Phase)
  pub history : List HistoryRow
  pub unlinked : List String

abbrev pub status_of : JobQueue → ℕ → JobStatus
status_of q id = (q.entry id).result.status

-- `_ACTIVE_GPU_JOBS + self.settings.max_queued_jobs`
abbrev pub active_gpu_jobs : ℕ
active_gpu_jobs = 1

abbrev pub max_inflight : JobQueue → ℕ
max_inflight q = active_gpu_jobs + q.settings.max_queued_jobs

-- An assignment to fields of the object with this id.
unfoldable pub put : JobQueue → ℕ → JobEntry → JobQueue
put q id e = record q { entry = λ j. if id == j then e else q.entry j }
