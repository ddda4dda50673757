-- ===== src/Institution/Workers/Results.antt =====
-- Worker jobs: uploaded artifacts and published results
-- (apps/institution-server/institution_server/workers.py).
use predixa_learn.Prelude.{
  ℕ, ◌+◌, String, Bool, true, false, not, ◌&&◌, ◌||◌, Option, none, some, List, [], ◌∷◌, ◌++◌, ◌==◌,
  if◌then◌else◌, ltb, length, Text, text, same, starts_with,
}
use predixa_learn.Institution.Storage.{validate_key}
use predixa_learn.Institution.Workers.State.{
  JobStatus, completed, failed, cancelled, is_claimed, is_terminal, consumed, Kind, same_kind,
  WorkerDevice, Descriptor, Source, Job, Database, Library, Answer, refused, answered,
  same_optional, update,
}
use predixa_learn.Institution.Workers.Devices.{Credential, current_signed_worker, and_then, holds}
use predixa_learn.Institution.Workers.Sources.{max_bytes, is_valid_output, set_file, delete_file}
use predixa_learn.Institution.Workers.Jobs.{is_claimed_row, find_job}

abbrev pub has_kind : Kind → List Kind → Bool
has_kind k [] = false
has_kind k (x ∷ xs) = same_kind k x || has_kind k xs

abbrev same_key : Option Text → Option Text → Bool
same_key none none = true
same_key (some a) (some b) = same a b
same_key _ _ = false

abbrev same_descriptor : Descriptor → Descriptor → Bool
same_descriptor a b =
    same a.artifact_id b.artifact_id
    && same_kind a.kind b.kind
    && same a.sha256 b.sha256
    && a.size_bytes == b.size_bytes
    && same a.media_type b.media_type
    && same_key a.storage_key b.storage_key

abbrev has_descriptor : Descriptor → List Descriptor → Bool
has_descriptor d [] = false
has_descriptor d (x ∷ xs) = same_descriptor d x || has_descriptor d xs

-- `upload_worker_artifact`, for the new artifact id `fresh`
pub record Output : Type 0 where
  pub kind : Kind
  pub bytes : Text
  pub media_type : Text

unfoldable pub job_prefix : Text → Text → Text
job_prefix tenant job_id = tenant ++ text "/workers/jobs/" ++ job_id ++ text "/"

unfoldable pub output_descriptor : Library → Text → Text → Output → Descriptor
output_descriptor lib fresh key o = record {
  artifact_id = fresh;
  kind = o.kind;
  sha256 = lib.sha256 o.bytes;
  size_bytes = length o.bytes;
  media_type = o.media_type;
  storage_key = some key;
}

unfoldable pub add_upload : Descriptor → Job → Job
add_upload d j = record j {
  uploaded_artifacts =
      if has_descriptor d j.uploaded_artifacts
      then j.uploaded_artifacts
      else j.uploaded_artifacts ++ d ∷ [];
  version = j.version + 1;
}

abbrev pub store_output :
    Library → Text → Output → Job → Database → Option Text → Database × Answer Descriptor
store_output lib fresh o j db none = (db, refused 500 "ValueError")
store_output lib fresh o j db (some key) =
    let d = output_descriptor lib fresh key o in
    let db' = set_file key (some o.bytes) db in
    (record db' { jobs = update (is_claimed_row j) (add_upload d) db'.jobs }, answered d)

abbrev pub upload_to :
    Library
    → Text
    → Text
    → Output
    → WorkerDevice
    → Database
    → Option Job
    → Database × Answer Descriptor
upload_to lib id fresh o w db none = (db, refused 404 "job_not_found")
upload_to lib id fresh o w db (some j) =
    if not (holds w j)
    then (db, refused 404 "job_not_found")
    else if not (has_kind o.kind j.allowed_outputs)
    then (db, refused 422 "artifact_not_allowed")
    else if same o.bytes [] || ltb max_bytes (length o.bytes)
    then (db, refused 413 "artifact_too_large")
    else if not (is_valid_output lib o.kind o.bytes o.media_type)
    then (db, refused 422 "artifact_content_invalid")
    else store_output lib fresh o j db
        (validate_key (job_prefix w.tenant_id id ++ lib.sha256 o.bytes))

unfoldable pub upload_as :
    Library → Text → Text → Output → WorkerDevice → Database → Database × Answer Descriptor
upload_as lib id fresh o w db = upload_to lib id fresh o w db (find_job w.tenant_id id db)

unfoldable pub upload_worker_artifact :
    Library → Credential → Bool → Text → Text → Output → ℕ → Database → Database × Answer Descriptor
upload_worker_artifact lib c signed id fresh o now db =
    and_then (current_signed_worker c signed now db) (upload_as lib id fresh o)

-- `WorkerResult`
pub record WorkerResult : Type 0 where
  pub status : Text
  pub artifacts : List Descriptor
  pub result_summary : String

-- `body.status in {"completed", "failed", "cancelled"}`, as the status it becomes
unfoldable pub final_status : Text → Option JobStatus
final_status t =
    if same t (text "completed")
    then some completed
    else if same t (text "failed")
    then some failed
    else if same t (text "cancelled")
    then some cancelled
    else none

-- `(sha256, storage_key) in uploaded`
abbrev pub is_uploaded : Descriptor → List Descriptor → Bool
is_uploaded d [] = false
is_uploaded d (x ∷ xs) =
    same d.sha256 x.sha256 && same_key d.storage_key x.storage_key || is_uploaded d xs

-- `allowed and descriptor.kind not in allowed`
abbrev pub is_allowed : Kind → List Kind → Bool
is_allowed k [] = true
is_allowed k (x ∷ xs) = has_kind k (x ∷ xs)

abbrev pub check_data : Library → Descriptor → Option Text → Answer Unit
check_data lib d none = refused 422 "artifact_missing"
check_data lib d (some bytes) =
    if length bytes == d.size_bytes && same (lib.sha256 bytes) d.sha256
    then answered tt
    else refused 409 "artifact_corrupt"

abbrev pub check_scope : Library → Descriptor → Text → Database → Option Text → Answer Unit
check_scope lib d prefix db none = refused 500 "ValueError"
check_scope lib d prefix db (some key) =
    if starts_with prefix key
    then check_data lib d (db.files key)
    else refused 422 "artifact_invalid"

abbrev pub check_key : Library → Descriptor → Text → Database → Option Text → Answer Unit
check_key lib d prefix db none = refused 422 "artifact_invalid"
check_key lib d prefix db (some key) =
    if same key []
    then refused 422 "artifact_invalid"
    else check_scope lib d prefix db (validate_key key)

-- One round of the loop over `body.artifacts`
unfoldable pub check_artifact : Library → Text → Job → Database → Descriptor → Answer Unit
check_artifact lib prefix j db d =
    if not (is_allowed d.kind j.allowed_outputs)
    then refused 422 "artifact_not_allowed"
    else if not (is_uploaded d j.uploaded_artifacts)
    then refused 422 "artifact_not_uploaded"
    else check_key lib d prefix db d.storage_key

unfoldable pub check_artifacts : Library → Text → Job → Database → List Descriptor → Answer Unit
check_artifacts lib prefix j db [] = answered tt
check_artifacts lib prefix j db (d ∷ ds) =
    let rest = check_artifacts lib prefix j db ds in
    elim (check_artifact lib prefix j db d) [ refused n code ↦ refused n code | answered _ ↦ rest ]

unfoldable pub finish_job : WorkerResult → JobStatus → ℕ → Job → Job
finish_job body status now j = record j {
  artifacts = body.artifacts;
  result_summary = body.result_summary;
  completed_at = some now;
  status = status;
  version = j.version + 1;
}

unfoldable pub consume : Source → Source
consume s = record s { status = consumed; version = s.version + 1 }

abbrev pub delete_if_given : Option Text → (Text → Bool) → Database → Database
delete_if_given none undeletable db = db
delete_if_given (some key) undeletable db =
    if same key [] || undeletable key then db else delete_file key db

unfoldable pub record_result : WorkerResult → JobStatus → ℕ → Job → Database → Database
record_result body status now j db = record db {
  jobs = update (is_claimed_row j) (finish_job body status now) db.jobs;
  sources =
      update (λ s. same s.tenant_id j.tenant_id && same s.resource_id j.source.artifact_id) consume
        db.sources;
}

unfoldable pub publish_now :
    WorkerResult → JobStatus → (Text → Bool) → ℕ → Job → Database → Database
publish_now body status undeletable now j db =
    delete_if_given j.source.storage_key undeletable (record_result body status now j db)

abbrev pub publish_checked :
    WorkerResult
    → JobStatus
    → (Text → Bool)
    → ℕ
    → Job
    → Database
    → Answer Unit
    → Database × Answer JobStatus
publish_checked body status undeletable now j db (refused n code) = (db, refused n code)
publish_checked body status undeletable now j db (answered _) =
    (publish_now body status undeletable now j db, answered status)

abbrev pub publish_status :
    Library
    → Text
    → WorkerResult
    → (Text → Bool)
    → ℕ
    → WorkerDevice
    → Job
    → Database
    → Option JobStatus
    → Database × Answer JobStatus
publish_status lib id body undeletable now w j db none = (db, refused 422 "invalid_status")
publish_status lib id body undeletable now w j db (some status) =
    if is_terminal j.status
    then (db, answered j.status)
    else if not (is_claimed j.status)
    then (db, refused 409 "job_not_claimed")
    else publish_checked body status undeletable now j db
        (check_artifacts lib (job_prefix w.tenant_id id) j db body.artifacts)

abbrev pub publish_to :
    Library
    → Text
    → WorkerResult
    → (Text → Bool)
    → ℕ
    → WorkerDevice
    → Database
    → Option Job
    → Database × Answer JobStatus
publish_to lib id body undeletable now w db none = (db, refused 404 "job_not_found")
publish_to lib id body undeletable now w db (some j) =
    if same_optional j.worker_id w.worker_id
    then publish_status lib id body undeletable now w j db (final_status body.status)
    else (db, refused 404 "job_not_found")

unfoldable pub publish_as :
    Library
    → Text
    → WorkerResult
    → (Text → Bool)
    → ℕ
    → WorkerDevice
    → Database
    → Database × Answer JobStatus
publish_as lib id body undeletable now w db =
    publish_to lib id body undeletable now w db (find_job w.tenant_id id db)

-- `publish_worker_result`
unfoldable pub publish_worker_result :
    Library
    → Credential
    → Bool
    → Text
    → WorkerResult
    → (Text → Bool)
    → ℕ
    → Database
    → Database × Answer JobStatus
publish_worker_result lib c signed id body undeletable now db =
    and_then (current_signed_worker c signed now db) (publish_as lib id body undeletable now)
