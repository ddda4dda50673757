-- ===== src/Institution/Workers/Sources.antt =====
-- Worker sources: content checks, staging, expiry and verification
-- (apps/institution-server/institution_server/workers.py). Storage keys go through `validate_key`
-- of the storage module; its ValueError, where no handler catches it, is the answer 500.
use predixa_learn.Prelude.{
  ℕ, zero, suc, ◌+◌, Bool, true, false, not, ◌&&◌, ◌||◌, Option, none, some, List, [], ◌∷◌, ◌++◌,
  ◌==◌, if◌then◌else◌, ltb, leb, first, length, take, Text, text, same, starts_with,
}
use predixa_learn.Institution.Storage.{validate_key}
use predixa_learn.Institution.Workers.State.{
  SourceStatus, staged, assigned, expired, is_staged, Kind, source_document, result_json, markdown,
  docx, preview, crop, table, dataset_export, same_kind, Descriptor, Source, Database, Library,
  Answer, refused, answered, same_optional, update_first,
}

-- `MAX_WORKER_SOURCE_BYTES` and `MAX_WORKER_OUTPUT_BYTES`
abbrev pub max_bytes : ℕ
max_bytes = 104857600

abbrev png_magic : Text
png_magic = 137 ∷ 80 ∷ 78 ∷ 71 ∷ 13 ∷ 10 ∷ 26 ∷ 10 ∷ []

-- `data[8:12] == b"WEBP"`
abbrev after : ℕ → Text → Text
after zero bytes = bytes
after (suc n) [] = []
after (suc n) (b ∷ bytes) = after n bytes

-- `_source_media_type`
unfoldable pub source_media_type : Text → Option Text
source_media_type bytes =
    if starts_with (text "%PDF-") bytes
    then some (text "application/pdf")
    else if starts_with png_magic bytes
    then some (text "image/png")
    else if starts_with (255 ∷ 216 ∷ 255 ∷ []) bytes
    then some (text "image/jpeg")
    else if starts_with (text "BM") bytes
    then some (text "image/bmp")
    else if starts_with (73 ∷ 73 ∷ 42 ∷ 0 ∷ []) bytes || starts_with (77 ∷ 77 ∷ 0 ∷ 42 ∷ []) bytes
    then some (text "image/tiff")
    else if leb 12 (length bytes)
        && starts_with (text "RIFF") bytes
        && starts_with (text "WEBP") (after 8 bytes)
    then some (text "image/webp")
    else none

-- `media_type in SOURCE_MEDIA_TYPES`
unfoldable pub is_source_media_type : Text → Bool
is_source_media_type m =
    same m (text "application/pdf")
    || same m (text "image/png")
    || same m (text "image/jpeg")
    || same m (text "image/bmp")
    || same m (text "image/tiff")
    || same m (text "image/webp")

abbrev docx_type : Text
docx_type = text "application/vnd.openxmlformats-officedocument.wordprocessingml.document"

abbrev sheet_type : Text
sheet_type = text "application/vnd.openxmlformats-officedocument.spreadsheetml.sheet"

-- `_validate_worker_output`, where `false` is the answer 422
unfoldable pub is_valid_output : Library → Kind → Text → Text → Bool
is_valid_output lib result_json bytes m =
    same m (text "application/json") && lib.is_utf8 bytes && lib.is_json_object bytes
is_valid_output lib markdown bytes m =
    (same m (text "text/markdown") || same m (text "text/plain")) && lib.is_utf8 bytes
is_valid_output lib docx bytes m = same m docx_type && lib.is_zipfile bytes
is_valid_output lib preview bytes m = same m (text "image/png") && starts_with png_magic bytes
is_valid_output lib crop bytes m = same m (text "image/png") && starts_with png_magic bytes
is_valid_output lib table bytes m = same m (text "text/csv") || same m sheet_type
is_valid_output lib source_document bytes m = true
is_valid_output lib dataset_export bytes m = true

-- The object storage by its normalized keys.
unfoldable pub set_file : Text → Option Text → Database → Database
set_file key content db = record db { files = λ k. if same key k then content else db.files k }

abbrev pub delete_at : Option Text → Database → Database
delete_at none db = db
delete_at (some key) db = set_file key none db

abbrev pub read_at : Option Text → Database → Option Text
read_at none db = none
read_at (some key) db = db.files key

-- `create_storage().delete(key)` and `create_storage().read(key)`
unfoldable pub delete_file : Text → Database → Database
delete_file key db = delete_at (validate_key key) db

unfoldable pub read_file : Text → Database → Option Text
read_file key db = read_at (validate_key key) db

-- `_expire_staged_sources`; `undeletable` says for which keys the storage raises.
abbrev pub is_past : ℕ → Option ℕ → Bool
is_past now none = true
is_past now (some t) = leb t now

unfoldable pub expire_source : ℕ → (Text → Bool) → Source → Source
expire_source now undeletable s =
    if is_past now s.expires_at && not (undeletable s.key)
    then record s { status = expired; version = s.version + 1 }
    else s

abbrev pub is_staged_of : Text → Source → Bool
is_staged_of tenant s = same s.tenant_id tenant && is_staged s.status

unfoldable pub delete_if_expired : ℕ → (Text → Bool) → Source → Database → Database
delete_if_expired now undeletable s db =
    if is_past now s.expires_at && not (undeletable s.key) then delete_file s.key db else db

unfoldable pub delete_expired : ℕ → (Text → Bool) → Text → ℕ → List Source → Database → Database
delete_expired now undeletable tenant n [] db = db
delete_expired now undeletable tenant zero ss db = db
delete_expired now undeletable tenant (suc n) (s ∷ ss) db =
    let fewer =
      delete_expired now undeletable tenant n ss (delete_if_expired now undeletable s db) in
    let as_many = delete_expired now undeletable tenant (suc n) ss db in
    if is_staged_of tenant s then fewer else as_many

unfoldable pub expire_staged_sources : ℕ → (Text → Bool) → Text → Database → Database
expire_staged_sources now undeletable tenant db =
    let db' = delete_expired now undeletable tenant 100 db.sources db in
    record db' {
      sources = update_first (is_staged_of tenant) (expire_source now undeletable) 100 db.sources;
    }

-- `stage_worker_source`, for the content type in lower case, the new id `id`, and `saved`, which says
-- whether the resource service stored the row.
pub record Upload : Type 0 where
  pub content_type : Text
  pub bytes : Text

unfoldable pub source_key : Library → Text → Text → Text
source_key lib tenant bytes =
    let digest = lib.sha256 bytes in
    tenant ++ text "/workers/sources/" ++ take 2 digest ++ text "/" ++ digest

unfoldable pub source_descriptor : Library → Text → Text → Upload → Descriptor
source_descriptor lib id key u = record {
  artifact_id = id;
  kind = source_document;
  sha256 = lib.sha256 u.bytes;
  size_bytes = length u.bytes;
  media_type = u.content_type;
  storage_key = some key;
}

unfoldable pub new_source : Library → Text → Text → Text → Upload → ℕ → Source
new_source lib id tenant key u now = record {
  resource_id = id;
  tenant_id = tenant;
  status = staged;
  version = 1;
  content_sha256 = lib.sha256 u.bytes;
  key = key;
  size_bytes = length u.bytes;
  content_type = u.content_type;
  expires_at = some (now + 86400000000);
  assigned_job_id = none;
}

abbrev pub store_source :
    Library
    → Text
    → Text
    → Upload
    → Bool
    → ℕ
    → Database
    → Option Text
    → Database × Answer Descriptor
store_source lib tenant id u saved now db none = (db, refused 500 "ValueError")
store_source lib tenant id u saved now db (some key) =
    let db' = set_file key (some u.bytes) db in
    if saved
    then (
      record db' { sources = db'.sources ++ new_source lib id tenant key u now ∷ [] },
      answered (source_descriptor lib id key u),
    )
    else (set_file key none db', refused 500 "not_saved")

abbrev same_type : Option Text → Text → Bool
same_type o m = same_optional o m

unfoldable pub stage_worker_source :
    Library
    → Text
    → Text
    → Upload
    → Bool
    → (Text → Bool)
    → ℕ
    → Database
    → Database × Answer Descriptor
stage_worker_source lib tenant id u saved undeletable now db0 =
    let db = expire_staged_sources now undeletable tenant db0 in
    if not (is_source_media_type u.content_type)
    then (db, refused 415 "unsupported_source")
    else if same u.bytes [] || ltb max_bytes (length u.bytes)
    then (db, refused 413 "source_too_large")
    else if not (same_type (source_media_type u.bytes) u.content_type)
    then (db, refused 422 "source_content_invalid")
    else store_source lib tenant id u saved now db (validate_key (source_key lib tenant u.bytes))

-- `_verified_job_source`
unfoldable pub find_source : Text → Text → Database → Option Source
find_source tenant id db = first (λ s. same s.tenant_id tenant && same s.resource_id id) db.sources

abbrev has_status : Bool → SourceStatus → Bool
has_status allow_assigned staged = true
has_status allow_assigned assigned = allow_assigned
has_status allow_assigned _ = false

unfoldable pub matches : Descriptor → Text → Bool → Source → Bool
matches d key allow_assigned s =
    has_status allow_assigned s.status
    && same s.content_sha256 d.sha256
    && same s.key key
    && s.size_bytes == d.size_bytes
    && same s.content_type d.media_type

abbrev pub verify_data : Library → Descriptor → Source → Option Text → Answer (Text × Source)
verify_data lib d s none = refused 422 "source_missing"
verify_data lib d s (some bytes) =
    if length bytes == d.size_bytes && same (lib.sha256 bytes) d.sha256
    then answered (bytes, s)
    else refused 409 "source_corrupt"

abbrev pub verify_row :
    Library → Descriptor → Text → Bool → Database → Option Source → Answer (Text × Source)
verify_row lib d key allow_assigned db none = refused 422 "invalid_source"
verify_row lib d key allow_assigned db (some s) =
    if matches d key allow_assigned s
    then verify_data lib d s (read_file key db)
    else refused 422 "invalid_source"

abbrev pub verify_key :
    Library → Descriptor → Text → Bool → Database → Option Text → Answer (Text × Source)
verify_key lib d tenant allow_assigned db none = refused 500 "ValueError"
verify_key lib d tenant allow_assigned db (some key) =
    if starts_with (tenant ++ text "/workers/sources/") key
    then verify_row lib d key allow_assigned db (find_source tenant d.artifact_id db)
    else refused 422 "invalid_source"

abbrev pub verify_descriptor :
    Library → Descriptor → Text → Bool → Database → Option Text → Answer (Text × Source)
verify_descriptor lib d tenant allow_assigned db none = refused 422 "invalid_source"
verify_descriptor lib d tenant allow_assigned db (some key) =
    if same_kind d.kind source_document && not (same key [])
    then verify_key lib d tenant allow_assigned db (validate_key key)
    else refused 422 "invalid_source"

unfoldable pub verified_job_source :
    Library → Descriptor → Text → Bool → Database → Answer (Text × Source)
verified_job_source lib d tenant allow_assigned db =
    verify_descriptor lib d tenant allow_assigned db d.storage_key
