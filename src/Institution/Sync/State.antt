-- ===== src/Institution/Sync/State.antt =====
-- The events and the rows that the ingestion reads and writes
-- (apps/institution-server/institution_server/sync.py and the tables it uses in models.py).
-- Bytes and texts are lists of numbers. A storage key is the parts that its text is spelled from.
use predixa_learn.Prelude.{ℕ, Bool, ◌&&◌, Option, List, ◌==◌, Text, same}

-- The types of the resources that the ingestion reads and writes
pub data Kind : Type 0 where
  archive_document evidence_version analysis_overlay artifact : Kind

abbrev kind_number : Kind → ℕ
kind_number archive_document = 0
kind_number evidence_version = 1
kind_number analysis_overlay = 2
kind_number artifact = 3

abbrev pub same_kind : Kind → Kind → Bool
same_kind a b = kind_number a == kind_number b

pub record SyncWorker : Type 0 where
  pub worker_id : Text
  pub tenant_id : Text
  -- `worker:` and the id, which the resources are created by
  pub subject : Text

pub record Preview : Type 0 where
  pub filename : Text
  pub media_type : Text
  pub sha256 : Text
  pub content : Text
  pub explicitly_approved : Bool

-- An overlay with an analysis: the evidence that it names, if any, and its JSON
pub record Overlay : Type 0 where
  pub ocr_result_sha256 : Option Text
  pub json : Text

pub record Payload : Type 0 where
  -- The JSON of the result, with sorted keys
  pub result_json : Text
  pub ocr_result_sha256 : Text
  pub analysis_overlay : Option Overlay
  -- `none` where it is no list; an entry is `none` where a field is missing or no Base64.
  pub approved_previews : Option (List (Option Preview))
  pub title : Text
  pub search_text : Text

pub record Event : Type 0 where
  pub event_id : Text
  pub idempotency_key : Text
  pub event_type : Text
  pub resource_id : Text
  pub payload : Payload
  -- The JSON of the type, the id, the version and the payload
  pub json : Text

pub record Resource : Type 0 where
  pub tenant_id : Text
  pub kind : Kind
  pub resource_id : Text
  pub version : ℕ
  pub title : Text
  pub parent_id : Option Text
  pub content_sha256 : Text
  pub search_text : Text
  pub is_private : Bool
  pub created_by : Text

pub record Response : Type 0 where
  pub event_id : Text
  pub resource : Resource
  pub evidence_id : Text
  pub analysis_id : Option Text
  pub approved_preview_ids : List Text
  pub replayed : Bool

-- A record of the endpoint `/api/v2/sync`
pub record IdempotencyRecord : Type 0 where
  pub tenant_id : Text
  pub idempotency_key : Text
  pub request_hash : Text
  pub response_body : Response

pub data Folder : Type 0 where
  evidence analysis previews : Folder

-- `{tenant}/{folder}/{digest[:2]}/{digest}.{json or png}`
pub record StorageKey : Type 0 where
  pub tenant_id : Text
  pub folder : Folder
  pub digest : Text

abbrev folder_number : Folder → ℕ
folder_number evidence = 0
folder_number analysis = 1
folder_number previews = 2

abbrev pub same_key : StorageKey → StorageKey → Bool
same_key a b =
    folder_number a.folder == folder_number b.folder
    && same a.tenant_id b.tenant_id
    && same a.digest b.digest

pub record Server : Type 0 where
  pub resources : List Resource
  pub records : List IdempotencyRecord
  pub files : StorageKey → Option Text
