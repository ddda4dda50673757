-- ===== src/Institution/Workers/State.antt =====
-- The rows and answers of the worker API
-- (apps/institution-server/institution_server/workers.py and the tables it uses in models.py).
-- A JSON payload is a record of the fields that the handlers read and write; a time is a number of
-- microseconds in UTC; identifiers, storage keys, digests and file contents are texts.
use predixa_learn.Prelude.{
  ℕ, zero, suc, String, Bool, true, false, Option, none, some, List, [], ◌∷◌, ◌==◌, if◌then◌else◌,
  Text, same,
}

-- `WorkerStateUpdate.status`, which is also what the status column of a device holds
pub data DeviceStatus : Type 0 where
  active draining revoked : DeviceStatus

abbrev pub same_device_status : DeviceStatus → DeviceStatus → Bool
same_device_status active active = true
same_device_status draining draining = true
same_device_status revoked revoked = true
same_device_status _ _ = false

abbrev pub is_revoked : DeviceStatus → Bool
is_revoked revoked = true
is_revoked _ = false

pub data JobStatus : Type 0 where
  queued claimed completed failed cancelled : JobStatus

abbrev pub is_claimed : JobStatus → Bool
is_claimed claimed = true
is_claimed _ = false

abbrev pub is_queued : JobStatus → Bool
is_queued queued = true
is_queued _ = false

-- `job.status in {"completed", "failed", "cancelled"}`
abbrev pub is_terminal : JobStatus → Bool
is_terminal queued = false
is_terminal claimed = false
is_terminal _ = true

pub data SourceStatus : Type 0 where
  staged assigned consumed expired : SourceStatus

abbrev pub is_staged : SourceStatus → Bool
is_staged staged = true
is_staged _ = false

pub data Kind : Type 0 where
  source_document result_json markdown docx preview crop table dataset_export : Kind

abbrev kind_number : Kind → ℕ
kind_number source_document = 0
kind_number result_json = 1
kind_number markdown = 2
kind_number docx = 3
kind_number preview = 4
kind_number crop = 5
kind_number table = 6
kind_number dataset_export = 7

abbrev pub same_kind : Kind → Kind → Bool
same_kind a b = kind_number a == kind_number b

pub record WorkerDevice : Type 0 where
  pub worker_id : Text
  pub tenant_id : Text
  pub name : Text
  pub key_sha256 : Text
  pub workflows : List Text
  pub status : DeviceStatus
  pub version : ℕ
  pub revoked : Bool
  pub last_seen_at : Option ℕ

pub record EnrollmentToken : Type 0 where
  pub token_hash : Text
  pub tenant_id : Text
  pub expires_at : ℕ
  pub used_at : Option ℕ

-- `ArtifactDescriptor` of the protocol package
pub record Descriptor : Type 0 where
  pub artifact_id : Text
  pub kind : Kind
  pub sha256 : Text
  pub size_bytes : ℕ
  pub media_type : Text
  pub storage_key : Option Text

-- A `worker_source` resource; `expires_at` is `none` where the text is no time with a zone.
pub record Source : Type 0 where
  pub resource_id : Text
  pub tenant_id : Text
  pub status : SourceStatus
  pub version : ℕ
  pub content_sha256 : Text
  pub key : Text
  pub size_bytes : ℕ
  pub content_type : Text
  pub expires_at : Option ℕ
  pub assigned_job_id : Option Text

-- A `worker_job` resource; the lease is `none` where it is missing or no time with a zone.
pub record Job : Type 0 where
  pub resource_id : Text
  pub tenant_id : Text
  pub created_at : ℕ
  pub status : JobStatus
  pub version : ℕ
  pub workflow : Text
  pub source : Descriptor
  pub settings : String
  pub allowed_outputs : List Kind
  pub worker_id : Option Text
  pub claimed_at : Option ℕ
  pub lease_expires_at : Option ℕ
  pub uploaded_artifacts : List Descriptor
  pub artifacts : List Descriptor
  pub result_summary : String
  pub completed_at : Option ℕ

-- The tables, and the object storage by its keys.
pub record Database : Type 0 where
  pub workers : List WorkerDevice
  pub tokens : List EnrollmentToken
  pub sources : List Source
  pub jobs : List Job
  pub files : Text → Option Text

-- What the handlers call of Python's standard library.
pub record Library : Type 0 where
  pub sha256 : Text → Text
  pub is_utf8 : Text → Bool
  pub is_json_object : Text → Bool
  pub is_zipfile : Text → Bool

-- An HTTPException with its status code and `code`, or what the handler returns.
pub data Answer (A : Type 0) : Type 0 where
  refused : ℕ → String → Answer A
  answered : A → Answer A

-- `key in dict` for an optional text, and `value != other`
abbrev pub same_optional : Option Text → Text → Bool
same_optional none t = false
same_optional (some s) t = same s t

-- An assignment to the rows that a query returns.
unfoldable pub update {ℓ} : {A : Type ℓ} → (A → Bool) → (A → A) → List A → List A
update p f [] = []
update p f (x ∷ xs) = (if p x then f x else x) ∷ update p f xs

-- The same for a query with `.limit(n)`.
unfoldable pub update_first {ℓ} : {A : Type ℓ} → (A → Bool) → (A → A) → ℕ → List A → List A
update_first p f n [] = []
update_first p f zero xs = xs
update_first p f (suc n) (x ∷ xs) =
    let fewer = update_first p f n xs in
    let as_many = update_first p f (suc n) xs in if p x then f x ∷ fewer else x ∷ as_many
