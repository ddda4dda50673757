-- ===== src/Institution/Workers/Devices.antt =====
-- The handlers that change devices and enrollment tokens
-- (apps/institution-server/institution_server/workers.py).
use predixa_learn.Prelude.{
  any, ℕ, ◌+◌, ◌*◌, Bool, true, false, not, ◌&&◌, ◌||◌, Option, none, some, List, [], ◌∷◌, ◌++◌,
  ◌==◌, if◌then◌else◌, leb, first, Text, same,
}
use predixa_learn.Institution.Workers.State.{
  DeviceStatus, active, same_device_status, is_revoked, queued, is_claimed, WorkerDevice,
  EnrollmentToken, Job, Database, Library, Answer, refused, answered, same_optional, update,
}

-- `session.get(WorkerDevice, worker_id)`
unfoldable pub find_worker : Text → Database → Option WorkerDevice
find_worker id db = first (λ w. same w.worker_id id) db.workers

abbrev pub is_worker : WorkerDevice → WorkerDevice → Bool
is_worker w x = same x.worker_id w.worker_id && same x.tenant_id w.tenant_id

-- The bearer credential: missing or not valid (`none`), or its subject and tenant.
pub record Claims : Type 0 where
  pub sub : Text
  pub tenant_id : Text

-- The bearer token of a request: there is none, it is not accepted, or it has claims.
pub data Credential : Type 0 where
  absent invalid : Credential
  valid : Claims → Credential

-- `current_worker`
abbrev pub is_unavailable : Claims → WorkerDevice → Bool
is_unavailable c w = not (same w.tenant_id c.tenant_id) || w.revoked || is_revoked w.status

unfoldable pub seen : ℕ → WorkerDevice → Database → Database
seen now w db = record db {
  workers = update (is_worker w) (λ x. record x { last_seen_at = some now }) db.workers;
}

abbrev pub admit_worker :
    Claims → ℕ → Database → Option WorkerDevice → Database × Answer WorkerDevice
admit_worker c now db none = (db, refused 403 "worker_revoked")
admit_worker c now db (some w) =
    if is_unavailable c w then (db, refused 403 "worker_revoked") else (seen now w db, answered w)

unfoldable pub current_worker : Credential → ℕ → Database → Database × Answer WorkerDevice
current_worker absent now db = (db, refused 401 "worker_auth_required")
current_worker invalid now db = (db, refused 401 "invalid_worker_token")
current_worker (valid c) now db = admit_worker c now db (find_worker c.sub db)

-- A handler after another one that may have raised.
abbrev pub and_then :
    {A B : Type 0}
    → Database × Answer A
    → (A → Database → Database × Answer B)
    → Database × Answer B
and_then (db, refused n code) k = (db, refused n code)
and_then (db, answered a) k = k a db

abbrev pub check_signature : Bool → WorkerDevice → Database → Database × Answer WorkerDevice
check_signature true w db = (db, answered w)
check_signature false w db = (db, refused 401 "invalid_device_signature")

-- `current_signed_worker`; `signed` says whether the signature and its time were accepted.
unfoldable pub current_signed_worker :
    Credential → Bool → ℕ → Database → Database × Answer WorkerDevice
current_signed_worker c signed now db = and_then (current_worker c now db) (check_signature signed)

-- A claimed job that returns to the queue: when its worker is revoked and when its lease has run out.
unfoldable pub release : Job → Job
release j = record j {
  worker_id = none;
  claimed_at = none;
  lease_expires_at = none;
  status = queued;
  version = j.version + 1;
}

abbrev pub holds : WorkerDevice → Job → Bool
holds w j = is_claimed j.status && same_optional j.worker_id w.worker_id

unfoldable pub release_jobs : WorkerDevice → Database → Database
release_jobs w db = record db {
  jobs = update (λ j. same j.tenant_id w.tenant_id && holds w j) release db.jobs;
}

unfoldable pub with_status : DeviceStatus → WorkerDevice → WorkerDevice
with_status status w = record w {
  status = status;
  revoked = is_revoked status;
  version = w.version + 1;
}

unfoldable pub change_status : WorkerDevice → DeviceStatus → Database → Database
change_status w status db =
    let db' = record db { workers = update (is_worker w) (with_status status) db.workers } in
    if is_revoked status then release_jobs w db' else db'

-- `update_worker_state`; `if_match` is the number of the tag `W/"…"` that the header holds.
abbrev pub update_found :
    Text → Option ℕ → DeviceStatus → Database → Option WorkerDevice → Database × Answer WorkerDevice
update_found tenant if_match status db none = (db, refused 404 "worker_not_found")
update_found tenant if_match status db (some w) =
    if not (same w.tenant_id tenant)
    then (db, refused 404 "worker_not_found")
    else if not (same_tag if_match w.version)
    then (db, refused 412 "etag_mismatch")
    else if is_revoked w.status && not (is_revoked status)
    then (db, refused 409 "worker_revoked")
    else if same_device_status w.status status
    then (db, answered w)
    else (change_status w status db, answered (with_status status w))
  where
    same_tag : Option ℕ → ℕ → Bool
    same_tag none v = false
    same_tag (some n) v = n == v

unfoldable pub update_worker_state :
    Text → Text → Option ℕ → DeviceStatus → Database → Database × Answer WorkerDevice
update_worker_state tenant id if_match status db =
    update_found tenant if_match status db (find_worker id db)

-- `create_enrollment_token`, for the random token `token`; the digest is the table's primary key.
unfoldable pub create_enrollment_token :
    Library → Text → ℕ → Text → ℕ → Database → Database × Answer Text
create_enrollment_token lib tenant expires_minutes token now db =
    if not (leb 1 expires_minutes && leb expires_minutes 60)
    then (db, refused 422 "invalid_expiry")
    else if any (λ t. same t.token_hash (lib.sha256 token)) db.tokens
    then (db, refused 500 "integrity_error")
    else (
      record db {
        tokens =
            record {
              token_hash = lib.sha256 token;
              tenant_id = tenant;
              expires_at = now + expires_minutes * 60000000;
              used_at = none;
            }
            ∷ db.tokens;
      },
      answered token,
    )

-- `EnrollmentRedeem`; `public_bytes` is `none` where the key is not accepted.
pub record Redemption : Type 0 where
  pub name : Text
  pub public_bytes : Option Text
  pub workflows : List Text
  pub enrollment_token : Text

abbrev pub is_usable : ℕ → EnrollmentToken → Bool
is_usable now t = unused t.used_at && leb now t.expires_at
  where
    unused : Option ℕ → Bool
    unused none = true
    unused (some _) = false

unfoldable pub find_token : Library → Text → Database → Option EnrollmentToken
find_token lib token db = first (λ t. same t.token_hash (lib.sha256 token)) db.tokens

unfoldable pub use_token : Text → ℕ → Database → Database
use_token hash now db = record db {
  tokens = update (λ t. same t.token_hash hash) (λ t. record t { used_at = some now }) db.tokens;
}

unfoldable pub new_worker : Redemption → Text → Text → Text → WorkerDevice
new_worker r id tenant key_hash = record {
  worker_id = id;
  tenant_id = tenant;
  name = r.name;
  key_sha256 = key_hash;
  workflows = r.workflows;
  status = active;
  version = 1;
  revoked = false;
  last_seen_at = none;
}

abbrev pub enroll_new :
    Redemption
    → Text
    → Text
    → ℕ
    → EnrollmentToken
    → Database
    → Option WorkerDevice
    → Database × Answer WorkerDevice
enroll_new r id key_hash now t db (some _) = (db, refused 409 "worker_exists")
enroll_new r id key_hash now t db none =
    let w = new_worker r id t.tenant_id key_hash in
    let db' = use_token t.token_hash now db in
    (record db' { workers = db'.workers ++ w ∷ [] }, answered w)

abbrev pub enroll_with :
    Redemption
    → Text
    → Text
    → ℕ
    → Database
    → Option EnrollmentToken
    → Database × Answer WorkerDevice
enroll_with r id key_hash now db none = (db, refused 403 "invalid_enrollment")
enroll_with r id key_hash now db (some t) =
    if is_usable now t
    then enroll_new r id key_hash now t db
        (first (λ w. same w.tenant_id t.tenant_id && same w.key_sha256 key_hash) db.workers)
    else (db, refused 403 "invalid_enrollment")

abbrev pub enroll_key :
    Library → Redemption → Text → ℕ → Database → Option Text → Database × Answer WorkerDevice
enroll_key lib r id now db none = (db, refused 422 "invalid_device_public_key")
enroll_key lib r id now db (some bytes) =
    enroll_with r id (lib.sha256 bytes) now db (find_token lib r.enrollment_token db)

-- `enroll_worker`, for the new device id `id`
unfoldable pub enroll_worker :
    Library → Redemption → Text → ℕ → Database → Database × Answer WorkerDevice
enroll_worker lib r id now db = enroll_key lib r id now db r.public_bytes
