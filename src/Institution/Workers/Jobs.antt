-- ===== src/Institution/Workers/Jobs.antt =====
-- Worker jobs: creation, claims and the download of their source
-- (apps/institution-server/institution_server/workers.py).
use predixa_learn.Prelude.{
  has_text, ℕ, ◌+◌, String, Bool, true, false, ◌&&◌, Option, none, some, List, [], ◌∷◌, ◌++◌,
  if◌then◌else◌, leb, first, Text, same,
}
use predixa_learn.Institution.Workers.State.{
  DeviceStatus, draining, queued, claimed, is_claimed, is_queued, assigned, Kind, WorkerDevice,
  Descriptor, Source, Job, Database, Library, Answer, refused, answered, same_optional, update,
  update_first,
}
use predixa_learn.Institution.Workers.Devices.{
  Credential, current_signed_worker, and_then, release, holds,
}
use predixa_learn.Institution.Workers.Sources.{expire_staged_sources, verified_job_source}

-- `WorkerJobCreate`
pub record JobRequest : Type 0 where
  pub workflow : Text
  pub source_artifact : Descriptor
  pub settings : String
  pub allowed_outputs : List Kind

unfoldable pub new_job : Text → Text → JobRequest → ℕ → Job
new_job id tenant body now = record {
  resource_id = id;
  tenant_id = tenant;
  created_at = now;
  status = queued;
  version = 1;
  workflow = body.workflow;
  source = body.source_artifact;
  settings = body.settings;
  allowed_outputs = body.allowed_outputs;
  worker_id = none;
  claimed_at = none;
  lease_expires_at = none;
  uploaded_artifacts = [];
  artifacts = [];
  result_summary = "";
  completed_at = none;
}

unfoldable pub assign : Text → Source → Source
assign job_id s = record s {
  assigned_job_id = some job_id;
  status = assigned;
  version = s.version + 1;
}

abbrev pub is_source : Source → Source → Bool
is_source s x = same x.tenant_id s.tenant_id && same x.resource_id s.resource_id

-- `create_worker_job`, for the new id `id`; the resource service stores the row.
abbrev pub create_from :
    Text → Text → JobRequest → ℕ → Database → Answer (Text × Source) → Database × Answer Job
create_from id tenant body now db (refused n code) = (db, refused n code)
create_from id tenant body now db (answered (bytes, s)) =
    let job = new_job id tenant body now in
    (
      record db {
        jobs = db.jobs ++ job ∷ [];
        sources = update (is_source s) (assign id) db.sources;
      },
      answered job,
    )

unfoldable pub create_worker_job :
    Library → Text → Text → JobRequest → ℕ → Database → Database × Answer Job
create_worker_job lib id tenant body now db =
    create_from id tenant body now db (verified_job_source lib body.source_artifact tenant false db)

abbrev pub is_job : Text → Text → Job → Bool
is_job tenant id j = same j.tenant_id tenant && same j.resource_id id

unfoldable pub find_job : Text → Text → Database → Option Job
find_job tenant id db = first (is_job tenant id) db.jobs

-- The claims whose lease has run out, of the first hundred, go back to the queue.
abbrev pub is_stale : ℕ → Option ℕ → Bool
is_stale now none = true
is_stale now (some lease) = leb lease now

unfoldable pub reset_if_stale : ℕ → Job → Job
reset_if_stale now j = if is_stale now j.lease_expires_at then release j else j

abbrev pub is_claimed_of : Text → Job → Bool
is_claimed_of tenant j = same j.tenant_id tenant && is_claimed j.status

unfoldable pub reset_stale : ℕ → Text → Database → Database
reset_stale now tenant db = record db {
  jobs = update_first (is_claimed_of tenant) (reset_if_stale now) 100 db.jobs;
}

-- `.order_by(Resource.created_at).limit(1)` over the queued jobs of the tenant
abbrev pub is_queued_of : Text → Job → Bool
is_queued_of tenant j = same j.tenant_id tenant && is_queued j.status

abbrev pub older : Job → Option Job → Job
older j none = j
older j (some k) = if leb j.created_at k.created_at then j else k

unfoldable pub next_job : Text → List Job → Option Job
next_job tenant [] = none
next_job tenant (j ∷ js) =
    let rest = next_job tenant js in if is_queued_of tenant j then some (older j rest) else rest

unfoldable pub two_hours : ℕ
two_hours = 7200000000

unfoldable pub claim_job : WorkerDevice → ℕ → Job → Job
claim_job w now j = record j {
  status = claimed;
  version = j.version + 1;
  worker_id = some w.worker_id;
  claimed_at = some now;
  lease_expires_at = some (now + two_hours);
}

-- `supported and workflow not in supported`
abbrev pub is_supported : WorkerDevice → Text → Bool
is_supported w workflow = supports w.workflows
  where
    supports : List Text → Bool
    supports [] = true
    supports (x ∷ xs) = has_text workflow (x ∷ xs)

-- A response without content (204), or the job's envelope before it is signed.
pub data Claim : Type 0 where
  no_job : Claim
  envelope : Job → Claim

-- The row of a job that a query with this status returned.
abbrev pub is_queued_row : Job → Job → Bool
is_queued_row j k = is_job j.tenant_id j.resource_id k && is_queued k.status

abbrev pub is_claimed_row : Job → Job → Bool
is_claimed_row j k = is_job j.tenant_id j.resource_id k && is_claimed k.status

unfoldable pub take_job : WorkerDevice → ℕ → Job → Database → Database × Answer Claim
take_job w now j db = (
  record db { jobs = update (is_queued_row j) (claim_job w now) db.jobs },
  answered (envelope (claim_job w now j)),
)

abbrev pub take_next : WorkerDevice → ℕ → Database → Option Job → Database × Answer Claim
take_next w now db none = (db, answered no_job)
take_next w now db (some j) =
    if is_supported w j.workflow then take_job w now j db else (db, answered no_job)

abbrev pub is_draining : DeviceStatus → Bool
is_draining draining = true
is_draining _ = false

-- `claim_worker_job` after the device is authenticated
unfoldable pub claim_as : (Text → Bool) → ℕ → WorkerDevice → Database → Database × Answer Claim
claim_as undeletable now w db =
    let db1 = expire_staged_sources now undeletable w.tenant_id db in
    if is_draining w.status
    then (db1, answered no_job)
    else (let db2 = reset_stale now w.tenant_id db1 in
        take_next w now db2 (next_job w.tenant_id db2.jobs))

unfoldable pub claim_worker_job :
    Credential → Bool → (Text → Bool) → ℕ → Database → Database × Answer Claim
claim_worker_job c signed undeletable now db =
    and_then (current_signed_worker c signed now db) (claim_as undeletable now)

-- `download_worker_source`
abbrev check_assignment : Text → Answer (Text × Source) → Answer Text
check_assignment id (refused n code) = refused n code
check_assignment id (answered (bytes, s)) =
    if same_optional s.assigned_job_id id
    then answered bytes
    else refused 409 "source_assignment_mismatch"

abbrev source_of : Library → Text → WorkerDevice → Database → Option Job → Answer Text
source_of lib id w db none = refused 404 "job_not_found"
source_of lib id w db (some j) =
    if holds w j
    then check_assignment id (verified_job_source lib j.source w.tenant_id true db)
    else refused 404 "job_not_found"

unfoldable pub download_as : Library → Text → WorkerDevice → Database → Database × Answer Text
download_as lib id w db = (db, source_of lib id w db (find_job w.tenant_id id db))

unfoldable pub download_worker_source :
    Library → Credential → Bool → Text → ℕ → Database → Database × Answer Text
download_worker_source lib c signed id now db =
    and_then (current_signed_worker c signed now db) (download_as lib id)
