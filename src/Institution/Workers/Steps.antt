-- ===== src/Institution/Workers/Steps.antt =====
-- The requests that reach the worker API, one after another
-- (apps/institution-server/institution_server/workers.py); each handler is one transaction.
use predixa_learn.Prelude.{ℕ, Bool, Option, List, [], ◌∷◌, Text}
use predixa_learn.Institution.Workers.State.{DeviceStatus, Database, Library}
use predixa_learn.Institution.Workers.Devices.{
  Credential, Redemption, update_worker_state, create_enrollment_token, enroll_worker,
}
use predixa_learn.Institution.Workers.Sources.{Upload, stage_worker_source}
use predixa_learn.Institution.Workers.Jobs.{
  JobRequest, create_worker_job, claim_worker_job, download_worker_source,
}
use predixa_learn.Institution.Workers.Results.{
  Output, WorkerResult, upload_worker_artifact, publish_worker_result,
}

-- A request to a handler of workers.py that changes the tables; other routes, which reach the rows of
-- jobs as resources, are not among them. A request with its arguments, the identifiers that it draws, and what the storage does.
pub data Request : Type 0 where
  state_updated : Text → Text → Option ℕ → DeviceStatus → Request
  token_created : Text → ℕ → Text → Request
  worker_enrolled : Redemption → Text → Request
  source_staged : Text → Text → Upload → Bool → (Text → Bool) → Request
  job_created : Text → Text → JobRequest → Request
  job_claimed : Credential → Bool → (Text → Bool) → Request
  source_downloaded : Credential → Bool → Text → Request
  artifact_uploaded : Credential → Bool → Text → Text → Output → Request
  result_published : Credential → Bool → Text → WorkerResult → (Text → Bool) → Request

unfoldable pub step : Library → ℕ → Request → Database → Database
step lib now (state_updated tenant id if_match status) db =
    (update_worker_state tenant id if_match status db).0
step lib now (token_created tenant minutes token) db =
    (create_enrollment_token lib tenant minutes token now db).0
step lib now (worker_enrolled r id) db = (enroll_worker lib r id now db).0
step lib now (source_staged tenant id u saved undeletable) db =
    (stage_worker_source lib tenant id u saved undeletable now db).0
step lib now (job_created id tenant body) db = (create_worker_job lib id tenant body now db).0
step lib now (job_claimed c signed undeletable) db =
    (claim_worker_job c signed undeletable now db).0
step lib now (source_downloaded c signed id) db = (download_worker_source lib c signed id now db).0
step lib now (artifact_uploaded c signed id fresh o) db =
    (upload_worker_artifact lib c signed id fresh o now db).0
step lib now (result_published c signed id body undeletable) db =
    (publish_worker_result lib c signed id body undeletable now db).0

-- A sequence of requests with the times they arrive at.
unfoldable pub run : Library → List (ℕ × Request) → Database → Database
run lib [] db = db
run lib ((now, r) ∷ rs) db = run lib rs (step lib now r db)
