-- ===== src/Institution/Workers/Tests.antt =====
-- A run of the worker API from an empty database, and the theorems at its states
-- (apps/institution-server/institution_server/workers.py).
use predixa_learn.Prelude.{
  any, has_text, ℕ, ◌≡◌, ◌⊎◌, refl, String, Bool, true, false, not, ◌&&◌, ◌||◌, Option, none, some,
  List, [], ◌∷◌, ◌++◌, All, Text, text, same, starts_with, take, first, map, occurs, length,
}
use predixa_learn.Institution.Storage.{
  with_slashes, drop_slashes, drop_last_slashes, is_refused, validate_key,
}
use predixa_learn.Institution.Workers.State.{
  DeviceStatus, EnrollmentToken, active, draining, revoked, JobStatus, queued, claimed, completed,
  failed, Kind, markdown, source_document, WorkerDevice, Descriptor, Job, Database, Library, Answer,
  refused, answered, update, update_first, same_optional, is_terminal, is_revoked,
}
use predixa_learn.Institution.Workers.Devices.{
  valid, Claims, Redemption, find_worker, seen, current_worker, current_signed_worker, release,
  release_jobs, with_status, change_status, update_worker_state, create_enrollment_token,
  find_token, use_token, new_worker, enroll_worker, is_usable,
}
use predixa_learn.Institution.Workers.Sources.{
  Upload, source_media_type, is_source_media_type, is_valid_output, set_file, delete_file,
  read_file, expire_source, delete_if_expired, delete_expired, expire_staged_sources, source_key,
  source_descriptor, new_source, stage_worker_source, find_source, matches, verified_job_source,
}
use predixa_learn.Institution.Workers.Jobs.{
  JobRequest, new_job, assign, create_worker_job, find_job, reset_if_stale, reset_stale, next_job,
  two_hours, claim_job, take_job, claim_as, claim_worker_job, download_as, download_worker_source,
}
use predixa_learn.Institution.Workers.Results.{
  Output, job_prefix, output_descriptor, add_upload, upload_as, upload_worker_artifact,
  WorkerResult, final_status, check_artifact, check_artifacts, finish_job, consume, record_result,
  publish_now, publish_as, publish_worker_result,
}
use predixa_learn.Institution.Workers.Rows.{Grown}
use predixa_learn.Institution.Workers.Versions.{
  IsNew, IsSuccessor, KeepsLease, jobs-IsSuccessor, jobs-KeepsLease,
}
use predixa_learn.Institution.Workers.Claims.{IsWellFormed, run-IsWellFormed}
use predixa_learn.Institution.Workers.Oldest.{Outcome, claim_as-Outcome}
use predixa_learn.Institution.Workers.Publication.{Published, publish_as-Published}
use predixa_learn.Institution.Workers.Repetition.{publish_twice}
use predixa_learn.Institution.Workers.Revocation.{AreFreed, revoke_lem}
use predixa_learn.Institution.Workers.Enrollment.{redeemed_once}
use predixa_learn.Institution.Workers.Steps.{
  Request, token_created, worker_enrolled, source_staged, job_created, job_claimed,
  artifact_uploaded, result_published, state_updated, step, run,
}
mod Witnesses

abbrev lib : Library
lib = record {
  sha256 = λ bytes. bytes;
  is_utf8 = λ bytes. true;
  is_json_object = λ bytes. true;
  is_zipfile = λ bytes. true;
}

abbrev never : Text → Bool
never key = false

abbrev empty : Database
empty = record { workers = []; tokens = []; sources = []; jobs = []; files = λ key. none }

abbrev redemption : Redemption
redemption = record {
  name = text "desk";
  public_bytes = some (text "k");
  workflows = text "ocr" ∷ [];
  enrollment_token = text "tok";
}

abbrev upload : Upload
upload = record { content_type = text "application/pdf"; bytes = text "%PDF-" }

abbrev source_path : Text
source_path = text "t/workers/sources/%P/%PDF-"

abbrev descriptor : Descriptor
descriptor = record {
  artifact_id = text "s";
  kind = source_document;
  sha256 = text "%PDF-";
  size_bytes = 5;
  media_type = text "application/pdf";
  storage_key = some source_path;
}

abbrev second_descriptor : Descriptor
second_descriptor = record descriptor { artifact_id = text "s2" }

abbrev job_request : Descriptor → JobRequest
job_request d = record {
  workflow = text "ocr";
  source_artifact = d;
  settings = "";
  allowed_outputs = markdown ∷ [];
}

abbrev credential : Claims
credential = record { sub = text "w"; tenant_id = text "t" }

abbrev output : Output
output = record { kind = markdown; bytes = text "x"; media_type = text "text/plain" }

abbrev artifact : Descriptor
artifact = record {
  artifact_id = text "a";
  kind = markdown;
  sha256 = text "x";
  size_bytes = 1;
  media_type = text "text/plain";
  storage_key = some (text "t/workers/jobs/j/x");
}

abbrev result : WorkerResult
result = record { status = text "completed"; artifacts = artifact ∷ []; result_summary = "done" }

abbrev requests : List (ℕ × Request)
requests =
    (0, token_created (text "t") 15 (text "tok"))
    ∷ (1, worker_enrolled redemption (text "w"))
    ∷ (2, source_staged (text "t") (text "s") upload true never)
    ∷ (3, source_staged (text "t") (text "s2") upload true never)
    ∷ (4, job_created (text "j") (text "t") (job_request descriptor))
    ∷ (5, job_created (text "j2") (text "t") (job_request second_descriptor))
    ∷ (6, job_claimed (valid credential) true never)
    ∷ (7, artifact_uploaded (valid credential) true (text "j") (text "a") output)
    ∷ (8, result_published (valid credential) true (text "j") result never)
    ∷ []

-- The database after the first requests.
unfoldable after : ℕ → Database
unfolding run step same starts_with occurs any first update update_first with_slashes drop_slashes
    drop_last_slashes is_refused validate_key find_worker seen current_worker current_signed_worker
    release release_jobs with_status change_status update_worker_state create_enrollment_token
    find_token use_token new_worker enroll_worker source_media_type is_source_media_type
    is_valid_output set_file delete_file read_file expire_source delete_if_expired delete_expired
    expire_staged_sources source_key source_descriptor new_source stage_worker_source find_source
    matches verified_job_source new_job assign create_worker_job find_job reset_if_stale reset_stale
    next_job two_hours claim_job take_job claim_as claim_worker_job download_as
    download_worker_source job_prefix output_descriptor add_upload upload_as upload_worker_artifact
    final_status check_artifact check_artifacts finish_job consume record_result publish_now
    publish_as publish_worker_result
after n = run lib (take n requests) empty

abbrev statuses : Database → List JobStatus
statuses db = map (λ (j : Job). j.status) db.jobs

claims_the_oldest : statuses (after 7) ≡ claimed ∷ queued ∷ []
unfolding after has_text
claims_the_oldest = refl

publishes : statuses (after 9) ≡ completed ∷ queued ∷ []
unfolding after has_text
publishes = refl

-- The second job's source was stored under the same key, and is gone with the first one's.
second_job_starves :
    verified_job_source lib second_descriptor (text "t") true (after 9)
    ≡ refused 422 "source_missing"
unfolding after has_text
second_job_starves = refl

first_job_downloads :
    (download_worker_source lib (valid credential) true (text "j") 8 (after 8)).1
    ≡ answered (text "%PDF-")
unfolding after has_text
first_job_downloads = refl
