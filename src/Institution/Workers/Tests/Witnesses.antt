-- ===== src/Institution/Workers/Tests/Witnesses.antt =====
-- The theorems on the worker API at the states of the run
-- (apps/institution-server/institution_server/workers.py).
use predixa_learn.Prelude.{
  List, has_text, ℕ, ◌≡◌, ◌⊎◌, refl, Bool, true, false, none, some, [], ◌∷◌, All, Text, text, same,
}
use predixa_learn.Institution.Workers.State.{
  Source, assigned, EnrollmentToken, active, revoked, JobStatus, claimed, completed, markdown,
  WorkerDevice, Job, Database, refused, answered, same_optional,
}
use predixa_learn.Institution.Workers.Devices.{
  valid, Claims, Redemption, find_worker, current_worker, with_status, update_worker_state,
  find_token, enroll_worker, is_usable,
}
use predixa_learn.Institution.Workers.Sources.{expire_staged_sources}
use predixa_learn.Institution.Workers.Jobs.{find_job, claim_as}
use predixa_learn.Institution.Workers.Results.{
  job_prefix, WorkerResult, final_status, check_artifacts, finish_job, publish_as,
}
use predixa_learn.Institution.Workers.Rows.{Grown}
use predixa_learn.Institution.Workers.Versions.{
  IsNew, IsSuccessor, KeepsLease, jobs-IsSuccessor, jobs-KeepsLease,
}
use predixa_learn.Institution.Workers.Claims.{
  KeepsHolder, IsUnfinished, IsWellFormed, run-IsWellFormed,
}
use predixa_learn.Institution.Workers.Oldest.{Outcome, claim_as-Outcome}
use predixa_learn.Institution.Workers.Publication.{Published, publish_as-Published}
use predixa_learn.Institution.Workers.Repetition.{publish_twice}
use predixa_learn.Institution.Workers.Revocation.{AreFreed, revoke_lem}
use predixa_learn.Institution.Workers.Enrollment.{redeemed_once}
use predixa_learn.Institution.Workers.Steps.{Request, job_claimed, result_published, step, run}
use predixa_learn.Institution.Workers.Tests.{
  lib, never, empty, redemption, source_path, descriptor, credential, artifact, result, requests,
  after,
}

abbrev publication : Request
publication = result_published (valid credential) true (text "j") result never

jobs-IsSuccessor_example :
    Grown IsSuccessor IsNew (after 8).jobs (step lib 8 publication (after 8)).jobs
jobs-IsSuccessor_example = jobs-IsSuccessor lib 8 publication (after 8)

jobs-KeepsLease_example :
    Grown
      (KeepsLease 8)
      IsNew
      (after 8).jobs
      (step lib 8 (job_claimed (valid credential) true never) (after 8)).jobs
jobs-KeepsLease_example =
    jobs-KeepsLease lib 8 (job_claimed (valid credential) true never) (after 8)

run-IsWellFormed_example :
    All IsWellFormed (run lib requests empty).jobs
    × ((now : ℕ) (r : Request)
        → Grown KeepsHolder IsUnfinished
            (run lib requests empty).jobs
            (step lib now r (run lib requests empty)).jobs)
run-IsWellFormed_example = run-IsWellFormed lib requests empty tt

abbrev device : WorkerDevice
device = record {
  worker_id = text "w";
  tenant_id = text "t";
  name = text "desk";
  key_sha256 = text "k";
  workflows = text "ocr" ∷ [];
  status = active;
  version = 1;
  revoked = false;
  last_seen_at = some 7;
}

claim_as-Outcome_example :
    Outcome 6 device
      (expire_staged_sources 6 never (text "t") (after 6))
      (claim_as never 6 device (after 6))
claim_as-Outcome_example = claim_as-Outcome never 6 device (after 6)

-- The first job when its artifact was uploaded.
abbrev working : Job
working = record {
  resource_id = text "j";
  tenant_id = text "t";
  created_at = 4;
  status = claimed;
  version = 3;
  workflow = text "ocr";
  source = descriptor;
  settings = "";
  allowed_outputs = markdown ∷ [];
  worker_id = some (text "w");
  claimed_at = some 6;
  lease_expires_at = some 7200000006;
  uploaded_artifacts = artifact ∷ [];
  artifacts = [];
  result_summary = "";
  completed_at = none;
}

working_found : find_job device.tenant_id (text "j") (after 8) ≡ some working
unfolding after find_job has_text
working_found = refl

working_held : same_optional working.worker_id device.worker_id ≡ true
unfolding same
working_held = refl

result_final : final_status result.status ≡ some completed
unfolding final_status same
result_final = refl

result_passes :
    check_artifacts lib (job_prefix device.tenant_id (text "j")) working (after 8) result.artifacts
    ≡ answered tt
unfolding after has_text
result_passes = refl

publish_as-Published_example :
    Published lib
      (text "j")
      result
      never
      8
      device
      working
      (after 8)
      (publish_as lib (text "j") result never 8 device (after 8))
publish_as-Published_example =
    publish_as-Published lib (text "j") result never 8 device working (after 8) working_found refl

publish_twice_example :
    (db' : Database) × (publish_as lib (text "j") result never 8 device (after 8)
      ≡ (db', answered completed))
    × (find_job device.tenant_id (text "j") db' ≡ some (finish_job result completed 8 working))
    × ((body' : WorkerResult) (status' : JobStatus) (undeletable' : Text → Bool) (now' : ℕ)
        → final_status body'.status ≡ some status'
        → publish_as lib (text "j") body' undeletable' now' device db' ≡ (db', answered completed))
publish_twice_example =
    publish_twice lib (text "j") result completed never 8 device working (after 8) working_found
      working_held refl result_final result_passes

device_found : find_worker (text "w") (after 8) ≡ some device
unfolding after find_worker has_text
device_found = refl

revoke_lem_example :
    let result = update_worker_state (text "t") (text "w") (some 1) revoked (after 8) in
    (result.1 ≡ answered (with_status revoked device))
    × AreFreed device (after 8).jobs result.0.jobs
    × ((now : ℕ) (c : Claims)
        → c.sub ≡ text "w"
        → current_worker (valid c) now result.0 ≡ (result.0, refused 403 "worker_revoked"))
revoke_lem_example = revoke_lem (text "t") (text "w") (after 8) device device_found refl refl

abbrev enrolled : WorkerDevice
enrolled = record device { last_seen_at = none }

enrollment : enroll_worker lib redemption (text "w") 1 (after 1) ≡ (after 2, answered enrolled)
unfolding after
enrollment = refl

redeemed_once_example :
    ((t : EnrollmentToken) × (find_token lib redemption.enrollment_token (after 1) ≡ some t)
      × (is_usable 1 t ≡ true))
    × ((rs : List (ℕ × Request)) (r' : Redemption) (id' : Text) (now' : ℕ)
        → r'.enrollment_token ≡ redemption.enrollment_token
        → let later = run lib rs (after 2) in
          (enroll_worker lib r' id' now' later ≡ (later, refused 422 "invalid_device_public_key"))
          ⊎ (enroll_worker lib r' id' now' later ≡ (later, refused 403 "invalid_enrollment")))
redeemed_once_example =
    redeemed_once lib redemption (text "w") 1 (after 1) (after 2) enrolled enrollment

abbrev second_source : Source
second_source = record {
  resource_id = text "s2";
  tenant_id = text "t";
  status = assigned;
  version = 2;
  content_sha256 = text "%PDF-";
  key = source_path;
  size_bytes = 5;
  content_type = text "application/pdf";
  expires_at = some 86400000003;
  assigned_job_id = some (text "j2");
}
