-- ===== src/Institution/Workers/Repetition.antt =====
-- A result that is published again
-- (apps/institution-server/institution_server/workers.py, `publish_worker_result`).
use predixa_learn.Prelude.{
  first_holds, ℕ, ◌≡◌, refl, ap, ◌∙◌, Bool, true, ◌&&◌, some, arith, Text, first, same, eq_of_same,
}
use predixa_learn.Institution.Workers.State.{
  JobStatus, claimed, is_claimed, is_terminal, Job, Database, Library, WorkerDevice, answered,
  same_optional,
}
use predixa_learn.Institution.Workers.Jobs.{is_job, is_claimed_row, find_job}
use predixa_learn.Institution.Workers.Results.{
  job_prefix, WorkerResult, check_artifacts, final_status, finish_job, record_result, publish_now,
  publish_checked, publish_to, publish_as,
}
use predixa_learn.Institution.Workers.Rows.{first-update}
use predixa_learn.Institution.Workers.Laws.{jobs-delete_if_given, final_status-terminal}

both_true : (a b : Bool) → (a && b) ≡ true → (a ≡ true) × (b ≡ true)
both_true a b h = ground arith

-- The job's row after its result was recorded.
found_finished :
    (tenant id : Text) (body : WorkerResult) (status : JobStatus) (undeletable : Text → Bool)
    (now : ℕ) (j : Job) (db : Database)
    → find_job tenant id db ≡ some j
    → is_claimed j.status ≡ true
    → find_job tenant id (publish_now body status undeletable now j db)
      ≡ some (finish_job body status now j)
unfolding find_job publish_now record_result finish_job
found_finished tenant id body status undeletable now j db found c =
    ap (first (is_job tenant id)) (jobs-delete_if_given j.source.storage_key undeletable _)
    ∙ first-update (is_job tenant id) (is_claimed_row j) (finish_job body status now)
        (λ k. is_claimed k.status) db.jobs j (λ k. refl) picks c found
  where
    own : is_job tenant id j ≡ true
    own = first_holds (is_job tenant id) db.jobs j found

    tenants : j.tenant_id ≡ tenant
    tenants =
        eq_of_same j.tenant_id tenant
          (both_true (same j.tenant_id tenant) (same j.resource_id id) own).0

    ids : j.resource_id ≡ id
    ids =
        eq_of_same j.resource_id id
          (both_true (same j.tenant_id tenant) (same j.resource_id id) own).1

    picks : (k : Job) → is_claimed_row j k ≡ (is_job tenant id k && is_claimed k.status)
    picks k =
        ap (λ t. (same k.tenant_id t && same k.resource_id j.resource_id) && is_claimed k.status)
          tenants
        ∙ ap (λ t. (same k.tenant_id tenant && same k.resource_id t) && is_claimed k.status) ids

first_publication :
    (lib : Library) (id : Text) (body : WorkerResult) (status : JobStatus)
    (undeletable : Text → Bool) (now : ℕ) (w : WorkerDevice) (j : Job) (db : Database)
    → find_job w.tenant_id id db ≡ some j
    → same_optional j.worker_id w.worker_id ≡ true
    → j.status ≡ claimed
    → final_status body.status ≡ some status
    → check_artifacts lib (job_prefix w.tenant_id id) j db body.artifacts ≡ answered tt
    → publish_as lib id body undeletable now w db
      ≡ (publish_now body status undeletable now j db, answered status)
unfolding publish_as
first_publication lib id body status undeletable now w j db found held c f ok =
    ap (publish_to lib id body undeletable now w db) found
    ∙ simp (held, f, c) (ap (publish_checked body status undeletable now j db) ok)

repeated_publication :
    (lib : Library) (id : Text) (body : WorkerResult) (status : JobStatus)
    (undeletable : Text → Bool) (now : ℕ) (w : WorkerDevice) (j : Job) (db : Database)
    → find_job w.tenant_id id db ≡ some j
    → same_optional j.worker_id w.worker_id ≡ true
    → is_terminal j.status ≡ true
    → final_status body.status ≡ some status
    → publish_as lib id body undeletable now w db ≡ (db, answered j.status)
unfolding publish_as
repeated_publication lib id body status undeletable now w j db found held t f =
    ap (publish_to lib id body undeletable now w db) found ∙ simp (held, f, t)

-- Publishing is idempotent: a worker's result for a job it has claimed, with an accepted status and
-- artifacts that pass, is recorded; and if the worker then publishes any result with an accepted
-- status for this job, the answer is the first status and nothing changes.
pub publish_twice :
    (lib : Library) (id : Text) (body : WorkerResult) (status : JobStatus)
    (undeletable : Text → Bool) (now : ℕ) (w : WorkerDevice) (j : Job) (db : Database)
    → find_job w.tenant_id id db ≡ some j
    → same_optional j.worker_id w.worker_id ≡ true
    → j.status ≡ claimed
    → final_status body.status ≡ some status
    → check_artifacts lib (job_prefix w.tenant_id id) j db body.artifacts ≡ answered tt
    → (db' : Database) × (publish_as lib id body undeletable now w db ≡ (db', answered status))
      × (find_job w.tenant_id id db' ≡ some (finish_job body status now j))
      × ((body' : WorkerResult) (status' : JobStatus) (undeletable' : Text → Bool) (now' : ℕ)
          → final_status body'.status ≡ some status'
          → publish_as lib id body' undeletable' now' w db' ≡ (db', answered status))
unfolding finish_job
publish_twice lib id body status undeletable now w j db found held c f ok =
    let db' = publish_now body status undeletable now j db in
    let again =
      found_finished w.tenant_id id body status undeletable now j db found (ap is_claimed c) in
    (
      db',
      first_publication lib id body status undeletable now w j db found held c f ok,
      again,
      λ body' status' undeletable' now' f'.
          repeated_publication lib id body' status' undeletable' now' w
            (finish_job body status now j) db' again held
            (final_status-terminal body.status status f) f',
    )
