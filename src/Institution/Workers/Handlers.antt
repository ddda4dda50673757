-- ===== src/Institution/Workers/Handlers.antt =====
-- Each handler changes the rows of the job table as the laws allow
-- (apps/institution-server/institution_server/workers.py).
use predixa_learn.Prelude.{
  ℕ, ◌≡◌, refl, sym, subst, Bool, true, false, ◌&&◌, Option, none, some, List, [], ◌∷◌,
  if◌then◌else◌, arith, Text, same, Bool-cases, if_either, inl, inr,
}
use predixa_learn.Institution.Workers.State.{
  DeviceStatus, is_revoked, JobStatus, is_terminal, WorkerDevice, EnrollmentToken, Source, Job,
  Database, Library, Answer, refused, answered,
}
use predixa_learn.Institution.Workers.Devices.{
  Credential, absent, invalid, valid, Claims, check_signature, is_unavailable, find_worker, seen,
  admit_worker, current_worker, current_signed_worker, and_then, release, holds, release_jobs,
  change_status, update_found, update_worker_state, create_enrollment_token, Redemption,
  enroll_worker, use_token, enroll_new, enroll_with, enroll_key,
}
use predixa_learn.Institution.Workers.Sources.{
  set_file, expire_staged_sources, Upload, stage_worker_source, store_source,
}
use predixa_learn.Institution.Workers.Jobs.{
  JobRequest, new_job, create_from, take_next, is_claimed_row, create_worker_job, reset_if_stale,
  reset_stale, claim_job, is_queued_row, is_claimed_of, take_job, claim_as, claim_worker_job,
  download_as, download_worker_source,
}
use predixa_learn.Institution.Workers.Results.{
  Output, output_descriptor, store_output, upload_to, publish_checked, publish_status, publish_to,
  add_upload, upload_as, upload_worker_artifact, WorkerResult, finish_job, record_result,
  publish_now, publish_as, publish_worker_result,
}
use predixa_learn.Institution.Workers.Steps.{
  Request, state_updated, token_created, worker_enrolled, source_staged, job_created, job_claimed,
  source_downloaded, artifact_uploaded, result_published, step,
}
use predixa_learn.Institution.Workers.Rows.{
  Grown, IsNoRow, Grown-trans, Grown-refl, Grown-append, Grown-update, Grown-update_first,
}
use predixa_learn.Institution.Workers.Laws.{
  JobLaws, final_status-terminal, jobs-delete_if_given, jobs-expire_staged_sources, jobs-seen,
}

module _ (R S : Job → Job → Type 0) (Q : Job → Type 0) (now : ℕ) (laws : JobLaws R S Q now) where
  -- The answer of a handler that started with this database.
  unfoldable IsGrown : {A : Type 0} → Database → Database × Answer A → Type 0
  IsGrown db r = Grown R Q db.jobs r.0.jobs

  unfoldable IsChained : {A : Type 0} → Database → Database × Answer A → Type 0
  IsChained db r = Grown S IsNoRow db.jobs r.0.jobs

  if-IsGrown :
      {A : Type 0} (db : Database) (b : Bool) (x y : Database × Answer A)
      → IsGrown db x
      → IsGrown db y
      → IsGrown db (if b then x else y)
  if-IsGrown db true x y h k = h
  if-IsGrown db false x y h k = k

  answer-IsGrown :
      {A : Type 0} (db db' : Database) (a : Answer A)
      → Grown R Q db.jobs db'.jobs
      → IsGrown db (db', a)
  unfolding IsGrown
  answer-IsGrown db db' a h = h

  refusal-IsGrown : {A : Type 0} (db : Database) (a : Answer A) → IsGrown db (db, a)
  unfolding IsGrown
  refusal-IsGrown db a = Grown-refl R Q laws.unchanged db.jobs

  same_jobs : (db db' : Database) → db'.jobs ≡ db.jobs → Grown R Q db.jobs db'.jobs
  same_jobs db db' e =
      subst (λ js. Grown R Q db.jobs js) (sym e) (Grown-refl R Q laws.unchanged db.jobs)

  released-Grown : (w : WorkerDevice) (db : Database) → Grown R Q db.jobs (release_jobs w db).jobs
  unfolding release_jobs
  released-Grown w db =
      Grown-update R Q laws.unchanged (λ j. same j.tenant_id w.tenant_id && holds w j) release
        (λ j e. laws.released j (ground arith)) db.jobs

  change_status-Grown :
      (w : WorkerDevice) (status : DeviceStatus) (db : Database)
      → Grown R Q db.jobs (change_status w status db).jobs
  unfolding change_status
  change_status-Grown w status db = elim (Bool-cases (is_revoked status)) [
    | inl e ↦ simp e (released-Grown w _)
    | inr e ↦ simp e (same_jobs db db refl)
  ]

  found-Grown :
      (tenant : Text) (if_match : Option ℕ) (status : DeviceStatus) (db : Database)
      (o : Option WorkerDevice)
      → IsGrown db (update_found tenant if_match status db o)
  found-Grown tenant if_match status db none = refusal-IsGrown db _
  found-Grown tenant if_match status db (some w) =
      search (if-IsGrown, refusal-IsGrown, answer-IsGrown, change_status-Grown) depth 10

  take_job-Grown : (w : WorkerDevice) (j : Job) (db : Database) → IsChained db (take_job w now j db)
  unfolding take_job IsChained
  take_job-Grown w j db =
      Grown-update S IsNoRow laws.kept (is_queued_row j) (claim_job w now)
        (λ k e. laws.taken w k (ground arith)) db.jobs

  reset_stale-Grown :
      (tenant : Text) (db : Database) → Grown S IsNoRow db.jobs (reset_stale now tenant db).jobs
  unfolding reset_stale
  reset_stale-Grown tenant db =
      Grown-update_first S IsNoRow laws.kept (is_claimed_of tenant) (reset_if_stale now)
        (λ k e. laws.reset k (ground arith)) 100 db.jobs

  rest-IsChained : {A : Type 0} (db : Database) (a : Answer A) → IsChained db (db, a)
  unfolding IsChained
  rest-IsChained db a = Grown-refl S IsNoRow laws.kept db.jobs

  take_next-Grown :
      (w : WorkerDevice) (db : Database) (o : Option Job) → IsChained db (take_next w now db o)
  take_next-Grown w db none = rest-IsChained db _
  take_next-Grown w db (some j) =
      if_either (IsChained db) _ (take_job-Grown w j db) (rest-IsChained db _)

  Grown-within : (xs ys : List Job) → Grown S IsNoRow xs ys → Grown R Q xs ys
  Grown-within [] [] h = tt
  Grown-within [] (y ∷ ys) h = absurd h.0
  Grown-within (x ∷ xs) [] h = absurd h
  Grown-within (x ∷ xs) (y ∷ ys) h = (laws.within x y h.0, Grown-within xs ys h.1)

  reset_and_take-Grown :
      (w : WorkerDevice) (db : Database) (o : Option Job)
      → IsGrown db (take_next w now (reset_stale now w.tenant_id db) o)
  unfolding IsGrown
  reset_and_take-Grown w db o =
      let db' = reset_stale now w.tenant_id db in
      Grown-within db.jobs (take_next w now db' o).0.jobs (
        Grown-trans S db.jobs db'.jobs (take_next w now db' o).0.jobs laws.chained
          (reset_stale-Grown w.tenant_id db) (unfold IsChained in take_next-Grown w db' o))

  from-IsGrown :
      {A : Type 0} (db db1 : Database) (r : Database × Answer A)
      → db1.jobs ≡ db.jobs
      → IsGrown db1 r
      → IsGrown db r
  unfolding IsGrown
  from-IsGrown db db1 r e h = subst (λ js. Grown R Q js r.0.jobs) e h

  claim_as-Grown :
      (undeletable : Text → Bool) (w : WorkerDevice) (db : Database)
      → IsGrown db (claim_as undeletable now w db)
  unfolding claim_as
  claim_as-Grown undeletable w db =
      let db1 = expire_staged_sources now undeletable w.tenant_id db in
      let e = jobs-expire_staged_sources now undeletable w.tenant_id db in
      if_either (IsGrown db) _ (from-IsGrown db db1 _ e (refusal-IsGrown db1 _))
        (from-IsGrown db db1 _ e (reset_and_take-Grown w db1 _))

  -- The worker that signs a request leaves the jobs alone.
  seen-IsGrown :
      {A : Type 0} (now' : ℕ) (w : WorkerDevice) (db : Database) (r : Database × Answer A)
      → IsGrown (seen now' w db) r
      → IsGrown db r
  seen-IsGrown now' w db r h = from-IsGrown db (seen now' w db) r (jobs-seen now' w db) h

  admitted-Grown :
      {A : Type 0} (c : Claims) (signed : Bool) (db : Database) (o : Option WorkerDevice)
      (k : WorkerDevice → Database → Database × Answer A)
      → ((w : WorkerDevice) (db' : Database) → IsGrown db' (k w db'))
      → IsGrown db (and_then (and_then (admit_worker c now db o) (check_signature signed)) k)
  admitted-Grown c signed db none k h = refusal-IsGrown db _
  admitted-Grown c signed db (some w) k h = elim (Bool-cases (is_unavailable c w)) [
    | inl e ↦ simp e (refusal-IsGrown db _)
    | inr e ↦ simp e (seen-IsGrown now w db _ (signature signed))
  ]
    where
      signature :
          (b : Bool) → IsGrown (seen now w db) (and_then (check_signature b w (seen now w db)) k)
      signature true = h w (seen now w db)
      signature false = refusal-IsGrown (seen now w db) _

  signed-Grown :
      {A : Type 0} (c : Credential) (signed : Bool) (db : Database)
      (k : WorkerDevice → Database → Database × Answer A)
      → ((w : WorkerDevice) (db' : Database) → IsGrown db' (k w db'))
      → IsGrown db (and_then (current_signed_worker c signed now db) k)
  unfolding current_signed_worker current_worker
  signed-Grown absent signed db k h = refusal-IsGrown db _
  signed-Grown invalid signed db k h = refusal-IsGrown db _
  signed-Grown (valid c) signed db k h = admitted-Grown c signed db (find_worker c.sub db) k h

  store_source-Grown :
      (lib : Library) (tenant id : Text) (u : Upload) (saved : Bool) (db : Database)
      (o : Option Text)
      → IsGrown db (store_source lib tenant id u saved now db o)
  unfolding set_file
  store_source-Grown lib tenant id u saved db none = refusal-IsGrown db _
  store_source-Grown lib tenant id u saved db (some key) =
      if_either (IsGrown db) saved (answer-IsGrown db _ _ (same_jobs db db refl))
        (answer-IsGrown db _ _ (same_jobs db db refl))

  stage-Grown :
      (lib : Library) (tenant id : Text) (u : Upload) (saved : Bool) (undeletable : Text → Bool)
      (db : Database)
      → IsGrown db (stage_worker_source lib tenant id u saved undeletable now db)
  unfolding stage_worker_source
  stage-Grown lib tenant id u saved undeletable db =
      let db1 = expire_staged_sources now undeletable tenant db in
      from-IsGrown db db1 _ (jobs-expire_staged_sources now undeletable tenant db)
        (search (if-IsGrown, refusal-IsGrown, store_source-Grown) depth 10)

  create_from-Grown :
      (id tenant : Text) (body : JobRequest) (db : Database) (a : Answer (Text × Source))
      → IsGrown db (create_from id tenant body now db a)
  create_from-Grown id tenant body db (refused n code) = refusal-IsGrown db _
  create_from-Grown id tenant body db (answered (bytes, s)) = answer-IsGrown db _ _ (
      Grown-append R Q laws.unchanged db.jobs (new_job id tenant body now ∷ [])
        (laws.added id tenant body, tt))

  store_output-Grown :
      (lib : Library) (fresh : Text) (o : Output) (j : Job) (db : Database) (key : Option Text)
      → IsGrown db (store_output lib fresh o j db key)
  unfolding set_file
  store_output-Grown lib fresh o j db none = refusal-IsGrown db _
  store_output-Grown lib fresh o j db (some key) = answer-IsGrown db _ _ (
      Grown-update R Q laws.unchanged (is_claimed_row j)
        (add_upload (output_descriptor lib fresh key o)) (λ k e. laws.uploaded _ k (ground arith))
        db.jobs)

  upload_to-Grown :
      (lib : Library) (id fresh : Text) (o : Output) (w : WorkerDevice) (db : Database)
      (j : Option Job)
      → IsGrown db (upload_to lib id fresh o w db j)
  upload_to-Grown lib id fresh o w db none = refusal-IsGrown db _
  upload_to-Grown lib id fresh o w db (some j) =
      search (if-IsGrown, refusal-IsGrown, store_output-Grown) depth 10

  publish_now-Grown :
      (body : WorkerResult) (status : JobStatus) (undeletable : Text → Bool) (j : Job)
      (db : Database)
      → is_terminal status ≡ true
      → Grown R Q db.jobs (publish_now body status undeletable now j db).jobs
  unfolding publish_now record_result
  publish_now-Grown body status undeletable j db t =
      subst (λ js. Grown R Q db.jobs js)
        (sym (jobs-delete_if_given j.source.storage_key undeletable _))
        (Grown-update R Q laws.unchanged (is_claimed_row j) (finish_job body status now)
          (λ k e. laws.finished body status k t (ground arith)) db.jobs)

  publish_checked-Grown :
      (body : WorkerResult) (status : JobStatus) (undeletable : Text → Bool) (j : Job)
      (db : Database) (a : Answer Unit)
      → is_terminal status ≡ true
      → IsGrown db (publish_checked body status undeletable now j db a)
  publish_checked-Grown body status undeletable j db (refused n code) t = refusal-IsGrown db _
  publish_checked-Grown body status undeletable j db (answered _) t =
      answer-IsGrown db _ _ (publish_now-Grown body status undeletable j db t)

  publish_status-Grown :
      (lib : Library) (id : Text) (body : WorkerResult) (undeletable : Text → Bool)
      (w : WorkerDevice) (j : Job) (db : Database) (o : Option JobStatus)
      → ((status : JobStatus) → o ≡ some status → is_terminal status ≡ true)
      → IsGrown db (publish_status lib id body undeletable now w j db o)
  publish_status-Grown lib id body undeletable w j db none t = refusal-IsGrown db _
  publish_status-Grown lib id body undeletable w j db (some status) t =
      let ended = t status refl in
      search (if-IsGrown, refusal-IsGrown, publish_checked-Grown) depth 10

  publish_to-Grown :
      (lib : Library) (id : Text) (body : WorkerResult) (undeletable : Text → Bool)
      (w : WorkerDevice) (db : Database) (o : Option Job)
      → IsGrown db (publish_to lib id body undeletable now w db o)
  publish_to-Grown lib id body undeletable w db none = refusal-IsGrown db _
  publish_to-Grown lib id body undeletable w db (some j) =
      let ended = final_status-terminal body.status in
      search (if-IsGrown, refusal-IsGrown, publish_status-Grown) depth 10

  create_token-Grown :
      (lib : Library) (tenant : Text) (minutes : ℕ) (token : Text) (db : Database)
      → IsGrown db (create_enrollment_token lib tenant minutes token now db)
  unfolding create_enrollment_token
  create_token-Grown lib tenant minutes token db =
      let done = same_jobs db db refl in
      search (if-IsGrown, refusal-IsGrown, answer-IsGrown) depth 10

  enroll_new-Grown :
      (r : Redemption) (id key_hash : Text) (t : EnrollmentToken) (db : Database)
      (o : Option WorkerDevice)
      → IsGrown db (enroll_new r id key_hash now t db o)
  unfolding use_token
  enroll_new-Grown r id key_hash t db (some _) = refusal-IsGrown db _
  enroll_new-Grown r id key_hash t db none = answer-IsGrown db _ _ (same_jobs db db refl)

  enroll_with-Grown :
      (r : Redemption) (id key_hash : Text) (db : Database) (o : Option EnrollmentToken)
      → IsGrown db (enroll_with r id key_hash now db o)
  enroll_with-Grown r id key_hash db none = refusal-IsGrown db _
  enroll_with-Grown r id key_hash db (some t) =
      search (if-IsGrown, refusal-IsGrown, enroll_new-Grown) depth 10

  enroll_key-Grown :
      (lib : Library) (r : Redemption) (id : Text) (db : Database) (o : Option Text)
      → IsGrown db (enroll_key lib r id now db o)
  enroll_key-Grown lib r id db none = refusal-IsGrown db _
  enroll_key-Grown lib r id db (some bytes) = enroll_with-Grown r id (lib.sha256 bytes) db _

  download-Grown :
      (lib : Library) (id : Text) (w : WorkerDevice) (db : Database)
      → IsGrown db (download_as lib id w db)
  unfolding download_as
  download-Grown lib id w db = refusal-IsGrown db _

  -- A request changes the job table by what the laws speak of.
  pub step-Grown :
      (lib : Library) (r : Request) (db : Database) → Grown R Q db.jobs (step lib now r db).jobs
  unfolding step IsGrown update_worker_state enroll_worker claim_worker_job create_worker_job
      download_worker_source upload_worker_artifact upload_as publish_worker_result publish_as
  step-Grown lib (state_updated tenant id if_match status) db =
      found-Grown tenant if_match status db (find_worker id db)
  step-Grown lib (token_created tenant minutes token) db =
      create_token-Grown lib tenant minutes token db
  step-Grown lib (worker_enrolled r id) db = enroll_key-Grown lib r id db r.public_bytes
  step-Grown lib (source_staged tenant id u saved undeletable) db =
      stage-Grown lib tenant id u saved undeletable db
  step-Grown lib (job_created id tenant body) db = create_from-Grown id tenant body db _
  step-Grown lib (job_claimed c signed undeletable) db =
      signed-Grown c signed db _ (claim_as-Grown undeletable)
  step-Grown lib (source_downloaded c signed id) db =
      signed-Grown c signed db _ (download-Grown lib id)
  step-Grown lib (artifact_uploaded c signed id fresh o) db =
      signed-Grown c signed db _ (λ w db'. upload_to-Grown lib id fresh o w db' _)
  step-Grown lib (result_published c signed id body undeletable) db =
      signed-Grown c signed db _ (λ w db'. publish_to-Grown lib id body undeletable w db' _)
