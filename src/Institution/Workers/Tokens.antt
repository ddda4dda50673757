-- ===== src/Institution/Workers/Tokens.antt =====
-- The requests that leave the enrollment tokens alone
-- (apps/institution-server/institution_server/workers.py).
use predixa_learn.Prelude.{
  ℕ, zero, suc, ◌≡◌, refl, ◌∙◌, Bool, true, false, Option, none, some, List, [], ◌∷◌, if◌then◌else◌,
  arith, Text, Bool-cases, Option-cases, if_either, inl, inr,
}
use predixa_learn.Institution.Storage.{validate_key}
use predixa_learn.Institution.Workers.State.{
  DeviceStatus, JobStatus, WorkerDevice, Source, Job, Database, Library, Answer, refused, answered,
}
use predixa_learn.Institution.Workers.Devices.{
  Claims, Credential, absent, invalid, valid, find_worker, seen, admit_worker, current_worker,
  check_signature, current_signed_worker, and_then, is_unavailable, release_jobs, change_status,
  update_found, update_worker_state,
}
use predixa_learn.Institution.Workers.Sources.{
  set_file, delete_file, delete_if_expired, delete_expired, expire_staged_sources, is_staged_of,
  Upload, store_source, stage_worker_source,
}
use predixa_learn.Institution.Workers.Jobs.{
  JobRequest, create_from, create_worker_job, reset_stale, take_job, take_next, claim_as,
  claim_worker_job, download_as, download_worker_source,
}
use predixa_learn.Institution.Workers.Results.{
  Output, store_output, upload_to, upload_as, upload_worker_artifact, WorkerResult, delete_if_given,
  record_result, publish_now, publish_checked, publish_status, publish_to, publish_as,
  publish_worker_result,
}
use predixa_learn.Institution.Workers.Steps.{
  Request, state_updated, token_created, worker_enrolled, source_staged, job_created, job_claimed,
  source_downloaded, artifact_uploaded, result_published, step,
}

-- The answer of a handler that started with this database
unfoldable Leaves : {A : Type 0} → Database → Database × Answer A → Type 0
Leaves db r = r.0.tokens ≡ db.tokens

tokens-delete_file : (key : Text) (db : Database) → (delete_file key db).tokens ≡ db.tokens
unfolding delete_file set_file
tokens-delete_file key db = elim (Option-cases (validate_key key)) [
  | inl e ↦ simp e
  | inr (k, e) ↦ simp e
]

tokens-delete_if_expired :
    (now : ℕ) (undeletable : Text → Bool) (s : Source) (db : Database)
    → (delete_if_expired now undeletable s db).tokens ≡ db.tokens
unfolding delete_if_expired
tokens-delete_if_expired now undeletable s db =
    if_either (λ (x : Database). x.tokens ≡ db.tokens) _ (tokens-delete_file s.key db) refl

tokens-delete_expired :
    (now : ℕ) (undeletable : Text → Bool) (tenant : Text) (n : ℕ) (ss : List Source) (db : Database)
    → (delete_expired now undeletable tenant n ss db).tokens ≡ db.tokens
unfolding delete_expired
tokens-delete_expired now undeletable tenant n [] db = refl
tokens-delete_expired now undeletable tenant zero (s ∷ ss) db = refl
tokens-delete_expired now undeletable tenant (suc n) (s ∷ ss) db =
    if_either (λ (x : Database). x.tokens ≡ db.tokens) (is_staged_of tenant s)
      (tokens-delete_expired now undeletable tenant n ss (delete_if_expired now undeletable s db)
        ∙ tokens-delete_if_expired now undeletable s db)
      (tokens-delete_expired now undeletable tenant (suc n) ss db)

tokens-expire :
    (now : ℕ) (undeletable : Text → Bool) (tenant : Text) (db : Database)
    → (expire_staged_sources now undeletable tenant db).tokens ≡ db.tokens
unfolding expire_staged_sources
tokens-expire now undeletable tenant db =
    tokens-delete_expired now undeletable tenant 100 db.sources db

module _ {A : Type 0} (db : Database) where
  refusal-Leaves : (a : Answer A) → Leaves db (db, a)
  unfolding Leaves
  refusal-Leaves a = refl

  if-Leaves :
      (b : Bool) (x y : Database × Answer A)
      → Leaves db x
      → Leaves db y
      → Leaves db (if b then x else y)
  if-Leaves true x y h k = h
  if-Leaves false x y h k = k

  from-Leaves :
      (db1 : Database) (r : Database × Answer A)
      → db1.tokens ≡ db.tokens
      → Leaves db1 r
      → Leaves db r
  unfolding Leaves
  from-Leaves db1 r e h = h ∙ e

found-Leaves :
    (tenant : Text) (if_match : Option ℕ) (status : DeviceStatus) (db : Database)
    (o : Option WorkerDevice)
    → Leaves db (update_found tenant if_match status db o)
unfolding Leaves change_status release_jobs
found-Leaves tenant if_match status db none = refl
found-Leaves tenant if_match status db (some w) = ground arith

store_source-Leaves :
    (lib : Library) (tenant id : Text) (u : Upload) (saved : Bool) (now : ℕ) (db : Database)
    (o : Option Text)
    → Leaves db (store_source lib tenant id u saved now db o)
unfolding Leaves set_file
store_source-Leaves lib tenant id u saved now db none = refl
store_source-Leaves lib tenant id u true now db (some key) = refl
store_source-Leaves lib tenant id u false now db (some key) = refl

stage-Leaves :
    (lib : Library) (tenant id : Text) (u : Upload) (saved : Bool) (undeletable : Text → Bool)
    (now : ℕ) (db : Database)
    → Leaves db (stage_worker_source lib tenant id u saved undeletable now db)
unfolding stage_worker_source
stage-Leaves lib tenant id u saved undeletable now db =
    let db1 = expire_staged_sources now undeletable tenant db in
    from-Leaves db db1 _ (tokens-expire now undeletable tenant db)
      (search (if-Leaves, refusal-Leaves, store_source-Leaves) depth 10)

create_from-Leaves :
    (id tenant : Text) (body : JobRequest) (now : ℕ) (db : Database) (a : Answer (Text × Source))
    → Leaves db (create_from id tenant body now db a)
unfolding Leaves
create_from-Leaves id tenant body now db (refused n code) = refl
create_from-Leaves id tenant body now db (answered (bytes, s)) = refl

take_next-Leaves :
    (w : WorkerDevice) (now : ℕ) (db : Database) (o : Option Job)
    → Leaves db (take_next w now (reset_stale now w.tenant_id db) o)
unfolding Leaves reset_stale take_job
take_next-Leaves w now db none = refl
take_next-Leaves w now db (some j) =
    if_either (λ (r : Database × Answer _). r.0.tokens ≡ db.tokens) _ refl refl

claim-Leaves :
    (undeletable : Text → Bool) (now : ℕ) (w : WorkerDevice) (db : Database)
    → Leaves db (claim_as undeletable now w db)
unfolding claim_as
claim-Leaves undeletable now w db =
    let db1 = expire_staged_sources now undeletable w.tenant_id db in
    from-Leaves db db1 _ (tokens-expire now undeletable w.tenant_id db)
      (if_either (Leaves db1) _ (refusal-Leaves db1 _) (take_next-Leaves w now db1 _))

store_output-Leaves :
    (lib : Library) (fresh : Text) (o : Output) (j : Job) (db : Database) (key : Option Text)
    → Leaves db (store_output lib fresh o j db key)
unfolding Leaves set_file
store_output-Leaves lib fresh o j db none = refl
store_output-Leaves lib fresh o j db (some key) = refl

upload-Leaves :
    (lib : Library) (id fresh : Text) (o : Output) (w : WorkerDevice) (db : Database)
    (j : Option Job)
    → Leaves db (upload_to lib id fresh o w db j)
upload-Leaves lib id fresh o w db none = refusal-Leaves db _
upload-Leaves lib id fresh o w db (some j) =
    search (if-Leaves, refusal-Leaves, store_output-Leaves) depth 10

tokens-delete_if_given :
    (o : Option Text) (undeletable : Text → Bool) (db : Database)
    → (delete_if_given o undeletable db).tokens ≡ db.tokens
tokens-delete_if_given none undeletable db = refl
tokens-delete_if_given (some key) undeletable db =
    if_either (λ (x : Database). x.tokens ≡ db.tokens) _ refl (tokens-delete_file key db)

publish_checked-Leaves :
    (body : WorkerResult) (status : JobStatus) (undeletable : Text → Bool) (now : ℕ) (j : Job)
    (db : Database) (a : Answer Unit)
    → Leaves db (publish_checked body status undeletable now j db a)
unfolding Leaves publish_now record_result
publish_checked-Leaves body status undeletable now j db (refused n code) = refl
publish_checked-Leaves body status undeletable now j db (answered _) =
    tokens-delete_if_given j.source.storage_key undeletable _

publish_status-Leaves :
    (lib : Library) (id : Text) (body : WorkerResult) (undeletable : Text → Bool) (now : ℕ)
    (w : WorkerDevice) (j : Job) (db : Database) (o : Option JobStatus)
    → Leaves db (publish_status lib id body undeletable now w j db o)
publish_status-Leaves lib id body undeletable now w j db none = refusal-Leaves db _
publish_status-Leaves lib id body undeletable now w j db (some status) =
    search (if-Leaves, refusal-Leaves, publish_checked-Leaves) depth 10

publish-Leaves :
    (lib : Library) (id : Text) (body : WorkerResult) (undeletable : Text → Bool) (now : ℕ)
    (w : WorkerDevice) (db : Database) (j : Option Job)
    → Leaves db (publish_to lib id body undeletable now w db j)
publish-Leaves lib id body undeletable now w db none = refusal-Leaves db _
publish-Leaves lib id body undeletable now w db (some j) =
    search (if-Leaves, refusal-Leaves, publish_status-Leaves) depth 10

admitted-Leaves :
    {A : Type 0} (c : Claims) (signed : Bool) (now : ℕ) (db : Database) (o : Option WorkerDevice)
    (k : WorkerDevice → Database → Database × Answer A)
    → ((w : WorkerDevice) (db' : Database) → Leaves db' (k w db'))
    → Leaves db (and_then (and_then (admit_worker c now db o) (check_signature signed)) k)
unfolding seen
admitted-Leaves c signed now db none k h = refusal-Leaves db _
admitted-Leaves c signed now db (some w) k h = elim (Bool-cases (is_unavailable c w)) [
  | inl e ↦ simp e (refusal-Leaves db _)
  | inr e ↦ simp e (signature signed)
]
  where
    signature : (b : Bool) → Leaves db (and_then (check_signature b w (seen now w db)) k)
    signature true = from-Leaves db (seen now w db) _ refl (h w (seen now w db))
    signature false = from-Leaves db (seen now w db) _ refl (refusal-Leaves (seen now w db) _)

signed-Leaves :
    {A : Type 0} (c : Credential) (signed : Bool) (now : ℕ) (db : Database)
    (k : WorkerDevice → Database → Database × Answer A)
    → ((w : WorkerDevice) (db' : Database) → Leaves db' (k w db'))
    → Leaves db (and_then (current_signed_worker c signed now db) k)
unfolding current_signed_worker current_worker
signed-Leaves absent signed now db k h = refusal-Leaves db _
signed-Leaves invalid signed now db k h = refusal-Leaves db _
signed-Leaves (valid c) signed now db k h =
    admitted-Leaves c signed now db (find_worker c.sub db) k h

-- A request that neither creates nor redeems a token
abbrev pub is_other : Request → Bool
is_other (token_created tenant minutes token) = false
is_other (worker_enrolled r id) = false
is_other _ = true

-- Such a request leaves the tokens as they are.
pub step-tokens :
    (lib : Library) (now : ℕ) (r : Request) (db : Database)
    → is_other r ≡ true
    → (step lib now r db).tokens ≡ db.tokens
unfolding step Leaves update_worker_state claim_worker_job download_worker_source download_as
    create_worker_job upload_worker_artifact upload_as publish_worker_result publish_as
step-tokens lib now (state_updated tenant id if_match status) db h =
    found-Leaves tenant if_match status db (find_worker id db)
step-tokens lib now (token_created tenant minutes token) db h = absurd (ground (arith, h))
step-tokens lib now (worker_enrolled r id) db h = absurd (ground (arith, h))
step-tokens lib now (source_staged tenant id u saved undeletable) db h =
    stage-Leaves lib tenant id u saved undeletable now db
step-tokens lib now (job_created id tenant body) db h = create_from-Leaves id tenant body now db _
step-tokens lib now (job_claimed c signed undeletable) db h =
    signed-Leaves c signed now db _ (claim-Leaves undeletable now)
step-tokens lib now (source_downloaded c signed id) db h =
    signed-Leaves c signed now db _
      λ w db'. refusal-Leaves {A = Text} db' (download_as lib id w db').1
step-tokens lib now (artifact_uploaded c signed id fresh o) db h =
    signed-Leaves c signed now db _ λ w db'. upload-Leaves lib id fresh o w db' _
step-tokens lib now (result_published c signed id body undeletable) db h =
    signed-Leaves c signed now db _ λ w db'. publish-Leaves lib id body undeletable now w db' _
