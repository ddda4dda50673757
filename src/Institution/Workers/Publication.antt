-- ===== src/Institution/Workers/Publication.antt =====
-- Published results: their artifacts, and what a repeated publication does
-- (apps/institution-server/institution_server/workers.py, `publish_worker_result`).
use predixa_learn.Prelude.{
  ℕ, String, ◌≡◌, refl, sym, ap, subst, ◌≢◌, ◌⊎◌, Bool, true, false, not, ◌&&◌, ◌==◌, Option, none,
  some, List, [], ◌∷◌, All, arith, Text, Bool-cases, inl, inr, if◌then◌else◌, same, eq_of_same,
  starts_with, length,
}
use predixa_learn.Institution.Storage.{validate_key}
use predixa_learn.Institution.Workers.State.{
  JobStatus, claimed, Job, Descriptor, Database, Library, WorkerDevice, Answer, refused, answered,
  same_optional,
}
use predixa_learn.Institution.Workers.Jobs.{find_job}
use predixa_learn.Institution.Workers.Results.{
  is_allowed, is_uploaded, job_prefix, WorkerResult, check_artifact, check_artifacts, check_key,
  check_scope, check_data, final_status, publish_now, publish_checked, publish_status, publish_to,
  publish_as,
}

-- An artifact that a result may name: of an approved kind, uploaded to this job, stored below the
-- job's prefix, with the size and digest that it states.
pub record IsPublishable (lib : Library) (prefix : Text) (j : Job) (db : Database) (d : Descriptor)
    : Type 0 where
  pub allowed : is_allowed d.kind j.allowed_outputs ≡ true
  pub uploaded : is_uploaded d j.uploaded_artifacts ≡ true
  pub storage_key : Text
  pub key : Text
  pub bytes : Text
  pub stored_as : d.storage_key ≡ some storage_key
  pub normal : validate_key storage_key ≡ some key
  pub in_scope : starts_with prefix key ≡ true
  pub stored : db.files key ≡ some bytes
  pub size : length bytes ≡ d.size_bytes
  pub digest : lib.sha256 bytes ≡ d.sha256

abbrev is_answered : Answer Unit → Bool
is_answered (refused n code) = false
is_answered (answered _) = true

false≢true : false ≢ true
false≢true h = ground arith

-- A guard that raises unless its condition holds.
passed :
    (b : Bool) (n : ℕ) (code : String) (a : Answer Unit)
    → is_answered (if not b then refused n code else a) ≡ true
    → (b ≡ true) × (is_answered a ≡ true)
passed true n code a h = (refl, h)
passed false n code a h = absurd (ground arith)

checked_data :
    (lib : Library) (d : Descriptor) (o : Option Text)
    → is_answered (check_data lib d o) ≡ true
    → (bytes : Text) × (o ≡ some bytes)
      × (length bytes ≡ d.size_bytes)
      × (lib.sha256 bytes ≡ d.sha256)
checked_data lib d none h = absurd (ground arith)
checked_data lib d (some bytes) h =
    let both : (length bytes == d.size_bytes && same (lib.sha256 bytes) d.sha256) ≡ true =
      ground arith in
    (bytes, refl, ground arith, eq_of_same (lib.sha256 bytes) d.sha256 (ground arith))

checked_scope :
    (lib : Library) (d : Descriptor) (prefix : Text) (db : Database) (o : Option Text)
    → is_answered (check_scope lib d prefix db o) ≡ true
    → (key : Text) × (o ≡ some key)
      × (starts_with prefix key ≡ true)
      × (is_answered (check_data lib d (db.files key)) ≡ true)
checked_scope lib d prefix db none h = absurd (ground arith)
checked_scope lib d prefix db (some key) h = elim (Bool-cases (starts_with prefix key)) [
  | inl e ↦ (key, refl, e, simp e at h)
  | inr e ↦ absurd (false≢true (simp e at h))
]

checked_key :
    (lib : Library) (d : Descriptor) (prefix : Text) (db : Database) (o : Option Text)
    → is_answered (check_key lib d prefix db o) ≡ true
    → (key : Text) × (o ≡ some key)
      × (is_answered (check_scope lib d prefix db (validate_key key)) ≡ true)
checked_key lib d prefix db none h = absurd (ground arith)
checked_key lib d prefix db (some key) h = elim (Bool-cases (same key [])) [
  | inl e ↦ absurd (false≢true (simp e at h))
  | inr e ↦ (key, refl, simp e at h)
]

checked_artifact :
    (lib : Library) (prefix : Text) (j : Job) (db : Database) (d : Descriptor)
    → is_answered (check_artifact lib prefix j db d) ≡ true
    → IsPublishable lib prefix j db d
unfolding check_artifact
checked_artifact lib prefix j db d h =
    let first = passed (is_allowed d.kind j.allowed_outputs) _ _ _ h in
    let second = passed (is_uploaded d j.uploaded_artifacts) _ _ _ first.1 in
    let keyed = checked_key lib d prefix db d.storage_key second.1 in
    let scoped = checked_scope lib d prefix db (validate_key keyed.0) keyed.2 in
    let found = checked_data lib d (db.files scoped.0) scoped.3 in
    record {
      allowed = first.0;
      uploaded = second.0;
      storage_key = keyed.0;
      key = scoped.0;
      bytes = found.0;
      stored_as = keyed.1;
      normal = scoped.1;
      in_scope = scoped.2;
      stored = found.1;
      size = found.2;
      digest = found.3;
    }

checked_artifacts :
    (lib : Library) (prefix : Text) (j : Job) (db : Database) (ds : List Descriptor)
    → is_answered (check_artifacts lib prefix j db ds) ≡ true
    → All (IsPublishable lib prefix j db) ds
unfolding check_artifacts
checked_artifacts lib prefix j db [] h = tt
checked_artifacts lib prefix j db (d ∷ ds) h =
    both (check_artifact lib prefix j db d) refl h (checked_artifacts lib prefix j db ds)
  where
    both :
        (a : Answer Unit)
        → check_artifact lib prefix j db d ≡ a
        → is_answered (elim a [
          | refused n code ↦ refused n code
          | answered _ ↦ check_artifacts lib prefix j db ds
        ])
          ≡ true
        → (is_answered (check_artifacts lib prefix j db ds) ≡ true
            → All (IsPublishable lib prefix j db) ds)
        → All (IsPublishable lib prefix j db) (d ∷ ds)
    both (refused n code) e h' rest = absurd (ground arith)
    both (answered _) e h' rest = (checked_artifact lib prefix j db d (ap is_answered e), rest h')

-- What a publication does to a claimed job: either it is refused and changes nothing, or every
-- artifact that the result names is approved, uploaded and intact, and the result is recorded.
pub data Published (lib : Library) (id : Text) (body : WorkerResult) (undeletable : Text → Bool)
    (now : ℕ) (w : WorkerDevice) (j : Job) (db : Database)
    : Database × Answer JobStatus → Type 0 where
  not_published :
      (n : ℕ) (code : String) → Published lib id body undeletable now w j db (db, refused n code)
  published :
      (status : JobStatus)
      → final_status body.status ≡ some status
      → All (IsPublishable lib (job_prefix w.tenant_id id) j db) body.artifacts
      → Published lib id body undeletable now w j db
          (publish_now body status undeletable now j db, answered status)

checked-Published :
    (lib : Library) (id : Text) (body : WorkerResult) (undeletable : Text → Bool) (now : ℕ)
    (w : WorkerDevice) (j : Job) (db : Database) (status : JobStatus) (a : Answer Unit)
    → final_status body.status ≡ some status
    → check_artifacts lib (job_prefix w.tenant_id id) j db body.artifacts ≡ a
    → Published lib id body undeletable now w j db
        (publish_checked body status undeletable now j db a)
checked-Published lib id body undeletable now w j db status (refused n code) f e =
    not_published n code
checked-Published lib id body undeletable now w j db status (answered _) f e =
    published status f
      (checked_artifacts lib (job_prefix w.tenant_id id) j db body.artifacts (ap is_answered e))

claimed-Published :
    (lib : Library) (id : Text) (body : WorkerResult) (undeletable : Text → Bool) (now : ℕ)
    (w : WorkerDevice) (j : Job) (db : Database) (o : Option JobStatus)
    → final_status body.status ≡ o
    → j.status ≡ claimed
    → Published lib id body undeletable now w j db
        (publish_status lib id body undeletable now w j db o)
claimed-Published lib id body undeletable now w j db none f c = not_published 422 "invalid_status"
claimed-Published lib id body undeletable now w j db (some status) f c =
    simp c (checked-Published lib id body undeletable now w j db status _ f refl)

-- Publishing a result for a claimed job either is refused and changes nothing, or answers with the
-- final status that the body spells and every artifact of the body is of an approved kind, was
-- uploaded to this job, and is stored below the job's prefix with the size and digest it states.
pub publish_as-Published :
    (lib : Library) (id : Text) (body : WorkerResult) (undeletable : Text → Bool) (now : ℕ)
    (w : WorkerDevice) (j : Job) (db : Database)
    → find_job w.tenant_id id db ≡ some j
    → j.status ≡ claimed
    → Published lib id body undeletable now w j db (publish_as lib id body undeletable now w db)
unfolding publish_as
publish_as-Published lib id body undeletable now w j db found c =
    subst
      (λ o.
        Published lib id body undeletable now w j db
          (publish_to lib id body undeletable now w db o))
      (sym found) (held (Bool-cases (same_optional j.worker_id w.worker_id)))
  where
    held :
        (same_optional j.worker_id w.worker_id ≡ true)
          ⊎ (same_optional j.worker_id w.worker_id ≡ false)
        → Published lib id body undeletable now w j db
            (publish_to lib id body undeletable now w db (some j))
    held (inl e) = simp e (claimed-Published lib id body undeletable now w j db _ refl c)
    held (inr e) = simp e (not_published 404 "job_not_found")
