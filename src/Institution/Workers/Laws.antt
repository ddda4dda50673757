-- ===== src/Institution/Workers/Laws.antt =====
-- What a request does to each row of the job table
-- (apps/institution-server/institution_server/workers.py).
use predixa_learn.Prelude.{
  ℕ, zero, suc, ◌≡◌, refl, ◌∙◌, Bool, true, not, ◌&&◌, Option, none, some, List, [], ◌∷◌, arith,
  Text, Bool-cases, if_either, Option-cases, inl, inr,
}
use predixa_learn.Institution.Storage.{validate_key}
use predixa_learn.Institution.Workers.State.{
  JobStatus, is_claimed, is_queued, is_terminal, WorkerDevice, Descriptor, Source, Job, Database,
}
use predixa_learn.Institution.Workers.Devices.{seen, release}
use predixa_learn.Institution.Workers.Sources.{
  set_file, delete_file, is_past, is_staged_of, delete_if_expired, delete_expired,
  expire_staged_sources,
}
use predixa_learn.Institution.Workers.Jobs.{JobRequest, new_job, reset_if_stale, claim_job}
use predixa_learn.Institution.Workers.Results.{
  delete_if_given, add_upload, WorkerResult, final_status, finish_job,
}

-- A relation between a row before and after a request, closed under what the handlers do to a row,
-- with what is true of a new row; `S` is the relation for the two assignments that a claim makes one after the other.
pub record JobLaws (R S : Job → Job → Type 0) (Q : Job → Type 0) (now : ℕ) : Type 0 where
  pub unchanged : (j : Job) → R j j
  pub added : (id tenant : Text) (body : JobRequest) → Q (new_job id tenant body now)
  pub released : (j : Job) → is_claimed j.status ≡ true → R j (release j)
  pub uploaded : (d : Descriptor) (j : Job) → is_claimed j.status ≡ true → R j (add_upload d j)
  pub finished :
      (body : WorkerResult) (status : JobStatus) (j : Job)
      → is_terminal status ≡ true
      → is_claimed j.status ≡ true
      → R j (finish_job body status now j)
  pub within : (j k : Job) → S j k → R j k
  pub kept : (j : Job) → S j j
  pub chained : (j k l : Job) → S j k → S k l → S j l
  pub reset : (j : Job) → is_claimed j.status ≡ true → S j (reset_if_stale now j)
  pub taken : (w : WorkerDevice) (j : Job) → is_queued j.status ≡ true → S j (claim_job w now j)

pub final_status-terminal :
    (t : Text) (status : JobStatus) → final_status t ≡ some status → is_terminal status ≡ true
unfolding final_status
final_status-terminal t status h = ground arith

-- The parts of the handlers that leave the jobs alone.
pub jobs-set_file :
    (key : Text) (content : Option Text) (db : Database) → (set_file key content db).jobs ≡ db.jobs
unfolding set_file
jobs-set_file key content db = refl

pub jobs-delete_file : (key : Text) (db : Database) → (delete_file key db).jobs ≡ db.jobs
unfolding delete_file set_file
jobs-delete_file key db = elim (Option-cases (validate_key key)) [
  | inl e ↦ simp e
  | inr (k, e) ↦ simp e
]

pub jobs-delete_if_expired :
    (now : ℕ) (undeletable : Text → Bool) (s : Source) (db : Database)
    → (delete_if_expired now undeletable s db).jobs ≡ db.jobs
unfolding delete_if_expired
jobs-delete_if_expired now undeletable s db =
    elim (Bool-cases (is_past now s.expires_at && not (undeletable s.key))) [
      | inl e ↦ simp e (jobs-delete_file s.key db)
      | inr e ↦ simp e
    ]

pub jobs-delete_expired :
    (now : ℕ) (undeletable : Text → Bool) (tenant : Text) (n : ℕ) (ss : List Source) (db : Database)
    → (delete_expired now undeletable tenant n ss db).jobs ≡ db.jobs
unfolding delete_expired
jobs-delete_expired now undeletable tenant n [] db = refl
jobs-delete_expired now undeletable tenant zero (s ∷ ss) db = refl
jobs-delete_expired now undeletable tenant (suc n) (s ∷ ss) db =
    elim (Bool-cases (is_staged_of tenant s)) [
      | inl e ↦ simp e (
          jobs-delete_expired now undeletable tenant n ss (delete_if_expired now undeletable s db)
          ∙ jobs-delete_if_expired now undeletable s db)
      | inr e ↦ simp e (jobs-delete_expired now undeletable tenant (suc n) ss db)
    ]

pub jobs-seen : (now : ℕ) (w : WorkerDevice) (db : Database) → (seen now w db).jobs ≡ db.jobs
unfolding seen
jobs-seen now w db = refl

pub jobs-expire_staged_sources :
    (now : ℕ) (undeletable : Text → Bool) (tenant : Text) (db : Database)
    → (expire_staged_sources now undeletable tenant db).jobs ≡ db.jobs
unfolding expire_staged_sources
jobs-expire_staged_sources now undeletable tenant db =
    jobs-delete_expired now undeletable tenant 100 db.sources db

pub jobs-delete_if_given :
    (key : Option Text) (undeletable : Text → Bool) (db : Database)
    → (delete_if_given key undeletable db).jobs ≡ db.jobs
jobs-delete_if_given none undeletable db = refl
jobs-delete_if_given (some key) undeletable db =
    if_either (λ (r : Database). r.jobs ≡ db.jobs) _ refl (jobs-delete_file key db)
