-- ===== src/Institution/Workers/Oldest.antt =====
-- Which job a worker is given
-- (apps/institution-server/institution_server/workers.py, `claim_worker_job`).
use predixa_learn.Prelude.{
  ℕ, suc, ◌≤◌, ◌≡◌, refl, Bool, true, false, Option, none, some, List, [], ◌∷◌, arith, Text,
  Bool-cases, inl, inr, leb, All, get_elem?,
}
use predixa_learn.Institution.Workers.State.{
  DeviceStatus, draining, Job, Database, WorkerDevice, Answer, answered,
}
use predixa_learn.Institution.Workers.Sources.{expire_staged_sources}
use predixa_learn.Institution.Workers.Jobs.{
  is_queued_of, older, next_job, reset_stale, is_supported, Claim, no_job, take_job, take_next,
  is_draining, claim_as,
}

-- `j` is a queued job of the tenant, and no queued job of the tenant is older.
pub record IsOldest (tenant : Text) (js : List Job) (j : Job) : Type 0 where
  pub place : ℕ
  pub there : get_elem? js place ≡ some j
  pub is_queued : is_queued_of tenant j ≡ true
  pub first_created : All (λ k. is_queued_of tenant k ≡ true → j.created_at ≤ k.created_at) js

-- No job of the tenant is queued.
abbrev pub IsIdle : Text → List Job → Type 0
IsIdle tenant js = All (λ j. is_queued_of tenant j ≡ false) js

-- What `next_job` returned is the oldest, or there is none.
abbrev IsNext : Text → List Job → Option Job → Type 0
IsNext tenant js none = IsIdle tenant js
IsNext tenant js (some j) = IsOldest tenant js j

All-later :
    (tenant : Text) (j k : Job) (js : List Job)
    → j.created_at ≤ k.created_at
    → All (λ l. is_queued_of tenant l ≡ true → k.created_at ≤ l.created_at) js
    → All (λ l. is_queued_of tenant l ≡ true → j.created_at ≤ l.created_at) js
All-later tenant j k [] le h = tt
All-later tenant j k (l ∷ js) le h = (λ q. omega (arith, le, h.0 q), All-later tenant j k js le h.1)

All-idle :
    (tenant : Text) (j : Job) (js : List Job)
    → IsIdle tenant js
    → All (λ l. is_queued_of tenant l ≡ true → j.created_at ≤ l.created_at) js
All-idle tenant j [] h = tt
All-idle tenant j (l ∷ js) h = (λ q. absurd (ground (arith, q, h.0)), All-idle tenant j js h.1)

older-IsOldest :
    (tenant : Text) (j : Job) (js : List Job) (o : Option Job)
    → is_queued_of tenant j ≡ true
    → IsNext tenant js o
    → IsOldest tenant (j ∷ js) (older j o)
older-IsOldest tenant j js none q h = record {
  place = 0;
  there = refl;
  is_queued = q;
  first_created = (λ u. omega arith, All-idle tenant j js h);
}
older-IsOldest tenant j js (some k) q h = elim (Bool-cases (leb j.created_at k.created_at)) [
  | inl e ↦ simp e (record {
    place = 0;
    there = refl;
    is_queued = q;
    first_created = (λ u. omega arith, All-later tenant j k js (ground (arith, e)) h.first_created);
  })
  | inr e ↦ simp e (record {
    place = suc h.place;
    there = h.there;
    is_queued = h.is_queued;
    first_created = (λ u. ground (arith, e), h.first_created);
  })
]

next_job-IsNext : (tenant : Text) (js : List Job) → IsNext tenant js (next_job tenant js)
unfolding next_job
next_job-IsNext tenant [] = tt
next_job-IsNext tenant (j ∷ js) = elim (Bool-cases (is_queued_of tenant j)) [
  | inl e ↦ simp e (older-IsOldest tenant j js (next_job tenant js) e (next_job-IsNext tenant js))
  | inr e ↦ simp e (skip (next_job tenant js) e (next_job-IsNext tenant js))
]
  where
    skip :
        (o : Option Job)
        → is_queued_of tenant j ≡ false
        → IsNext tenant js o
        → IsNext tenant (j ∷ js) o
    skip none e h = (e, h)
    skip (some k) e h = record {
      place = suc h.place;
      there = h.there;
      is_queued = h.is_queued;
      first_created = (λ q. absurd (ground (arith, q, e)), h.first_created);
    }

-- The outcomes of a claim, for the database `db` after the sources that are past their time are
-- expired; the stale claims of the tenant go back to the queue first.
pub data Outcome (now : ℕ) (w : WorkerDevice) (db : Database)
    : Database × Answer Claim → Type 0 where
  drained : w.status ≡ draining → Outcome now w db (db, answered no_job)
  idle :
      is_draining w.status ≡ false
      → IsIdle w.tenant_id (reset_stale now w.tenant_id db).jobs
      → Outcome now w db (reset_stale now w.tenant_id db, answered no_job)
  unsupported :
      (j : Job)
      → is_draining w.status ≡ false
      → IsOldest w.tenant_id (reset_stale now w.tenant_id db).jobs j
      → is_supported w j.workflow ≡ false
      → Outcome now w db (reset_stale now w.tenant_id db, answered no_job)
  claimed :
      (j : Job)
      → is_draining w.status ≡ false
      → IsOldest w.tenant_id (reset_stale now w.tenant_id db).jobs j
      → is_supported w j.workflow ≡ true
      → Outcome now w db (take_job w now j (reset_stale now w.tenant_id db))

take_next-Outcome :
    (now : ℕ) (w : WorkerDevice) (db : Database) (o : Option Job)
    → is_draining w.status ≡ false
    → IsNext w.tenant_id (reset_stale now w.tenant_id db).jobs o
    → Outcome now w db (take_next w now (reset_stale now w.tenant_id db) o)
take_next-Outcome now w db none d h = idle d h
take_next-Outcome now w db (some j) d h = elim (Bool-cases (is_supported w j.workflow)) [
  | inl e ↦ simp e (claimed j d h e)
  | inr e ↦ simp e (unsupported j d h e)
]

draining_status : (s : DeviceStatus) → is_draining s ≡ true → s ≡ draining
draining_status s h = ground arith

-- A claim has four outcomes. A draining worker gets nothing and no claim is reset; otherwise the
-- stale claims are reset, and the worker gets the oldest queued job of its tenant if it supports its
-- workflow, and nothing if it does not or if no job is queued.
pub claim_as-Outcome :
    (undeletable : Text → Bool) (now : ℕ) (w : WorkerDevice) (db : Database)
    → Outcome now w
        (expire_staged_sources now undeletable w.tenant_id db)
        (claim_as undeletable now w db)
unfolding claim_as
claim_as-Outcome undeletable now w db =
    let db1 = expire_staged_sources now undeletable w.tenant_id db in
    elim (Bool-cases (is_draining w.status)) [
      | inl e ↦ simp e (drained (draining_status w.status e))
      | inr e ↦ simp e (
          take_next-Outcome now w db1 _ e
            (next_job-IsNext w.tenant_id (reset_stale now w.tenant_id db1).jobs))
    ]
