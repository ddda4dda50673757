-- ===== src/Institution/Workers/Revocation.antt =====
-- Revoking a worker (apps/institution-server/institution_server/workers.py, `update_worker_state`).
use predixa_learn.Prelude.{
  not_both, if◌then◌else◌, false, none, ◌+◌, first_holds, ℕ, ◌≡◌, refl, sym, ap, subst, ◌∙◌, Bool,
  true, false, not, ◌&&◌, ◌||◌, some, List, [], ◌∷◌, arith, Text, ==_refl, first, same, same_refl,
  eq_of_same,
}
use predixa_learn.Institution.Workers.State.{
  queued, DeviceStatus, revoked, is_revoked, same_device_status, Job, Database, WorkerDevice,
  Answer, refused, answered, update,
}
use predixa_learn.Institution.Workers.Devices.{
  Claims, valid, find_worker, is_worker, admit_worker, current_worker, release, holds, release_jobs,
  with_status, change_status, update_found, update_worker_state,
}
use predixa_learn.Institution.Workers.Rows.{first-update}

-- A job before and after the revocation of the worker: where the worker held it, it is queued under the
-- next version without holder, time of claim and lease; any other job is as it was.
pub record IsFreed (w : WorkerDevice) (j k : Job) : Type 0 where
  pub held :
      (same j.tenant_id w.tenant_id && holds w j) ≡ true
      → (k.status ≡ queued)
        × (k.worker_id ≡ none)
        × (k.claimed_at ≡ none)
        × (k.lease_expires_at ≡ none)
        × (k.version ≡ j.version + 1)
  pub not_held : (same j.tenant_id w.tenant_id && holds w j) ≡ false → k ≡ j
  pub same_id : k.resource_id ≡ j.resource_id

-- The rows of two tables, one by one
abbrev pub AreFreed : WorkerDevice → List Job → List Job → Type 0
AreFreed w [] [] = Unit
AreFreed w (j ∷ js) (k ∷ ks) = IsFreed w j k × AreFreed w js ks
AreFreed w _ _ = ⊥

release_jobs-AreFreed :
    (w : WorkerDevice) (db : Database) → AreFreed w db.jobs (release_jobs w db).jobs
unfolding release_jobs release update
release_jobs-AreFreed w db = rows db.jobs
  where
    row :
        (j : Job) (b : Bool)
        → (same j.tenant_id w.tenant_id && holds w j) ≡ b
        → IsFreed w j (if b then release j else j)
    row j true e = record {
      held = λ h. (refl, refl, refl, refl, refl);
      not_held = λ h. absurd (not_both e h);
      same_id = refl;
    }
    row j false e = record {
      held = λ h. absurd (not_both h e);
      not_held = λ h. refl;
      same_id = refl;
    }

    rows :
        (js : List Job)
        → AreFreed w js (update (λ j. same j.tenant_id w.tenant_id && holds w j) release js)
    rows [] = tt
    rows (j ∷ js) = (row j (same j.tenant_id w.tenant_id && holds w j) refl, rows js)

revoked_row :
    (w : WorkerDevice) (id : Text) (status : DeviceStatus) (db : Database)
    → find_worker id db ≡ some w
    → first (λ x. same x.worker_id id) (update (is_worker w) (with_status status) db.workers)
      ≡ some (with_status status w)
unfolding find_worker with_status
revoked_row w id status db found =
    first-update (λ x. same x.worker_id id) (is_worker w) (with_status status)
      (λ x. same x.tenant_id w.tenant_id) db.workers w (λ x. refl)
      (λ x. ap (λ t. same x.worker_id t && same x.tenant_id w.tenant_id) named)
      (same_refl w.tenant_id) found
  where
    named : w.worker_id ≡ id
    named = eq_of_same w.worker_id id (first_holds (λ x. same x.worker_id id) db.workers w found)

not_same_status : (s : DeviceStatus) → is_revoked s ≡ false → same_device_status s revoked ≡ false
not_same_status s h = ground arith

revoke_result :
    (tenant id : Text) (db : Database) (w : WorkerDevice)
    → find_worker id db ≡ some w
    → w.tenant_id ≡ tenant
    → is_revoked w.status ≡ false
    → update_worker_state tenant id (some w.version) revoked db
      ≡ (change_status w revoked db, answered (with_status revoked w))
unfolding update_worker_state
revoke_result tenant id db w found t r =
    let here : same w.tenant_id tenant ≡ true =
      subst (λ x. same w.tenant_id x ≡ true) t (same_refl w.tenant_id) in
    ap (update_found tenant (some w.version) revoked db) found
    ∙ simp (here, ==_refl w.version, r, not_same_status w.status r)

revoked_found :
    (w : WorkerDevice) (id : Text) (db : Database)
    → find_worker id db ≡ some w
    → find_worker id (change_status w revoked db) ≡ some (with_status revoked w)
unfolding find_worker change_status release_jobs
revoked_found w id db found = revoked_row w id revoked db found

shut_out :
    (w : WorkerDevice) (id : Text) (db : Database)
    → find_worker id db ≡ some w
    → (now : ℕ) (c : Claims) → c.sub ≡ id
    → current_worker (valid c) now (change_status w revoked db)
      ≡ (change_status w revoked db, refused 403 "worker_revoked")
unfolding current_worker with_status
shut_out w id db found now c e =
    let db' = change_status w revoked db in
    ap (λ t. admit_worker c now db' (find_worker t db')) e
    ∙ ap (admit_worker c now db') (revoked_found w id db found)
    ∙ simp (unavailable (same w.tenant_id c.tenant_id))
  where
    unavailable : (b : Bool) → (not b || true || true) ≡ true
    unavailable b = ground arith

-- With a current tag, revoking a worker that is not revoked yet succeeds: each job of the tenant that it
-- held is queued under the next version, without holder, time of claim and lease, and every other job is
-- as it was; and right afterwards, at any time, its credential is refused without any change.
pub revoke_lem :
    (tenant id : Text) (db : Database) (w : WorkerDevice)
    → find_worker id db ≡ some w
    → w.tenant_id ≡ tenant
    → is_revoked w.status ≡ false
    → let result = update_worker_state tenant id (some w.version) revoked db in
      (result.1 ≡ answered (with_status revoked w))
      × AreFreed w db.jobs result.0.jobs
      × ((now : ℕ) (c : Claims)
          → c.sub ≡ id
          → current_worker (valid c) now result.0 ≡ (result.0, refused 403 "worker_revoked"))
revoke_lem tenant id db w found t r =
    subst
      (λ (result : Database × Answer WorkerDevice).
        (result.1 ≡ answered (with_status revoked w))
        × AreFreed w db.jobs result.0.jobs
        × ((now : ℕ) (c : Claims)
            → c.sub ≡ id
            → current_worker (valid c) now result.0 ≡ (result.0, refused 403 "worker_revoked")))
      (sym (revoke_result tenant id db w found t r))
      (refl, unfold change_status in release_jobs-AreFreed w _, shut_out w id db found)
