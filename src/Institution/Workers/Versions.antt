-- ===== src/Institution/Workers/Versions.antt =====
-- Versions and statuses of worker jobs
-- (apps/institution-server/institution_server/workers.py).
use predixa_learn.Prelude.{
  ℕ, ◌<◌, ◌≡◌, ◌⊎◌, refl, sym, subst, ap, ◌∙◌, Bool, true, false, not, ◌&&◌, arith, Bool-cases, inl,
  inr,
}
use predixa_learn.Institution.Workers.State.{
  JobStatus, queued, is_claimed, is_queued, is_terminal, Job, Database, Library,
}
use predixa_learn.Institution.Workers.Devices.{release}
use predixa_learn.Institution.Workers.Jobs.{is_stale, reset_if_stale, claim_job, new_job}
use predixa_learn.Institution.Workers.Results.{add_upload, finish_job}
use predixa_learn.Institution.Workers.Steps.{Request, step}
use predixa_learn.Institution.Workers.Rows.{Grown}
use predixa_learn.Institution.Workers.Laws.{JobLaws}
use predixa_learn.Institution.Workers.Handlers.{step-Grown}

-- The row is as it was, or it was not finished, is still the same request, and has a later version.
abbrev pub IsSuccessor : Job → Job → Type 0
IsSuccessor j k =
    (k ≡ j)
    ⊎ ((is_terminal j.status ≡ false)
        × (j.version < k.version)
        × (k.resource_id ≡ j.resource_id)
        × (k.tenant_id ≡ j.tenant_id)
        × (k.workflow ≡ j.workflow)
        × (k.source ≡ j.source)
        × (k.allowed_outputs ≡ j.allowed_outputs))

-- A row as `create_worker_job` adds it.
abbrev pub IsNew : Job → Type 0
IsNew j = (j.status ≡ queued) × (j.version ≡ 1)

not_finished_claimed : (s : JobStatus) → is_claimed s ≡ true → is_terminal s ≡ false
not_finished_claimed s h = ground arith

not_finished_queued : (s : JobStatus) → is_queued s ≡ true → is_terminal s ≡ false
not_finished_queued s h = ground arith

IsSuccessor-trans : (j k l : Job) → IsSuccessor j k → IsSuccessor k l → IsSuccessor j l
IsSuccessor-trans j k l (inl e) h = subst (λ (x : Job). IsSuccessor x l) e h
IsSuccessor-trans j k l (inr h) (inl e) = subst (λ (x : Job). IsSuccessor j x) (sym e) (inr h)
IsSuccessor-trans j k l (inr (f, v, a, b, c, d, e)) (inr (f', v', a', b', c', d', e')) =
    inr (f, omega arith, a' ∙ a, b' ∙ b, c' ∙ c, d' ∙ d, e' ∙ e)

version_laws : (now : ℕ) → JobLaws IsSuccessor IsSuccessor IsNew now
unfolding release add_upload finish_job reset_if_stale claim_job new_job
version_laws now = record {
  unchanged = λ j. inl refl;
  added = λ id tenant body. (refl, refl);
  released =
      λ j h. inr (not_finished_claimed j.status h, omega arith, refl, refl, refl, refl, refl);
  uploaded =
      λ d j h. inr (not_finished_claimed j.status h, omega arith, refl, refl, refl, refl, refl);
  finished = λ body status j t h.
      inr (not_finished_claimed j.status h, omega arith, refl, refl, refl, refl, refl);
  within = λ j k h. h;
  kept = λ j. inl refl;
  chained = IsSuccessor-trans;
  reset = λ j h. elim (Bool-cases (is_stale now j.lease_expires_at)) [
    | inl e ↦
        simp e (inr (not_finished_claimed j.status h, omega arith, refl, refl, refl, refl, refl))
    | inr e ↦ simp e (inl refl)
  ];
  taken = λ w j h. inr (not_finished_queued j.status h, omega arith, refl, refl, refl, refl, refl);
}

-- Whatever request comes to the handlers of workers.py, no job is dropped or reordered; each row is
-- exactly as it was, or was not finished, has a later version and keeps its identifiers, workflow, source
-- and allowed outputs; and an added row is queued with version 1. So these handlers never change a
-- finished job again.
pub jobs-IsSuccessor :
    (lib : Library) (now : ℕ) (r : Request) (db : Database)
    → Grown IsSuccessor IsNew db.jobs (step lib now r db).jobs
jobs-IsSuccessor lib now r db =
    step-Grown IsSuccessor IsSuccessor IsNew now (version_laws now) lib r db

-- A claim that has not run out yet.
abbrev pub is_live : ℕ → Job → Bool
is_live now j = is_claimed j.status && not (is_stale now j.lease_expires_at)

abbrev pub KeepsLease : ℕ → Job → Job → Type 0
KeepsLease now j k =
    is_live now j ≡ true
    → is_claimed k.status ≡ true
    → (k.worker_id ≡ j.worker_id)
      × (k.claimed_at ≡ j.claimed_at)
      × (k.lease_expires_at ≡ j.lease_expires_at)

abbrev KeepsLive : ℕ → Job → Job → Type 0
KeepsLive now j k = is_live now j ≡ true → k ≡ j

not_stale : (a b : Bool) → (a && not b) ≡ true → b ≡ false
not_stale a b h = ground arith

lease_laws : (now : ℕ) → JobLaws (KeepsLease now) (KeepsLive now) IsNew now
unfolding release add_upload finish_job reset_if_stale claim_job new_job
lease_laws now = record {
  added = λ id tenant body. (refl, refl);
  unchanged = λ j live h. (refl, refl, refl);
  released = λ j c live h. absurd (ground arith);
  uploaded = λ d j c live h. (refl, refl, refl);
  finished = λ body status j t c live h. (refl, refl, refl);
  within = λ j k same live h. (
    ap (λ (x : Job). x.worker_id) (same live),
    ap (λ (x : Job). x.claimed_at) (same live),
    ap (λ (x : Job). x.lease_expires_at) (same live),
  );
  kept = λ j live. refl;
  chained = λ j k l first second live.
      second (subst (λ (x : Job). is_live now x ≡ true) (sym (first live)) live) ∙ first live;
  reset = λ j c live. simp (not_stale (is_claimed j.status) (is_stale now j.lease_expires_at) live);
  taken = λ w j q live. absurd (ground arith);
}

-- Among the handlers of workers.py a lease is exclusive: whatever request comes to one of them at a time
-- before a claim's lease runs out, if the job is still claimed afterwards then by the same worker under
-- the same lease, and a job that the request adds is queued with version 1.
pub jobs-KeepsLease :
    (lib : Library) (now : ℕ) (r : Request) (db : Database)
    → Grown (KeepsLease now) IsNew db.jobs (step lib now r db).jobs
jobs-KeepsLease lib now r db =
    step-Grown (KeepsLease now) (KeepsLive now) IsNew now (lease_laws now) lib r db
