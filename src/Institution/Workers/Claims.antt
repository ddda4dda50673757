-- ===== src/Institution/Workers/Claims.antt =====
-- Who holds a worker job, in every status
-- (apps/institution-server/institution_server/workers.py).
use predixa_learn.Prelude.{
  ap, subst, ◌∙◌, ℕ, ◌+◌, ◌≡◌, refl, Bool, true, false, not, ◌&&◌, Option, none, some, List, [],
  ◌∷◌, All, arith, Text, ◌==◌, Bool-cases, ==_refl, inl, inr,
}
use predixa_learn.Institution.Workers.State.{
  JobStatus, queued, is_claimed, is_terminal, Job, Database, Library,
}
use predixa_learn.Institution.Workers.Devices.{release}
use predixa_learn.Institution.Workers.Jobs.{is_stale, reset_if_stale, claim_job, new_job, two_hours}
use predixa_learn.Institution.Workers.Results.{add_upload, finish_job}
use predixa_learn.Institution.Workers.Steps.{Request, step, run}
use predixa_learn.Institution.Workers.Rows.{Grown, All-Grown}
use predixa_learn.Institution.Workers.Laws.{JobLaws}
use predixa_learn.Institution.Workers.Handlers.{step-Grown}

abbrev is_empty {ℓ} : {A : Type ℓ} → Option A → Bool
is_empty none = true
is_empty (some _) = false

abbrev has_lease : Option ℕ → Option ℕ → Bool
has_lease (some claimed_at) (some lease) = lease == claimed_at + two_hours
has_lease _ _ = false

-- A queued job has no holder, times or artifacts published; any other has the worker that claimed it
-- last, and a lease of two hours from the time of the claim.
abbrev form : JobStatus → Option Text → Option ℕ → Option ℕ → Bool
form queued holder claimed_at lease = is_empty holder && is_empty claimed_at && is_empty lease
form _ holder claimed_at lease = not (is_empty holder) && has_lease claimed_at lease

abbrev pub is_well_formed : Job → Bool
is_well_formed j = form j.status j.worker_id j.claimed_at j.lease_expires_at

abbrev pub IsWellFormed : Job → Type 0
IsWellFormed j = is_well_formed j ≡ true

-- A status that is neither queued has the same demands.
finished_form :
    (holder : Option Text) (claimed_at lease : Option ℕ) (before after : JobStatus)
    → is_terminal after ≡ true
    → is_claimed before ≡ true
    → form before holder claimed_at lease ≡ true
    → form after holder claimed_at lease ≡ true
finished_form holder claimed_at lease before after t c h = ground arith

KeepsForm : Job → Job → Type 0
KeepsForm j k = IsWellFormed j → IsWellFormed k

form_laws : (now : ℕ) → JobLaws KeepsForm KeepsForm IsWellFormed now
unfolding KeepsForm release add_upload finish_job reset_if_stale claim_job new_job
form_laws now = record {
  unchanged = λ j h. h;
  added = λ id tenant body. refl;
  released = λ j c h. refl;
  uploaded = λ d j c h. h;
  finished = λ body status j t c h.
      finished_form j.worker_id j.claimed_at j.lease_expires_at j.status status t c h;
  within = λ j k h. h;
  kept = λ j h. h;
  chained = λ j k l first second h. second (first h);
  reset = λ j c. elim (Bool-cases (is_stale now j.lease_expires_at)) [
    | inl e ↦ simp e (λ h. refl)
    | inr e ↦ simp e (λ h. h)
  ];
  taken = λ w j q h. simp (==_refl (now + two_hours));
}

step-IsWellFormed :
    (lib : Library) (now : ℕ) (r : Request) (db : Database)
    → All IsWellFormed db.jobs
    → All IsWellFormed (step lib now r db).jobs
unfolding KeepsForm
step-IsWellFormed lib now r db h =
    All-Grown IsWellFormed IsWellFormed db.jobs (step lib now r db).jobs (λ j f. f)
      (step-Grown KeepsForm KeepsForm IsWellFormed now (form_laws now) lib r db) h

-- A job that is finished after a request has the holder, time of claim and lease that it had before.
abbrev pub KeepsHolder : Job → Job → Type 0
KeepsHolder j k =
    is_terminal k.status ≡ true
    → (k.worker_id ≡ j.worker_id)
      × (k.claimed_at ≡ j.claimed_at)
      × (k.lease_expires_at ≡ j.lease_expires_at)

abbrev KeepsFinished : Job → Job → Type 0
KeepsFinished j k = is_terminal k.status ≡ true → k ≡ j

abbrev pub IsUnfinished : Job → Type 0
IsUnfinished j = is_terminal j.status ≡ false

holder_laws : (now : ℕ) → JobLaws KeepsHolder KeepsFinished IsUnfinished now
unfolding release add_upload finish_job reset_if_stale claim_job new_job
holder_laws now = record {
  unchanged = λ j h. (refl, refl, refl);
  added = λ id tenant body. refl;
  released = λ j c h. absurd (ground arith);
  uploaded = λ d j c h. (refl, refl, refl);
  finished = λ body status j t c h. (refl, refl, refl);
  within = λ j k same h. (
    ap (λ (x : Job). x.worker_id) (same h),
    ap (λ (x : Job). x.claimed_at) (same h),
    ap (λ (x : Job). x.lease_expires_at) (same h),
  );
  kept = λ j h. refl;
  chained = λ j k l first second h.
      second h ∙ first (subst (λ (x : Job). is_terminal x.status ≡ true) (second h) h);
  reset = λ j c. elim (Bool-cases (is_stale now j.lease_expires_at)) [
    | inl e ↦ simp e (λ h. absurd (ground arith))
    | inr e ↦ simp e (λ h. refl)
  ];
  taken = λ w j q h. absurd (ground arith);
}

-- After any sequence of requests to the handlers of workers.py, if it was so before: a queued job has no
-- holder and no lease, and a job that is claimed, completed, failed or cancelled has a holder and a
-- lease of exactly two hours from its time of claim; and a request that comes then leaves each job that
-- it finishes, or that was finished, the holder, the time of claim and the lease that it had.
pub run-IsWellFormed :
    (lib : Library) (rs : List (ℕ × Request)) (db : Database)
    → All IsWellFormed db.jobs
    → All IsWellFormed (run lib rs db).jobs
      × ((now : ℕ) (r : Request)
          → Grown KeepsHolder IsUnfinished
              (run lib rs db).jobs
              (step lib now r (run lib rs db)).jobs)
unfolding run
run-IsWellFormed lib [] db h =
    (h, λ now r. step-Grown KeepsHolder KeepsFinished IsUnfinished now (holder_laws now) lib r db)
run-IsWellFormed lib ((now, r) ∷ rs) db h =
    run-IsWellFormed lib rs (step lib now r db) (step-IsWellFormed lib now r db h)
