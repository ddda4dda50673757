-- ===== src/Studio/Queue/Inflight.antt =====
-- The bound on the jobs in flight, and how the status of the running job follows the worker
-- (apps/ocr-studio/app/core/queue.py).
use predixa_learn.Prelude.{
  ℕ, ◌≤◌, ◌≡◌, ap, subst, Bool, true, false, not, ◌&&◌, Option, none, some, List, ◌==◌, arith,
  ==_iff, Bool-cases, ◌⊎◌, inl, inr, count, count_mono,
}
use predixa_learn.Studio.Queue.State.{
  JobStatus, pending, processing, completed, failed, cancelled, is_terminal, is_active, Phase,
  checked, entered, working, published, completed_marked, completed_shown, failed_marked,
  failed_shown, ending, JobQueue, Settings, status_of, max_inflight,
}
use predixa_learn.Studio.Queue.Quiet.{IsQuiet}

-- Whether the worker thread holds the job.
abbrev pub holds : Option (ℕ × Phase) → ℕ → Bool
holds none j = false
holds (some (id, phase)) j = id == j

-- The active jobs that the worker does not hold.
abbrev pub is_waiting : JobQueue → ℕ → Bool
is_waiting q j = is_active (status_of q j) && not (holds q.worker j)

-- The status that the held job has at each place of `_execute`. At `checked` any status is
-- possible: another thread may have cancelled the job after its event was read.
abbrev pub Fits : Phase → JobStatus → Type 0
Fits checked s = Unit
Fits entered s = s ≡ processing
Fits working s = s ≡ processing
Fits (published _ _) s = s ≡ processing
Fits (completed_marked _ _) s = s ≡ completed
Fits (completed_shown _) s = s ≡ completed
Fits (failed_marked _) s = s ≡ failed
Fits failed_shown s = s ≡ failed
Fits ending s = is_terminal s ≡ true

abbrev pub WorkerFits : Option (ℕ × Phase) → JobQueue → Type 0
WorkerFits none q = Unit
WorkerFits (some (id, phase)) q = Fits phase (status_of q id)

pub record IsBounded (q : JobQueue) : Type 0 where
  pub distinct : (k : ℕ) → count (λ j. k == j) q.jobs ≤ 1
  pub waiting : count (is_waiting q) q.jobs ≤ max_inflight q
  pub follows : WorkerFits q.worker q

-- A cancellation of a pending job does not disturb the worker.
Fits-cancelled :
    (phase : Phase) (s s' : JobStatus)
    → (s' ≡ s) ⊎ ((s ≡ pending) × (s' ≡ cancelled))
    → Fits phase s
    → Fits phase s'
Fits-cancelled checked s s' h f = tt
Fits-cancelled entered s s' h f = ground arith
Fits-cancelled working s s' h f = ground arith
Fits-cancelled (published _ _) s s' h f = ground arith
Fits-cancelled (completed_marked _ _) s s' h f = ground arith
Fits-cancelled (completed_shown _) s s' h f = ground arith
Fits-cancelled (failed_marked _) s s' h f = ground arith
Fits-cancelled failed_shown s s' h f = ground arith
Fits-cancelled ending s s' h f = ground arith

WorkerFits-quiet :
    (w : Option (ℕ × Phase)) (q q' : JobQueue) → IsQuiet q q' → WorkerFits w q → WorkerFits w q'
WorkerFits-quiet none q q' h f = tt
WorkerFits-quiet (some (id, phase)) q q' h f = Fits-cancelled phase _ _ (h.statuses id) f

is_waiting-quiet :
    (q q' : JobQueue) → IsQuiet q q' → (j : ℕ) → is_waiting q' j ≡ true → is_waiting q j ≡ true
is_waiting-quiet q q' h j e =
    let e' : (is_active (status_of q' j) && not (holds q.worker j)) ≡ true = rw (← h.worker) e in
    ground (arith, h.statuses j)

-- What callers run keeps the bound.
pub quiet-IsBounded : (q q' : JobQueue) → IsQuiet q q' → IsBounded q → IsBounded q'
quiet-IsBounded q q' h b = record {
  distinct = λ k. omega (arith, h.fewer (λ j. k == j), b.distinct k);
  waiting = omega (
    arith,
    h.fewer (is_waiting q'),
    count_mono (is_waiting q') (is_waiting q) q.jobs (is_waiting-quiet q q' h),
    b.waiting,
    ap (λ (s : Settings). s.max_queued_jobs) h.settings,
  );
  follows = simp h.worker (WorkerFits-quiet q.worker q q' h b.follows);
}

-- A section of the worker on the job that it holds.
pub record IsOwn (id : ℕ) (q q' : JobQueue) : Type 0 where
  pub jobs : q'.jobs ≡ q.jobs
  pub settings : q'.settings ≡ q.settings
  pub others : (j : ℕ) → (id == j) ≡ false → status_of q' j ≡ status_of q j

-- The keys stay distinct, and the worker goes on with the same job.
pub own-IsBounded :
    (id : ℕ) (phase phase' : Phase) (q q' : JobQueue)
    → q.worker ≡ some (id, phase)
    → q'.worker ≡ some (id, phase')
    → IsOwn id q q'
    → Fits phase' (status_of q' id)
    → IsBounded q
    → IsBounded q'
own-IsBounded id phase phase' q q' before after own fits b = record {
  distinct = λ k. simp own.jobs (b.distinct k);
  waiting =
      simp (own.jobs, own.settings)
        (omega (arith, count_mono (is_waiting q') (is_waiting q) q.jobs fewer, b.waiting));
  follows = simp after fits;
}
  where
    fewer : (j : ℕ) → is_waiting q' j ≡ true → is_waiting q j ≡ true
    fewer j e =
        let e' : (is_active (status_of q' j) && not (id == j)) ≡ true =
          subst (λ w. (is_active (status_of q' j) && not (holds w j)) ≡ true) after e in
        simp before (ground (arith, own.others j))

-- The thread is free, and no job becomes active.
pub idle-IsBounded :
    (q q' : JobQueue)
    → q.worker ≡ none
    → q'.worker ≡ none
    → q'.jobs ≡ q.jobs
    → q'.settings ≡ q.settings
    → ((j : ℕ) → is_active (status_of q' j) ≡ true → is_active (status_of q j) ≡ true)
    → IsBounded q
    → IsBounded q'
idle-IsBounded q q' before after jobs settings fewer b = record {
  distinct = λ k. simp jobs (b.distinct k);
  waiting =
      simp (jobs, settings)
        (omega (arith, count_mono (is_waiting q') (is_waiting q) q.jobs waits, b.waiting));
  follows = simp after tt;
}
  where
    waits : (j : ℕ) → is_waiting q' j ≡ true → is_waiting q j ≡ true
    waits j e = simp before (ground (arith, fewer j))

-- The free thread takes a job.
pub take-IsBounded :
    (id : ℕ) (q : JobQueue) (pool : List ℕ)
    → q.worker ≡ none
    → IsBounded q
    → IsBounded (record q { pool = pool; worker = some (id, checked) })
take-IsBounded id q pool before b = record {
  distinct = b.distinct;
  waiting = omega (
    arith,
    count_mono (is_waiting (record q { pool = pool; worker = some (id, checked) })) (is_waiting q)
        q.jobs waits,
    b.waiting,
  );
  follows = tt;
}
  where
    waits :
        (j : ℕ)
        → is_waiting (record q { pool = pool; worker = some (id, checked) }) j ≡ true
        → is_waiting q j ≡ true
    waits j e = simp before (ground arith)

finished_waits :
    (id j : ℕ) (status : ℕ → JobStatus)
    → is_terminal (status id) ≡ true
    → (is_active (status j) && true) ≡ true
    → (is_active (status j) && not (id == j)) ≡ true
finished_waits id j status finished e = elim (Bool-cases (id == j)) [
  | inl same ↦
      let at_j : is_terminal (status j) ≡ true =
        subst (λ k. is_terminal (status k) ≡ true) ((==_iff id j).0 same) finished in
      ground arith
  | inr other ↦ rw other e
]

-- The thread lets go of a job that has finished.
pub free-IsBounded :
    (id : ℕ) (phase : Phase) (q : JobQueue)
    → q.worker ≡ some (id, phase)
    → is_terminal (status_of q id) ≡ true
    → IsBounded q
    → IsBounded (record q { worker = none })
free-IsBounded id phase q before finished b = record {
  distinct = b.distinct;
  waiting = omega (
    arith,
    count_mono (is_waiting (record q { worker = none })) (is_waiting q) q.jobs waits,
    b.waiting,
  );
  follows = tt;
}
  where
    waits : (j : ℕ) → is_waiting (record q { worker = none }) j ≡ true → is_waiting q j ≡ true
    waits j e = simp before (finished_waits id j (status_of q) finished e)
