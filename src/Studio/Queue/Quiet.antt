-- ===== src/Studio/Queue/Quiet.antt =====
-- The sections that callers run on the queue start no job (apps/ocr-studio/app/core/queue.py:
-- `_prune`, `cancel`, `get_result`, `shutdown` and what they call).
use predixa_learn.Prelude.{
  ℕ, zero, suc, ◌≤◌, ◌≡◌, refl, ap, ◌∙◌, Bool, true, false, not, ◌&&◌, List, [], ◌∷◌, ◌++◌, arith,
  ==_iff, ==_refl, Bool-cases, Option-cases, ◌⊎◌, inl, inr, count, keep, first, without, contains,
  length, count-keep, count-without,
}
use predixa_learn.Studio.Queue.State.{
  pending, cancelled, is_terminal, is_active, is_pending, JobEntry, JobQueue, status_of, put,
}
use predixa_learn.Studio.Queue.Ops.{prune, trim, is_expired}
use predixa_learn.Studio.Queue.Calls.{
  attach, run_in_executor, finish_cancelled, cancel_active, cancel, get_result, stop_job, stop_jobs,
  shutdown, close_pool, request_cancel, stop_future, can_stop,
}
use predixa_learn.Studio.Queue.Effects.{
  frame, Frame, frame-put, frame-finish_cancelled, status-put, status-set_progress,
  status-finish_cancelled, status_self,
}

-- Keys may go, the worker and the settings stay, and at most pending jobs are cancelled.
pub record IsQuiet (q q' : JobQueue) : Type 0 where
  pub worker : q'.worker ≡ q.worker
  pub settings : q'.settings ≡ q.settings
  pub fewer : (p : ℕ → Bool) → count p q'.jobs ≤ count p q.jobs
  pub statuses :
      (j : ℕ)
      → (status_of q' j ≡ status_of q j)
        ⊎ ((status_of q j ≡ pending) × (status_of q' j ≡ cancelled))

pub IsQuiet-refl : (q : JobQueue) → IsQuiet q q
IsQuiet-refl q = record {
  worker = refl;
  settings = refl;
  fewer = λ p. omega arith;
  statuses = λ j. inl refl;
}

pub IsQuiet-trans : (a b c : JobQueue) → IsQuiet a b → IsQuiet b c → IsQuiet a c
IsQuiet-trans a b c h k = record {
  worker = k.worker ∙ h.worker;
  settings = k.settings ∙ h.settings;
  fewer = λ p. omega (arith, h.fewer p, k.fewer p);
  statuses = λ j. ground (arith, h.statuses j, k.statuses j);
}

-- A write to objects that keeps the frame is quiet if its statuses are.
pub IsQuiet-of_frame :
    (q q' : JobQueue)
    → frame q' ≡ frame q
    → ((j : ℕ)
        → (status_of q' j ≡ status_of q j)
          ⊎ ((status_of q j ≡ pending) × (status_of q' j ≡ cancelled)))
    → IsQuiet q q'
unfolding frame
IsQuiet-of_frame q q' f s = record {
  worker = ap (λ (x : Frame). x.worker) f;
  settings = ap (λ (x : Frame). x.settings) f;
  fewer = λ p. let e : q'.jobs ≡ q.jobs = ap (λ (x : Frame). x.jobs) f in rw e (omega arith);
  statuses = s;
}

count-trim :
    (removable p : ℕ → Bool) (limit fuel : ℕ) (jobs : List ℕ)
    → count p (trim removable limit fuel jobs) ≤ count p jobs
unfolding trim
count-trim removable p limit zero jobs = omega arith
count-trim removable p limit (suc fuel) jobs = elim (Option-cases (first removable jobs)) [
  | inl e ↦ rw e (ground arith)
  | inr (id, e) ↦
      rw e (
        ground
          (arith, count-trim removable p limit fuel (without id jobs), count-without p id jobs))
]

pub prune-IsQuiet : (now : ℕ) (q : JobQueue) → IsQuiet q (prune now q)
unfolding prune
prune-IsQuiet now q = record {
  worker = refl;
  settings = refl;
  fewer = λ p. omega (
    arith,
    count-trim (λ id. is_terminal (status_of q id)) p q.settings.max_job_history
        (length (keep (λ id. not (is_expired q now id)) q.jobs))
        (keep (λ id. not (is_expired q now id)) q.jobs),
    count-keep p (λ id. not (is_expired q now id)) q.jobs,
  );
  statuses = λ j. inl refl;
}

-- Both `cancel` and `shutdown` finish an entry after they stopped its future.
stopped-IsQuiet :
    (id now : ℕ) (saved : Bool) (e : JobEntry) (q : JobQueue)
    → e.result.status ≡ status_of q id
    → is_pending e.result.status ≡ true
    → IsQuiet q (finish_cancelled id now saved (put q id e))
stopped-IsQuiet id now saved e q same is =
    IsQuiet-of_frame q _ (frame-finish_cancelled id now saved (put q id e) ∙ frame-put id e q) λ j.
      ground (
        arith,
        status-finish_cancelled id now saved (put q id e) j,
        status-put id e q j,
        status-put id e q id,
        ==_iff id j,
        ==_refl id,
      )

-- A write to one object that keeps its status is quiet.
pub put-IsQuiet :
    (id : ℕ) (e : JobEntry) (q : JobQueue)
    → e.result.status ≡ status_of q id
    → IsQuiet q (put q id e)
put-IsQuiet id e q same =
    IsQuiet-of_frame q _ (frame-put id e q)
      λ j. inl (status-put id e q j ∙ rw same (status_self id q j))

left_true : (a b : Bool) → (a && b) ≡ true → a ≡ true
left_true true b h = refl
left_true false b h = h

cancel_active-IsQuiet :
    (id now : ℕ) (saved : Bool) (q : JobQueue) → IsQuiet q (cancel_active id now saved q)
unfolding cancel_active request_cancel stop_future
cancel_active-IsQuiet id now saved q =
    let ready = is_pending (status_of q id) && can_stop (q.entry id).future in
    elim (Bool-cases ready) [
      | inl e ↦ rw e (stopped-IsQuiet id now saved _ q refl (left_true _ _ e))
      | inr e ↦ rw e (put-IsQuiet id _ q (status-set_progress _ now _))
    ]

stop_job-IsQuiet : (id now : ℕ) (saved : Bool) (q : JobQueue) → IsQuiet q (stop_job id now saved q)
unfolding stop_job request_cancel stop_future
stop_job-IsQuiet id now saved q =
    let ready = is_pending (status_of q id) && can_stop (q.entry id).future in
    elim (Bool-cases (is_active (status_of q id))) [
      | inl a ↦ elim (Bool-cases ready) [
        | inl e ↦ rw (a, e) (stopped-IsQuiet id now saved _ q refl (left_true _ _ e))
        | inr e ↦ rw (a, e) (put-IsQuiet id _ q refl)
      ]
      | inr a ↦ rw a (IsQuiet-refl q)
    ]

stop_jobs-IsQuiet :
    (now : ℕ) (saves : ℕ → Bool) (ids : List ℕ) (q : JobQueue)
    → IsQuiet q (stop_jobs now saves ids q)
unfolding stop_jobs
stop_jobs-IsQuiet now saves [] q = IsQuiet-refl q
stop_jobs-IsQuiet now saves (id ∷ ids) q =
    IsQuiet-trans q _ _ (stop_job-IsQuiet id now (saves id) q)
      (stop_jobs-IsQuiet now saves ids (stop_job id now (saves id) q))

-- Marking the queue as closed, or changing the pool, touches no job.
same-IsQuiet :
    (q q' : JobQueue)
    → q'.worker ≡ q.worker
    → q'.settings ≡ q.settings
    → q'.jobs ≡ q.jobs
    → q'.entry ≡ q.entry
    → IsQuiet q q'
same-IsQuiet q q' w s j e = record {
  worker = w;
  settings = s;
  fewer = λ p. rw j (omega arith);
  statuses = λ i. inl (ap (λ (f : ℕ → JobEntry). (f i).result.status) e);
}

pub shutdown-IsQuiet :
    (now : ℕ) (saves : ℕ → Bool) (q : JobQueue) → IsQuiet q (shutdown now saves q)
unfolding shutdown
shutdown-IsQuiet now saves q = elim (Bool-cases q.closed) [
  | inl e ↦ simp e (IsQuiet-refl q)
  | inr e ↦
      let q' = record q { closed = true } in
      simp e (
        IsQuiet-trans q q' _ (same-IsQuiet q q' refl refl refl refl)
          (stop_jobs-IsQuiet now saves q.jobs q'))
]

pub cancel-IsQuiet :
    (id now : ℕ) (saved : Bool) (q : JobQueue) → IsQuiet q (cancel id now saved q).0
unfolding cancel
cancel-IsQuiet id now saved q = elim (Bool-cases (contains id (prune now q).jobs)) [
  | inl known ↦ rw known (elim (Bool-cases (is_terminal (status_of (prune now q) id))) [
    | inl e ↦ rw e (prune-IsQuiet now q)
    | inr e ↦ rw e (
        IsQuiet-trans q (prune now q) _ (prune-IsQuiet now q)
          (cancel_active-IsQuiet id now saved (prune now q)))
  ])
  | inr e ↦ rw e (prune-IsQuiet now q)
]

pub get_result-IsQuiet : (id now : ℕ) (q : JobQueue) → IsQuiet q (get_result id now q).0
unfolding get_result
get_result-IsQuiet id now q = prune-IsQuiet now q

pub close_pool-IsQuiet : (q : JobQueue) → IsQuiet q (close_pool q)
unfolding close_pool
close_pool-IsQuiet q = same-IsQuiet q _ refl refl refl refl

pub pool-IsQuiet : (ids : List ℕ) (q : JobQueue) → IsQuiet q (record q { pool = ids })
pool-IsQuiet ids q = same-IsQuiet q _ refl refl refl refl

run_in_executor-IsQuiet : (id : ℕ) (q : JobQueue) → IsQuiet q (run_in_executor id q)
unfolding run_in_executor
run_in_executor-IsQuiet id q =
    let q' = record q { pool = q.pool ++ id ∷ [] } in
    IsQuiet-trans q q' _ (pool-IsQuiet _ q) (put-IsQuiet id _ q' refl)

pub attach-IsQuiet : (id : ℕ) (q : JobQueue) → IsQuiet q (attach id q)
unfolding attach
attach-IsQuiet id q = elim (Bool-cases q.pool_closed) [
  | inl e ↦ simp e (IsQuiet-refl q)
  | inr e ↦ simp e (run_in_executor-IsQuiet id q)
]
