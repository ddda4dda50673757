-- ===== src/Studio/Queue/Bound.antt =====
-- Every run of the queue keeps the number of jobs in flight bounded
-- (apps/ocr-studio/app/core/queue.py: `submit`, `_execute` and `cancel` together).
use predixa_learn.Prelude.{
  ℕ, ◌+◌, ◌≤◌, ◌≡◌, refl, ap, false, Option, none, some, List, [], ◌∷◌, ◌==◌, arith, count,
  count_split,
}
use predixa_learn.Studio.Queue.State.{
  is_active, JobEntry, Phase, JobQueue, Settings, status_of, max_inflight,
}
use predixa_learn.Studio.Queue.Ops.{active_count}
use predixa_learn.Studio.Queue.Worker.{
  Event, submitted, attached, begun, worked, cancel_requested, was_read, future_dropped, shut_down,
  pool_closed, begin_if_free, advance_if_busy, step, run,
}
use predixa_learn.Studio.Queue.Quiet.{
  cancel-IsQuiet, get_result-IsQuiet, shutdown-IsQuiet, close_pool-IsQuiet, attach-IsQuiet,
  pool-IsQuiet,
}
use predixa_learn.Studio.Queue.Inflight.{holds, is_waiting, WorkerFits, IsBounded, quiet-IsBounded}
use predixa_learn.Studio.Queue.Admission.{submit-IsBounded}
use predixa_learn.Studio.Queue.Settled.{settings-run}
use predixa_learn.Studio.Queue.Sections.{begin-IsBounded, advance-IsBounded}

-- `JobQueue.__init__`; what the addresses of objects hold before is of no account.
unfoldable pub init : Settings → (ℕ → JobEntry) → JobQueue
init settings blank = record {
  settings = settings;
  jobs = [];
  entry = blank;
  closed = false;
  pool = [];
  pool_closed = false;
  worker = none;
  history = [];
  unlinked = [];
}

-- `uuid4` does not hand out the id of the job that the worker holds.
abbrev pub IsNewId : Event → JobQueue → Type 0
IsNewId (submitted s id now saved) q = holds q.worker id ≡ false
IsNewId _ q = Unit

abbrev pub AreNewIds : List Event → JobQueue → Type 0
AreNewIds [] q = Unit
AreNewIds (e ∷ es) q = IsNewId e q × AreNewIds es (step e q)

count-none : (jobs : List ℕ) → count (λ _. false) jobs ≡ 0
unfolding count
count-none [] = refl
count-none (x ∷ xs) = count-none xs

pub init-IsBounded : (settings : Settings) (blank : ℕ → JobEntry) → IsBounded (init settings blank)
unfolding init count
init-IsBounded settings blank = record {
  distinct = λ k. omega arith;
  waiting = omega arith;
  follows = tt;
}

step-IsBounded : (e : Event) (q : JobQueue) → IsNewId e q → IsBounded q → IsBounded (step e q)
unfolding step
step-IsBounded (submitted s id now saved) q new b = submit-IsBounded s id now saved q new b
step-IsBounded (attached id) q new b = quiet-IsBounded q _ (attach-IsQuiet id q) b
step-IsBounded (begun id now saved) q new b = begun_lem q.worker refl
  where
    begun_lem : (w : Option (ℕ × Phase)) → q.worker ≡ w → IsBounded (begin_if_free w id now saved q)
    begun_lem none e = begin-IsBounded id now saved q e b
    begun_lem (some _) e = b
step-IsBounded (worked r now saved) q new b = worked_lem q.worker refl
  where
    worked_lem :
        (w : Option (ℕ × Phase)) → q.worker ≡ w → IsBounded (advance_if_busy w r now saved q)
    worked_lem none e = b
    worked_lem (some (id, phase)) e = advance-IsBounded id q b phase r now saved e
step-IsBounded (cancel_requested id now saved) q new b =
    quiet-IsBounded q _ (cancel-IsQuiet id now saved q) b
step-IsBounded (was_read id now) q new b = quiet-IsBounded q _ (get_result-IsQuiet id now q) b
step-IsBounded (future_dropped id) q new b = quiet-IsBounded q _ (pool-IsQuiet _ q) b
step-IsBounded (shut_down now saves) q new b = quiet-IsBounded q _ (shutdown-IsQuiet now saves q) b
step-IsBounded pool_closed q new b = quiet-IsBounded q _ (close_pool-IsQuiet q) b

pub run-IsBounded :
    (es : List Event) (q : JobQueue) → AreNewIds es q → IsBounded q → IsBounded (run es q)
unfolding run
run-IsBounded [] q new b = b
run-IsBounded (e ∷ es) q new b = run-IsBounded es (step e q) new.1 (step-IsBounded e q new.0 b)

-- The worker holds one job at most.
count-holds :
    (w : Option (ℕ × Phase)) (jobs : List ℕ)
    → ((k : ℕ) → count (λ j. k == j) jobs ≤ 1)
    → count (holds w) jobs ≤ 1
count-holds none jobs h = omega (arith, count-none jobs)
count-holds (some (id, phase)) jobs h = h id

active-IsBounded : (q : JobQueue) → IsBounded q → active_count q ≤ max_inflight q + 1
unfolding active_count
active-IsBounded q b = omega (
  arith,
  count_split (λ j. is_active (status_of q j)) (is_waiting q) (holds q.worker) q.jobs
      (λ j e. ground arith),
  count-holds q.worker q.jobs b.distinct,
  b.waiting,
)

-- After any run of the queue from its construction, in which no submission gets the id of the job
-- that the worker holds, at most `max_inflight + 1` jobs are pending or processing.
pub inflight_bound :
    (settings : Settings) (blank : ℕ → JobEntry) (es : List Event)
    → AreNewIds es (init settings blank)
    → active_count (run es (init settings blank)) ≤ 1 + settings.max_queued_jobs + 1
unfolding init
inflight_bound settings blank es new =
    let q = init settings blank in
    omega (
      arith,
      active-IsBounded (run es q) (run-IsBounded es q new (init-IsBounded settings blank)),
      ap (λ (s : Settings). s.max_queued_jobs) (settings-run es q),
    )

-- After any such run, the status of the job that the worker holds is the one that belongs to the
-- worker's place in `_execute`: processing until it is marked, then completed or failed, and
-- terminal at the cleaning up.
pub held_status :
    (settings : Settings) (blank : ℕ → JobEntry) (es : List Event)
    → AreNewIds es (init settings blank)
    → WorkerFits (run es (init settings blank)).worker (run es (init settings blank))
held_status settings blank es new = (run-IsBounded es _ new (init-IsBounded settings blank)).follows
