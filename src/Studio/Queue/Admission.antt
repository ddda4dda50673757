-- ===== src/Studio/Queue/Admission.antt =====
-- `submit` (apps/ocr-studio/app/core/queue.py): when it refuses, and what it adds.
use predixa_learn.Prelude.{
  ℕ, ◌≤◌, ◌<◌, ◌≡◌, ap, Bool, true, false, not, ◌&&◌, ◌||◌, Option, none, some, List, ◌==◌, leb,
  if◌then◌else◌, arith, ==_iff, ==_refl, Bool-cases, inl, inr, count, count_mono, count_split,
  count-append, count-not_contained, contains,
}
use predixa_learn.Studio.Queue.State.{
  pending, is_active, Phase, JobQueue, status_of, put, max_inflight, Settings,
}
use predixa_learn.Studio.Queue.Ops.{active_count, prune, persist_history}
use predixa_learn.Studio.Queue.Calls.{
  Submission, accepted, shut_down, queue_full, submit, add_key, new_entry,
}
use predixa_learn.Studio.Queue.Effects.{
  frame, Frame, frame-put, frame-persist_history, status-put, status-persist_history,
}
use predixa_learn.Studio.Queue.Quiet.{prune-IsQuiet}
use predixa_learn.Studio.Queue.Inflight.{holds, is_waiting, WorkerFits, IsBounded, quiet-IsBounded}

-- The queue after an accepted submission, from the pruned queue.
unfoldable pub admitted : Submission → ℕ → ℕ → Bool → JobQueue → JobQueue
admitted s id now saved q =
    persist_history id none saved
      (put (record q { jobs = add_key id q.jobs }) id (new_entry s id now))

module _ (s : Submission) (id now : ℕ) (saved : Bool) (q : JobQueue) where
  frame-admitted : frame (admitted s id now saved q) ≡ frame (record q { jobs = add_key id q.jobs })
  unfolding admitted
  frame-admitted = simp (frame-persist_history, frame-put)

  pub status-admitted :
      (j : ℕ)
      → status_of (admitted s id now saved q) j ≡ (if id == j then pending else status_of q j)
  unfolding admitted new_entry
  status-admitted j = simp (status-persist_history, status-put)

  pub jobs-admitted : (admitted s id now saved q).jobs ≡ add_key id q.jobs
  unfolding frame
  jobs-admitted = ap (λ (f : Frame). f.jobs) frame-admitted

  worker-admitted : (admitted s id now saved q).worker ≡ q.worker
  unfolding frame
  worker-admitted = ap (λ (f : Frame). f.worker) frame-admitted

  pub settings-admitted : (admitted s id now saved q).settings ≡ q.settings
  unfolding frame
  settings-admitted = ap (λ (f : Frame). f.settings) frame-admitted

-- A new key is in the dictionary once, and adds itself only.
add_key-distinct :
    (id : ℕ) (jobs : List ℕ) (k : ℕ)
    → count (λ j. k == j) jobs ≤ 1
    → count (λ j. k == j) (add_key id jobs) ≤ 1
unfolding add_key count
add_key-distinct id jobs k h = elim (Bool-cases (contains id jobs)) [
  | inl known ↦ rw known h
  | inr new ↦ rw (new, count-append) (ground (arith, ==_iff k id, count-not_contained id jobs new))
]

count-add_key_other :
    (p : ℕ → Bool) (id : ℕ) (jobs : List ℕ)
    → p id ≡ false
    → count p (add_key id jobs) ≡ count p jobs
unfolding add_key count
count-add_key_other p id jobs h = elim (Bool-cases (contains id jobs)) [
  | inl known ↦ rw known
  | inr new ↦ rw (new, count-append) (ground arith)
]

-- Room was left before, so the bound holds after.
module _ (s : Submission) (id now : ℕ) (saved : Bool) (q : JobQueue) where
  others : ℕ → Bool
  others j = is_active (status_of q j) && not (id == j)

  admitted_waits :
      (j : ℕ) → is_waiting (admitted s id now saved q) j ≡ true → (others j || (id == j)) ≡ true
  unfolding others
  admitted_waits j e = ground (arith, status-admitted s id now saved q j)

  admitted-waiting :
      (count (λ j. id == j) q.jobs ≤ 1)
      → count (λ j. is_active (status_of q j)) q.jobs < max_inflight q
      → count (is_waiting (admitted s id now saved q)) (add_key id q.jobs) ≤ max_inflight q
  unfolding others
  admitted-waiting once room = omega (
    arith,
    count_split (is_waiting (admitted s id now saved q)) others (λ j. id == j) (add_key id q.jobs)
        admitted_waits,
    count-add_key_other others id q.jobs (ground (arith, ==_refl id)),
    count_mono others (λ j. is_active (status_of q j)) q.jobs (λ j e. ground arith),
    add_key-distinct id q.jobs id once,
    room,
  )

WorkerFits-admitted :
    (w : Option (ℕ × Phase)) (s : Submission) (id now : ℕ) (saved : Bool) (q : JobQueue)
    → holds w id ≡ false
    → WorkerFits w q
    → WorkerFits w (admitted s id now saved q)
WorkerFits-admitted none s id now saved q new f = tt
WorkerFits-admitted (some (k, phase)) s id now saved q new f =
    let e : status_of (admitted s id now saved q) k ≡ status_of q k =
      ground (arith, status-admitted s id now saved q k, ==_iff id k, ==_refl k) in
    rw e f

admitted-IsBounded :
    (s : Submission) (id now : ℕ) (saved : Bool) (q : JobQueue)
    → holds q.worker id ≡ false
    → active_count q < max_inflight q
    → IsBounded q
    → IsBounded (admitted s id now saved q)
unfolding active_count
admitted-IsBounded s id now saved q new room b = record {
  distinct = λ k. simp jobs-admitted (add_key-distinct id q.jobs k (b.distinct k));
  waiting =
      simp (jobs-admitted, settings-admitted)
        (admitted-waiting s id now saved q (b.distinct id) room);
  follows = simp worker-admitted (WorkerFits-admitted q.worker s id now saved q new b.follows);
}

-- The outcomes of `submit`, each with its condition and the queue after it.
pub data Outcome (s : Submission) (id now : ℕ) (saved : Bool) (q : JobQueue) : Type 0 where
  closed : q.closed ≡ true → submit s id now saved q ≡ (q, shut_down) → Outcome s id now saved q
  full :
      q.closed ≡ false
      → max_inflight q ≤ active_count (prune now q)
      → submit s id now saved q ≡ (prune now q, queue_full)
      → Outcome s id now saved q
  room :
      q.closed ≡ false
      → active_count (prune now q) < max_inflight q
      → submit s id now saved q ≡ (admitted s id now saved (prune now q), accepted id)
      → Outcome s id now saved q

pub max_inflight-prune : (now : ℕ) (q : JobQueue) → max_inflight (prune now q) ≡ max_inflight q
max_inflight-prune now q =
    omega (arith, ap (λ (t : Settings). t.max_queued_jobs) (prune-IsQuiet now q).settings)

-- `submit` has three outcomes: on a closed queue it refuses and changes nothing, when the pruned queue
-- has `max_inflight` active jobs or more it refuses and leaves the pruned queue, and else it admits
-- the job to the pruned queue and returns its id.
pub submit-Outcome :
    (s : Submission) (id now : ℕ) (saved : Bool) (q : JobQueue) → Outcome s id now saved q
unfolding submit admitted
submit-Outcome s id now saved q = elim (Bool-cases q.closed) [
  | inl e ↦ Outcome.closed e (simp e)
  | inr e ↦ elim (Bool-cases (leb (max_inflight (prune now q)) (active_count (prune now q)))) [
    | inl f ↦ Outcome.full e (ground (arith, max_inflight-prune now q)) (simp (e, f))
    | inr f ↦ Outcome.room e (ground (arith, max_inflight-prune now q)) (simp (e, f))
  ]
]

pub submit-IsBounded :
    (s : Submission) (id now : ℕ) (saved : Bool) (q : JobQueue)
    → holds q.worker id ≡ false
    → IsBounded q
    → IsBounded (submit s id now saved q).0
submit-IsBounded s id now saved q new b =
    let b' : IsBounded (prune now q) = quiet-IsBounded q _ (prune-IsQuiet now q) b in
    elim (submit-Outcome s id now saved q) [
      | closed _ e ↦ rw e b
      | full _ _ e ↦ rw e b'
      | room _ free e ↦ rw e (
          admitted-IsBounded s id now saved (prune now q) (rw (prune-IsQuiet now q).worker new)
            (omega (arith, max_inflight-prune now q)) b')
    ]
