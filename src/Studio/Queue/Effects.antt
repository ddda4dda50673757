-- ===== src/Studio/Queue/Effects.antt =====
-- What each section of the queue does to the status of a job and to the fields that the bounds are
-- about (apps/ocr-studio/app/core/queue.py); the later proofs keep the sections shut.
use predixa_learn.Prelude.{
  ℕ, ◌≡◌, refl, String, Bool, true, false, ◌&&◌, not, ◌∙◌, Option, List, ◌==◌, if◌then◌else◌, arith,
  ==_iff, Bool-cases, inl, inr,
}
use predixa_learn.Studio.Queue.State.{
  cancelled, is_terminal, JobEntry, Phase, JobQueue, status_of, put, Settings,
}
use predixa_learn.Studio.Queue.Ops.{
  ProgressUpdate, set_progress, persist_history, unlink_input, drop_input,
}
use predixa_learn.Studio.Queue.Calls.{mark_cancelled, finish_cancelled}

-- What a write to objects leaves alone.
pub record Frame : Type 0 where
  pub jobs : List ℕ
  pub worker : Option (ℕ × Phase)
  pub settings : Settings

unfoldable pub frame : JobQueue → Frame
frame q = record { jobs = q.jobs; worker = q.worker; settings = q.settings }

pub status-put :
    (id : ℕ) (e : JobEntry) (q : JobQueue) (j : ℕ)
    → status_of (put q id e) j ≡ (if id == j then e.result.status else status_of q j)
unfolding put
status-put id e q j = ground arith

pub frame-put : (id : ℕ) (e : JobEntry) (q : JobQueue) → frame (put q id e) ≡ frame q
unfolding put frame
frame-put id e q = refl

pub status-set_progress :
    (u : ProgressUpdate) (now : ℕ) (e : JobEntry)
    → (set_progress u now e).result.status ≡ e.result.status
unfolding set_progress
status-set_progress u now e = refl

-- A write of an object's own status changes no status.
pub status_self :
    (id : ℕ) (q : JobQueue) (j : ℕ)
    → (if id == j then status_of q id else status_of q j) ≡ status_of q j
status_self id q j = elim (Bool-cases (id == j)) [
  | inl e ↦ rw (e, (==_iff id j).0 e)
  | inr e ↦ rw e
]

-- `_persist_history` writes no status.
pub status-persist_history :
    (id : ℕ) (path : Option String) (saved : Bool) (q : JobQueue) (j : ℕ)
    → status_of (persist_history id path saved q) j ≡ status_of q j
unfolding persist_history
status-persist_history id path true q j = simp (status-put, status_self)
status-persist_history id path false q j = simp (status-put, status_self)

pub status-drop_input :
    (id : ℕ) (q : JobQueue) (j : ℕ) → status_of (drop_input id q) j ≡ status_of q j
unfolding drop_input unlink_input
status-drop_input id q j = elim (Bool-cases (q.entry id).delete_input) [
  | inl e ↦ rw e (simp (status-put, status_self))
  | inr e ↦ rw e (simp (status-put, status_self))
]

-- `_finish_cancelled` on an unfinished entry cancels it, and no other.
pub status-mark_cancelled :
    (id now : ℕ) (saved : Bool) (q : JobQueue) (j : ℕ)
    → status_of (mark_cancelled id now saved q) j ≡ (if id == j then cancelled else status_of q j)
unfolding mark_cancelled
status-mark_cancelled id now saved q j =
    simp (status-drop_input, status-persist_history, status-put, status-set_progress)

pub frame-persist_history :
    (id : ℕ) (path : Option String) (saved : Bool) (q : JobQueue)
    → frame (persist_history id path saved q) ≡ frame q
unfolding persist_history
frame-persist_history id path true q = frame-put id _ _ ∙ unfold frame in refl
frame-persist_history id path false q = frame-put id _ _

pub frame-unlink_input : (id : ℕ) (q : JobQueue) → frame (unlink_input id q) ≡ frame q
unfolding unlink_input frame
frame-unlink_input id q = ground arith

pub frame-drop_input : (id : ℕ) (q : JobQueue) → frame (drop_input id q) ≡ frame q
unfolding drop_input
frame-drop_input id q = simp (frame-put, frame-unlink_input)

pub status-unlink_input :
    (id : ℕ) (q : JobQueue) (j : ℕ) → status_of (unlink_input id q) j ≡ status_of q j
unfolding unlink_input
status-unlink_input id q j = ground arith

pub frame-mark_cancelled :
    (id now : ℕ) (saved : Bool) (q : JobQueue) → frame (mark_cancelled id now saved q) ≡ frame q
unfolding mark_cancelled
frame-mark_cancelled id now saved q = simp (frame-drop_input, frame-persist_history, frame-put)

-- `_finish_cancelled` leaves a finished entry alone, and cancels any other.
pub status-finish_cancelled :
    (id now : ℕ) (saved : Bool) (q : JobQueue) (j : ℕ)
    → status_of (finish_cancelled id now saved q) j
      ≡ (if id == j && not (is_terminal (status_of q id)) then cancelled else status_of q j)
unfolding finish_cancelled
status-finish_cancelled id now saved q j = ground (arith, status-mark_cancelled id now saved q j)

pub frame-finish_cancelled :
    (id now : ℕ) (saved : Bool) (q : JobQueue) → frame (finish_cancelled id now saved q) ≡ frame q
unfolding finish_cancelled
frame-finish_cancelled id now saved q = ground (arith, frame-mark_cancelled id now saved q)
