-- ===== src/Studio/Queue/Cancel.antt =====
-- `cancel` (apps/ocr-studio/app/core/queue.py): what it does at once, and what it makes the worker do.
use predixa_learn.Prelude.{
  ℕ, ◌≡◌, refl, sym, ap, subst, ◌∙◌, ◌⊎◌, Bool, true, false, ◌&&◌, none, some, if◌then◌else◌, arith,
  ==_refl, Bool-cases, inl, inr, contains,
}
use predixa_learn.Studio.Queue.State.{
  JobStatus, processing, cancelled, is_terminal, is_pending, JobEntry, Phase, working, ending,
  checked, JobQueue, status_of, put,
}
use predixa_learn.Studio.Queue.Ops.{prune, set_progress, ProgressUpdate}
use predixa_learn.Studio.Queue.Calls.{
  finish_cancelled, mark_cancelled, request_cancel, stop_future, can_stop, cancel_active, cancel,
}
use predixa_learn.Studio.Queue.Worker.{
  worked, progress, Reply, at_phase, report_progress, work, advance, advance_if_busy, step,
}
use predixa_learn.Studio.Queue.Effects.{status-finish_cancelled}
use predixa_learn.Studio.Queue.Entries.{
  entry-put, entry-mark_cancelled, after_saving, cancelled_entry,
}
use predixa_learn.Studio.Queue.Quiet.{cancel-IsQuiet}
use predixa_learn.Studio.Queue.Settled.{status-enter}

-- What `cancel` and `shutdown` do to the object of an active job.
pub record WasRequested (before : JobEntry) (after : JobEntry) : Type 0 where
  pub event : after.cancel_event ≡ true
  pub flag : after.result.cancel_requested ≡ true
  pub status : after.result.status ≡ (
      if is_pending before.result.status && can_stop before.future
      then cancelled
      else before.result.status)

finish_live :
    (id now : ℕ) (saved : Bool) (q : JobQueue)
    → is_terminal (status_of q id) ≡ false
    → finish_cancelled id now saved q ≡ mark_cancelled id now saved q
unfolding finish_cancelled
finish_live id now saved q live = rw live

-- The object of a pending job whose future was stopped.
stopped_entry : ℕ → Bool → JobEntry → JobEntry
stopped_entry now saved e =
    record (after_saving saved (cancelled_entry now (stop_future (request_cancel e)))) {
      delete_input = false;
    }

stopped_entry-WasRequested :
    (now : ℕ) (saved : Bool) (e : JobEntry)
    → (is_pending e.result.status && can_stop e.future) ≡ true
    → WasRequested e (stopped_entry now saved e)
unfolding stopped_entry set_progress request_cancel stop_future
stopped_entry-WasRequested now true e ready = record {
  event = refl;
  flag = refl;
  status = rw ready;
}
stopped_entry-WasRequested now false e ready = record {
  event = refl;
  flag = refl;
  status = rw ready;
}

noticed_entry-WasRequested :
    (u : ProgressUpdate) (now : ℕ) (e : JobEntry)
    → (is_pending e.result.status && can_stop e.future) ≡ false
    → WasRequested e (set_progress u now (request_cancel e))
unfolding set_progress request_cancel
noticed_entry-WasRequested u now e ready = record { event = refl; flag = refl; status = rw ready }

cancel_active-WasRequested :
    (id now : ℕ) (saved : Bool) (q : JobQueue)
    → is_terminal (status_of q id) ≡ false
    → WasRequested (q.entry id) ((cancel_active id now saved q).entry id)
unfolding cancel_active request_cancel stop_future stopped_entry
cancel_active-WasRequested id now saved q live =
    let ready = is_pending (status_of q id) && can_stop (q.entry id).future in
    elim (Bool-cases ready) [
      | inl e ↦
          let q' = put q id (stop_future (request_cancel (q.entry id))) in
          let live' : is_terminal (status_of q' id) ≡ false =
            ap (λ (t : JobEntry). is_terminal t.result.status) (entry-put id _ q) ∙ live in
          rw e (
            subst (WasRequested (q.entry id))
              (sym (
                ap (λ (t : JobQueue). t.entry id) (finish_live id now saved q' live')
                ∙ entry-mark_cancelled id now saved q'
                ∙ ap
                    (λ (t : JobEntry). record (after_saving saved (cancelled_entry now t)) {
                      delete_input = false;
                    })
                    (entry-put id _ q)))
              (stopped_entry-WasRequested now saved (q.entry id) e))
      | inr e ↦ rw e (
          subst (WasRequested (q.entry id)) (sym (entry-put id _ q))
            (noticed_entry-WasRequested _ now (q.entry id) e))
    ]

module _ (id now : ℕ) (saved : Bool) (q : JobQueue) where
  -- `cancel` knows no job that the pruning removed, returns a finished job as it is, and requests
  -- the cancellation of any other.
  pub cancel_lem :
      ((contains id (prune now q).jobs ≡ false) × (cancel id now saved q ≡ (prune now q, none)))
      ⊎ (((contains id (prune now q).jobs ≡ true)
            × (is_terminal (status_of q id) ≡ true)
            × (cancel id now saved q ≡ (prune now q, some (q.entry id).result)))
          ⊎ ((contains id (prune now q).jobs ≡ true)
              × (is_terminal (status_of q id) ≡ false)
              × WasRequested (q.entry id) ((cancel id now saved q).0.entry id)
              × ((cancel id now saved q).1 ≡ some ((cancel id now saved q).0.entry id).result)))
  unfolding cancel
  cancel_lem = elim (Bool-cases (contains id (prune now q).jobs)) [
    | inl known ↦ elim (Bool-cases (is_terminal (status_of (prune now q) id))) [
      | inl e ↦ inr (inl (known, pruned e, rw (known, e) (unfold prune in refl)))
      | inr e ↦ inr (inr (known, pruned e, rw (known, e) (live e), rw (known, e)))
    ]
    | inr unknown ↦ inl (unknown, rw unknown)
  ]
    where
      pruned :
          {b : Bool}
          → is_terminal (status_of (prune now q) id) ≡ b
          → is_terminal (status_of q id) ≡ b
      pruned h = unfold prune in h

      live :
          is_terminal (status_of (prune now q) id) ≡ false
          → WasRequested (q.entry id) ((cancel_active id now saved (prune now q)).entry id)
      live h = unfold prune in cancel_active-WasRequested id now saved (prune now q) h

-- The section that the busy worker runs next.
pub step-busy :
    (r : Reply) (now : ℕ) (saved : Bool) (q : JobQueue) (id : ℕ) (phase : Phase)
    → q.worker ≡ some (id, phase)
    → step (worked r now saved) q ≡ advance id phase r now saved q
unfolding step advance_if_busy
step-busy r now saved q id phase e = ap (λ w. advance_if_busy w r now saved q) e

report-cancelled :
    (id : ℕ) (u : ProgressUpdate) (now : ℕ) (saved : Bool) (q : JobQueue)
    → (q.entry id).cancel_event ≡ true
    → status_of q id ≡ processing
    → (status_of (report_progress id u now saved q) id ≡ cancelled)
      × ((report_progress id u now saved q).worker ≡ some (id, ending))
unfolding report_progress at_phase
report-cancelled id u now saved q event busy =
    (rw event (status-finish_cancelled id now saved q id ∙ rw (busy, ==_refl) refl), rw event)

module _ (id now : ℕ) (saved : Bool) (q : JobQueue) where
  after : JobQueue
  after = (cancel id now saved q).0

  worker-after : after.worker ≡ q.worker
  unfolding after
  worker-after = (cancel-IsQuiet id now saved q).worker

  cancelled_running :
      contains id (prune now q).jobs ≡ true
      → status_of q id ≡ processing
      → ((after.entry id).cancel_event ≡ true) × (status_of after id ≡ processing)
  unfolding after
  cancelled_running known busy = elim (cancel_lem id now saved q) [
    | inl (unknown, _) ↦ absurd (cc (known, unknown))
    | inr (inl (_, over, _)) ↦ absurd (ground arith)
    | inr (inr (_, _, w, _)) ↦ (w.event, w.status ∙ rw busy)
  ]

  -- If a job that the worker is processing is cancelled while its workflow runs, then the next
  -- report of progress cancels it and takes the worker to its last section.
  pub cancel_stops :
      contains id (prune now q).jobs ≡ true
      → status_of q id ≡ processing
      → q.worker ≡ some (id, working)
      → (u : ProgressUpdate) (now' : ℕ) (saved' : Bool)
      → (status_of (step (worked (progress u) now' saved') (cancel id now saved q).0) id
          ≡ cancelled)
        × ((step (worked (progress u) now' saved') (cancel id now saved q).0).worker
            ≡ some (id, ending))
  unfolding advance work after
  cancel_stops known busy w u now' saved' =
      let c = cancelled_running known busy in
      rw (step-busy (progress u) now' saved' after id working (worker-after ∙ w))
        (report-cancelled id u now' saved' after c.0 c.1)

  cancelled_waiting :
      contains id (prune now q).jobs ≡ true
      → (is_pending (status_of q id) && can_stop (q.entry id).future) ≡ true
      → status_of after id ≡ cancelled
  unfolding after
  cancelled_waiting known waits = elim (cancel_lem id now saved q) [
    | inl (unknown, _) ↦ absurd (cc (known, unknown))
    | inr (inl (_, over, _)) ↦ absurd (pending_open (status_of q id) _ waits over)
    | inr (inr (_, _, w, _)) ↦ w.status ∙ rw waits refl
  ]
    where
      pending_open :
          (s : JobStatus) (b : Bool) → (is_pending s && b) ≡ true → is_terminal s ≡ true → ⊥
      pending_open s b h k = ground (arith, h, k)

  -- `cancel` gives a known, pending job with a future that can be cancelled the status `cancelled`. But
  -- where the worker has read the job's event before, and stands before its first section under the
  -- lock, this section overwrites the cancellation: the status is processing.
  pub cancel_overwritten :
      q.worker ≡ some (id, checked)
      → contains id (prune now q).jobs ≡ true
      → (is_pending (status_of q id) && can_stop (q.entry id).future) ≡ true
      → (r : Reply) (now' : ℕ) (saved' : Bool)
      → (status_of (cancel id now saved q).0 id ≡ cancelled)
        × (status_of (step (worked r now' saved') (cancel id now saved q).0) id ≡ processing)
  unfolding advance after
  cancel_overwritten w known waits r now' saved' = (
    unfold after in cancelled_waiting known waits,
    rw (step-busy r now' saved' after id checked (worker-after ∙ w))
        (status-enter id now' saved' after),
  )
