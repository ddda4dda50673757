-- ===== src/Studio/Queue/Settled.antt =====
-- What the sections of `_execute` write beside the status of their job
-- (apps/ocr-studio/app/core/queue.py): nothing of the frame but the worker's place.
use predixa_learn.Prelude.{
  ℕ, ◌≡◌, refl, ap, ◌∙◌, String, Bool, Option, none, some, List, [], ◌∷◌, ==_refl, Bool-cases, inl,
  inr, contains,
}
use predixa_learn.Studio.Queue.State.{
  processing, JobEntry, Phase, working, JobQueue, status_of, put,
}
use predixa_learn.Studio.Queue.Ops.{prune, persist_history, unlink_input, drop_input}
use predixa_learn.Studio.Queue.Calls.{finish_cancelled, Submission, submit, close_pool}
use predixa_learn.Studio.Queue.Worker.{
  Reply, progress, returned, service_error, other_error, at_phase, end_early, begin, enter,
  initialize, report_progress, publish, mark_completed, mark_failed, show_completed, show_failed,
  stamp_and_persist, warn_unsaved, clean_up, work, advance, begin_if_free, advance_if_busy, step,
  run, Event, submitted, attached, begun, worked, cancel_requested, was_read, future_dropped,
  shut_down, pool_closed,
}
use predixa_learn.Studio.Queue.Effects.{
  frame, Frame, frame-put, frame-persist_history, status-put, status-persist_history,
  frame-drop_input, frame-finish_cancelled, status_self, frame-unlink_input,
}
use predixa_learn.Studio.Queue.Quiet.{
  prune-IsQuiet, attach-IsQuiet, cancel-IsQuiet, get_result-IsQuiet, shutdown-IsQuiet,
}
use predixa_learn.Studio.Queue.Admission.{submit-Outcome, closed, full, room, settings-admitted}

pub frame-stamp_and_persist :
    (id : ℕ) (path : Option String) (saved : Bool) (q : JobQueue)
    → frame (stamp_and_persist id path saved q) ≡ frame q
unfolding stamp_and_persist
frame-stamp_and_persist id path saved q = simp (frame-persist_history, frame-put)

pub status-stamp_and_persist :
    (id : ℕ) (path : Option String) (saved : Bool) (q : JobQueue) (j : ℕ)
    → status_of (stamp_and_persist id path saved q) j ≡ status_of q j
unfolding stamp_and_persist
status-stamp_and_persist id path saved q j = simp (status-persist_history, status-put, status_self)

pub frame-warn_unsaved :
    (id : ℕ) (path : Option String) (q : JobQueue) → frame (warn_unsaved id path q) ≡ frame q
unfolding warn_unsaved
frame-warn_unsaved id none q = frame-put id _ q
frame-warn_unsaved id (some path) q = refl

pub status-warn_unsaved :
    (id : ℕ) (path : Option String) (q : JobQueue) (j : ℕ)
    → status_of (warn_unsaved id path q) j ≡ status_of q j
unfolding warn_unsaved
status-warn_unsaved id none q j = simp (status-put, status_self)
status-warn_unsaved id (some path) q j = refl

pub frame-end_early :
    (id now : ℕ) (saved : Bool) (q : JobQueue) → frame (end_early id now saved q) ≡ frame q
unfolding end_early
frame-end_early id now saved q = simp (frame-put, frame-finish_cancelled)

pub status-end_early :
    (id now : ℕ) (saved : Bool) (q : JobQueue) (j : ℕ)
    → status_of (end_early id now saved q) j ≡ status_of (finish_cancelled id now saved q) j
unfolding end_early
status-end_early id now saved q j = simp (status-put, status_self)

-- The first section under the lock sets the status, whatever it was.
pub status-enter :
    (id now : ℕ) (saved : Bool) (q : JobQueue) → status_of (enter id now saved q) id ≡ processing
unfolding enter at_phase
status-enter id now saved q = simp (status-persist_history, status-put, ==_refl)

settings_of_frame : (x q : JobQueue) → frame x ≡ frame q → x.settings ≡ q.settings
unfolding frame
settings_of_frame x q f = ap (λ (t : Frame). t.settings) f

settings-finish :
    (id now : ℕ) (saved : Bool) (q : JobQueue)
    → (finish_cancelled id now saved q).settings ≡ q.settings
settings-finish id now saved q = settings_of_frame _ q (frame-finish_cancelled id now saved q)

settings-put : (q : JobQueue) (id : ℕ) (e : JobEntry) → (put q id e).settings ≡ q.settings
settings-put q id e = settings_of_frame _ q (frame-put id e q)

settings-persist_history :
    (id : ℕ) (path : Option String) (saved : Bool) (q : JobQueue)
    → (persist_history id path saved q).settings ≡ q.settings
settings-persist_history id path saved q =
    settings_of_frame _ q (frame-persist_history id path saved q)

settings-drop_input : (id : ℕ) (q : JobQueue) → (drop_input id q).settings ≡ q.settings
settings-drop_input id q = settings_of_frame _ q (frame-drop_input id q)

settings-unlink_input : (id : ℕ) (q : JobQueue) → (unlink_input id q).settings ≡ q.settings
settings-unlink_input id q = settings_of_frame _ q (frame-unlink_input id q)

settings-stamp :
    (id : ℕ) (path : Option String) (saved : Bool) (q : JobQueue)
    → (stamp_and_persist id path saved q).settings ≡ q.settings
settings-stamp id path saved q = settings_of_frame _ q (frame-stamp_and_persist id path saved q)

settings-warn :
    (id : ℕ) (path : Option String) (q : JobQueue) → (warn_unsaved id path q).settings ≡ q.settings
settings-warn id path q = settings_of_frame _ q (frame-warn_unsaved id path q)

settings-prune : (now : ℕ) (q : JobQueue) → (prune now q).settings ≡ q.settings
settings-prune now q = (prune-IsQuiet now q).settings

settings-early :
    (id now : ℕ) (saved : Bool) (q : JobQueue) → (end_early id now saved q).settings ≡ q.settings
settings-early id now saved q = settings_of_frame _ q (frame-end_early id now saved q)

ruleset settings_laws = (
  settings-put, settings-persist_history, settings-drop_input, settings-unlink_input,
  settings-stamp, settings-warn, settings-prune, settings-finish, settings-early,
)

settings-work :
    (id : ℕ) (r : Reply) (now : ℕ) (saved : Bool) (q : JobQueue)
    → (work id r now saved q).settings ≡ q.settings
unfolding work report_progress publish mark_failed at_phase
settings-work id (progress u) now saved q = elim (Bool-cases (q.entry id).cancel_event) [
  | inl e ↦ simp e (simp settings_laws)
  | inr e ↦ simp e (simp settings_laws)
]
settings-work id (returned d manifest path) now saved q = simp settings_laws
settings-work id (service_error message code) now saved q = simp settings_laws
settings-work id other_error now saved q = simp settings_laws

settings-advance :
    (id : ℕ) (phase : Phase) (r : Reply) (now : ℕ) (saved : Bool) (q : JobQueue)
    → (advance id phase r now saved q).settings ≡ q.settings
unfolding advance enter initialize mark_completed show_completed show_failed clean_up at_phase
settings-advance id working r now saved q = settings-work id r now saved q
settings-advance id _ r now saved q = simp settings_laws

settings-begin :
    (id now : ℕ) (saved : Bool) (q : JobQueue) → (begin id now saved q).settings ≡ q.settings
unfolding begin at_phase
settings-begin id now saved q = elim (Bool-cases (contains id q.pool)) [
  | inl known ↦ elim (Bool-cases (q.entry id).cancel_event) [
    | inl e ↦ simp (known, e) (simp settings_laws)
    | inr e ↦ simp (known, e)
  ]
  | inr unknown ↦ simp unknown
]

settings-submit :
    (s : Submission) (id now : ℕ) (saved : Bool) (q : JobQueue)
    → (submit s id now saved q).0.settings ≡ q.settings
settings-submit s id now saved q = elim (submit-Outcome s id now saved q) [
  | closed _ e ↦ rw e
  | full _ _ e ↦ rw e (settings-prune now q)
  | room _ _ e ↦ rw e (settings-admitted s id now saved (prune now q) ∙ settings-prune now q)
]

-- No section changes the settings.
pub settings-step : (e : Event) (q : JobQueue) → (step e q).settings ≡ q.settings
unfolding step begin_if_free advance_if_busy close_pool
settings-step (submitted s id now saved) q = settings-submit s id now saved q
settings-step (attached id) q = (attach-IsQuiet id q).settings
settings-step (begun id now saved) q =
    elim q.worker as (λ w. (begin_if_free w id now saved q).settings ≡ q.settings) [
      | none ↦ settings-begin id now saved q
      | some _ ↦ refl
    ]
settings-step (worked r now saved) q =
    elim q.worker as (λ w. (advance_if_busy w r now saved q).settings ≡ q.settings) [
      | none ↦ refl
      | some (id, phase) ↦ settings-advance id phase r now saved q
    ]
settings-step (cancel_requested id now saved) q = (cancel-IsQuiet id now saved q).settings
settings-step (was_read id now) q = (get_result-IsQuiet id now q).settings
settings-step (future_dropped id) q = refl
settings-step (shut_down now saves) q = (shutdown-IsQuiet now saves q).settings
settings-step pool_closed q = refl

pub settings-run : (es : List Event) (q : JobQueue) → (run es q).settings ≡ q.settings
unfolding run
settings-run [] q = refl
settings-run (e ∷ es) q = settings-run es (step e q) ∙ settings-step e q
