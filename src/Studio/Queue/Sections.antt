-- ===== src/Studio/Queue/Sections.antt =====
-- Each section of `_execute` keeps the bound and gives the job the status that its next place wants
-- (apps/ocr-studio/app/core/queue.py).
use predixa_learn.Prelude.{
  ℕ, ◌≡◌, refl, sym, ap, ◌∙◌, String, Bool, true, Option, none, some, ◌==◌, if◌then◌else◌, arith,
  ==_refl, Bool-cases, inl, inr, without, contains,
}
use predixa_learn.Studio.Queue.State.{
  JobStatus, processing, completed, failed, cancelled, is_terminal, Document, Phase, checked,
  entered, working, published, completed_marked, completed_shown, failed_marked, failed_shown,
  ending, JobQueue, status_of, put, done,
}
use predixa_learn.Studio.Queue.Ops.{prune, ProgressUpdate, set_progress, unlink_input}
use predixa_learn.Studio.Queue.Calls.{finish_cancelled}
use predixa_learn.Studio.Queue.Worker.{
  Reply, progress, returned, service_error, other_error, at_phase, end_early, begin, enter,
  initialize, report_progress, publish, mark_completed, mark_failed, show_completed, show_failed,
  stamp_and_persist, warn_unsaved, clean_up, work, advance,
}
use predixa_learn.Studio.Queue.Effects.{
  frame, Frame, frame-put, frame-persist_history, status-put, status-persist_history,
  status-set_progress, status-drop_input, frame-drop_input, status-finish_cancelled,
  frame-finish_cancelled, status_self, status-unlink_input, frame-unlink_input,
}
use predixa_learn.Studio.Queue.Settled.{
  frame-stamp_and_persist, status-stamp_and_persist, frame-warn_unsaved, status-warn_unsaved,
  frame-end_early, status-end_early,
}
use predixa_learn.Studio.Queue.Quiet.{
  IsQuiet, prune-IsQuiet, put-IsQuiet, IsQuiet-trans, IsQuiet-of_frame, pool-IsQuiet,
}
use predixa_learn.Studio.Queue.Inflight.{
  Fits, IsBounded, own-IsBounded, idle-IsBounded, take-IsBounded, free-IsBounded, quiet-IsBounded,
}

-- A section that keeps the frame, writes one status and moves the thread to `phase'`.
moves :
    (id : ℕ) (phase phase' : Phase) (status : JobStatus) (q x : JobQueue)
    → q.worker ≡ some (id, phase)
    → frame x ≡ frame q
    → ((j : ℕ) → status_of x j ≡ (if id == j then status else status_of q j))
    → Fits phase' status
    → IsBounded q
    → IsBounded (at_phase x id phase')
unfolding frame at_phase
moves id phase phase' status q x w f s fits b =
    own-IsBounded id phase phase' q (at_phase x id phase') w refl
      (record {
        jobs = ap (λ (t : Frame). t.jobs) f;
        settings = ap (λ (t : Frame). t.settings) f;
        others = λ j e. ground (arith, s j);
      })
      (let e : status_of x id ≡ status = s id ∙ simp ==_refl in rw e fits) b

-- The same, where no status is written.
stays :
    (id : ℕ) (phase phase' : Phase) (q x : JobQueue)
    → q.worker ≡ some (id, phase)
    → frame x ≡ frame q
    → ((j : ℕ) → status_of x j ≡ status_of q j)
    → Fits phase' (status_of q id)
    → IsBounded q
    → IsBounded (at_phase x id phase')
stays id phase phase' q x w f s fits b =
    moves id phase phase' (status_of q id) q x w f (λ j. s j ∙ sym (status_self id q j)) fits b

follows_at :
    (id : ℕ) (phase : Phase) (q : JobQueue)
    → q.worker ≡ some (id, phase)
    → IsBounded q
    → Fits phase (status_of q id)
follows_at id phase q w b = simp w at b.follows

module _ (id : ℕ) (q : JobQueue) (b : IsBounded q) where
  enter-IsBounded :
      (now : ℕ) (saved : Bool) → q.worker ≡ some (id, checked) → IsBounded (enter id now saved q)
  unfolding enter
  enter-IsBounded now saved w =
      moves id checked entered processing q _ w (simp (frame-persist_history, frame-put))
        (λ j. simp (status-persist_history, status-put)) refl b

  initialize-IsBounded : (now : ℕ) → q.worker ≡ some (id, entered) → IsBounded (initialize id now q)
  unfolding initialize
  initialize-IsBounded now w =
      stays id entered working q _ w (frame-put id _ q)
        (λ j. simp (status-put, status-set_progress, status_self)) (follows_at id entered q w b) b

  -- A progress report of a job that nobody cancelled stays at its place.
  shown_here :
      (u : ProgressUpdate) (now : ℕ) → IsBounded (put q id (set_progress u now (q.entry id)))
  shown_here u now = quiet-IsBounded q _ (put-IsQuiet id _ q (status-set_progress u now _)) b

  -- A job that is being processed is not finished, so its cancellation finishes it.
  stopped-IsBounded :
      (now : ℕ) (saved : Bool)
      → q.worker ≡ some (id, working)
      → IsBounded (at_phase (finish_cancelled id now saved q) id ending)
  stopped-IsBounded now saved w =
      let f : status_of q id ≡ processing = follows_at id working q w b in
      moves id working ending cancelled q _ w (frame-finish_cancelled id now saved q)
        (λ j. status-finish_cancelled id now saved q j ∙ rw f (ground arith)) refl b

  report_progress-IsBounded :
      (u : ProgressUpdate) (now : ℕ) (saved : Bool)
      → q.worker ≡ some (id, working)
      → IsBounded (report_progress id u now saved q)
  unfolding report_progress
  report_progress-IsBounded u now saved w = elim (Bool-cases (q.entry id).cancel_event) [
    | inl e ↦ simp e (stopped-IsBounded now saved w)
    | inr e ↦ simp e (shown_here u now)
  ]

  publish-IsBounded :
      (d : Document) (manifest : String) (path : Option String)
      → q.worker ≡ some (id, working)
      → IsBounded (publish id d manifest path q)
  unfolding publish
  publish-IsBounded d manifest path w =
      stays id working (published _ path) q _ w (simp (frame-drop_input, frame-put))
        (λ j. simp (status-drop_input, status-put, status_self)) (follows_at id working q w b) b

  mark_failed-IsBounded :
      (message code : String)
      → q.worker ≡ some (id, working)
      → IsBounded (mark_failed id message code q)
  unfolding mark_failed
  mark_failed-IsBounded message code w =
      moves id working (failed_marked message) failed q _ w (frame-put id _ q) (status-put id _ q)
        refl b

  mark_completed-IsBounded :
      (total : Option ℕ) (path : Option String)
      → q.worker ≡ some (id, published total path)
      → IsBounded (mark_completed id total path q)
  unfolding mark_completed
  mark_completed-IsBounded total path w =
      moves id (published total path) (completed_marked total path) completed q _ w
        (frame-put id _ q) (status-put id _ q) refl b

  show_completed-IsBounded :
      (total : Option ℕ) (path : Option String) (now : ℕ)
      → q.worker ≡ some (id, completed_marked total path)
      → IsBounded (show_completed id total path now q)
  unfolding show_completed
  show_completed-IsBounded total path now w =
      stays id (completed_marked total path) (completed_shown path) q _ w (frame-put id _ q)
        (λ j. simp (status-put, status-set_progress, status_self))
        (follows_at id (completed_marked total path) q w b) b

  show_failed-IsBounded :
      (message : String) (now : ℕ)
      → q.worker ≡ some (id, failed_marked message)
      → IsBounded (show_failed id message now q)
  unfolding show_failed
  show_failed-IsBounded message now w =
      stays id (failed_marked message) failed_shown q _ w (frame-put id _ q)
        (λ j. simp (status-put, status-set_progress, status_self))
        (follows_at id (failed_marked message) q w b) b

module _ (id : ℕ) (q : JobQueue) (b : IsBounded q) where
  record_completed-IsBounded :
      (path : Option String) (saved : Bool)
      → q.worker ≡ some (id, completed_shown path)
      → IsBounded (at_phase (warn_unsaved id path (stamp_and_persist id path saved q)) id ending)
  record_completed-IsBounded path saved w =
      let f : status_of q id ≡ completed = follows_at id (completed_shown path) q w b in
      stays id (completed_shown path) ending q _ w
        (simp (frame-warn_unsaved, frame-stamp_and_persist))
        (λ j. simp (status-warn_unsaved, status-stamp_and_persist)) (rw f) b

  record_failed-IsBounded :
      (saved : Bool)
      → q.worker ≡ some (id, failed_shown)
      → IsBounded (at_phase (stamp_and_persist id none saved q) id ending)
  record_failed-IsBounded saved w =
      let f : status_of q id ≡ failed = follows_at id failed_shown q w b in
      stays id failed_shown ending q _ w (frame-stamp_and_persist id none saved q)
        (status-stamp_and_persist id none saved q) (rw f) b

  clean_up-IsBounded : (now : ℕ) → q.worker ≡ some (id, ending) → IsBounded (clean_up id now q)
  unfolding clean_up
  clean_up-IsBounded now w =
      let h = cleaned in
      let f : is_terminal (status_of q id) ≡ true = follows_at id ending q w b in
      free-IsBounded id ending _ (h.worker ∙ w) (ground (arith, h.statuses id))
        (quiet-IsBounded q _ h b)
    where
      cleaned : IsQuiet q (
          put
            (prune now (unlink_input id q))
            id
            (record ((prune now (unlink_input id q)).entry id) { future = some done }))
      cleaned =
          IsQuiet-trans q (unlink_input id q) _
            (IsQuiet-of_frame q _ (frame-unlink_input id q) (λ j. inl (status-unlink_input id q j)))
            (IsQuiet-trans _ (prune now (unlink_input id q)) _
              (prune-IsQuiet now (unlink_input id q))
              (put-IsQuiet id _ (prune now (unlink_input id q)) refl))

  work-IsBounded :
      (r : Reply) (now : ℕ) (saved : Bool)
      → q.worker ≡ some (id, working)
      → IsBounded (work id r now saved q)
  unfolding work
  work-IsBounded (progress u) now saved w = report_progress-IsBounded id q b u now saved w
  work-IsBounded (returned d manifest path) now saved w = publish-IsBounded id q b d manifest path w
  work-IsBounded (service_error message code) now saved w =
      mark_failed-IsBounded id q b message code w
  work-IsBounded other_error now saved w = mark_failed-IsBounded id q b _ _ w

  pub advance-IsBounded :
      (phase : Phase) (r : Reply) (now : ℕ) (saved : Bool)
      → q.worker ≡ some (id, phase)
      → IsBounded (advance id phase r now saved q)
  unfolding advance
  advance-IsBounded checked r now saved w = enter-IsBounded id q b now saved w
  advance-IsBounded entered r now saved w = initialize-IsBounded id q b now w
  advance-IsBounded working r now saved w = work-IsBounded r now saved w
  advance-IsBounded (published total path) r now saved w =
      mark_completed-IsBounded id q b total path w
  advance-IsBounded (completed_marked total path) r now saved w =
      show_completed-IsBounded id q b total path now w
  advance-IsBounded (completed_shown path) r now saved w = record_completed-IsBounded path saved w
  advance-IsBounded (failed_marked message) r now saved w =
      show_failed-IsBounded id q b message now w
  advance-IsBounded failed_shown r now saved w = record_failed-IsBounded saved w
  advance-IsBounded ending r now saved w = clean_up-IsBounded now w

end_early-IsBounded :
    (id now : ℕ) (saved : Bool) (q : JobQueue)
    → q.worker ≡ none
    → IsBounded q
    → IsBounded (end_early id now saved q)
unfolding frame
end_early-IsBounded id now saved q w b =
    let f = frame-end_early id now saved q in
    idle-IsBounded q _ w (ap (λ (t : Frame). t.worker) f ∙ w) (ap (λ (t : Frame). t.jobs) f)
      (ap (λ (t : Frame). t.settings) f)
      (λ j e.
        ground (arith, status-end_early id now saved q j, status-finish_cancelled id now saved q j))
      b

pub begin-IsBounded :
    (id now : ℕ) (saved : Bool) (q : JobQueue)
    → q.worker ≡ none
    → IsBounded q
    → IsBounded (begin id now saved q)
unfolding begin at_phase
begin-IsBounded id now saved q w b = elim (Bool-cases (contains id q.pool)) [
  | inl known ↦ elim (Bool-cases (q.entry id).cancel_event) [
    | inl e ↦
        simp (known, e)
          (end_early-IsBounded id now saved (record q { pool = without id q.pool }) w
            (quiet-IsBounded q _ (pool-IsQuiet _ q) b))
    | inr e ↦ simp (known, e) (take-IsBounded id q (without id q.pool) w b)
  ]
  | inr unknown ↦ simp unknown b
]
