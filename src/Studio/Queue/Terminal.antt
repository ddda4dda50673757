-- ===== src/Studio/Queue/Terminal.antt =====
-- Finished jobs stay as they are (apps/ocr-studio/app/core/queue.py), but for one section.
use predixa_learn.Prelude.{
  ℕ, ◌≡◌, refl, ap, ◌∙◌, Bool, true, false, not, ◌&&◌, ◌≢◌, subst, Option, none, some, ◌==◌,
  if◌then◌else◌, arith, ==_iff, Bool-cases, inl, inr, contains, without,
}
use predixa_learn.Studio.Queue.State.{
  JobStatus, is_terminal, cancelled, Phase, checked, entered, working, published, JobQueue,
  status_of,
}
use predixa_learn.Studio.Queue.Ops.{prune}
use predixa_learn.Studio.Queue.Calls.{Submission, Submitted, submit, close_pool}
use predixa_learn.Studio.Queue.Worker.{
  Event, submitted, attached, begun, worked, cancel_requested, was_read, future_dropped, shut_down,
  pool_closed, Reply, progress, returned, service_error, other_error, at_phase, begin, enter,
  initialize, report_progress, publish, mark_completed, mark_failed, show_completed, show_failed,
  clean_up, work, advance, begin_if_free, advance_if_busy, step,
}
use predixa_learn.Studio.Queue.Effects.{
  status-put, status-persist_history, status-set_progress, status-drop_input,
  status-finish_cancelled, status_self, status-unlink_input,
}
use predixa_learn.Studio.Queue.Settled.{
  status-stamp_and_persist, status-warn_unsaved, status-end_early,
}
use predixa_learn.Studio.Queue.Quiet.{
  IsQuiet, cancel-IsQuiet, get_result-IsQuiet, shutdown-IsQuiet, attach-IsQuiet,
}
use predixa_learn.Studio.Queue.Inflight.{Fits, IsBounded}
use predixa_learn.Studio.Queue.Admission.{submit-Outcome, closed, full, room, status-admitted}

quiet_stays :
    (q q' : JobQueue)
    → IsQuiet q q'
    → (j : ℕ) → is_terminal (status_of q j) ≡ true
    → status_of q' j ≡ status_of q j
quiet_stays q q' h j t = ground (arith, h.statuses j)

status-prune : (now : ℕ) (q : JobQueue) (j : ℕ) → status_of (prune now q) j ≡ status_of q j
unfolding prune
status-prune now q j = refl

ruleset status_laws = (
  status-prune, status-put, status-persist_history, status-set_progress, status-drop_input,
  status-unlink_input, status-stamp_and_persist, status-warn_unsaved, status-end_early, status_self,
)

-- A section of `_execute` writes the status of its own job only.
others-work :
    (id : ℕ) (r : Reply) (now : ℕ) (saved : Bool) (q : JobQueue) (j : ℕ)
    → (id == j) ≡ false
    → status_of (work id r now saved q) j ≡ status_of q j
unfolding work report_progress publish mark_failed at_phase
others-work id (progress u) now saved q j other = elim (Bool-cases (q.entry id).cancel_event) [
  | inl e ↦ simp e (ground (arith, status-finish_cancelled id now saved q j))
  | inr e ↦ simp e (simp status_laws)
]
others-work id (returned d m p) now saved q j other = simp status_laws
others-work id (service_error m c) now saved q j other = simp status_laws (rw other)
others-work id other_error now saved q j other = simp status_laws (rw other)

others-advance :
    (id : ℕ) (phase : Phase) (r : Reply) (now : ℕ) (saved : Bool) (q : JobQueue) (j : ℕ)
    → (id == j) ≡ false
    → status_of (advance id phase r now saved q) j ≡ status_of q j
unfolding advance enter initialize mark_completed show_completed show_failed clean_up at_phase
others-advance id checked r now saved q j other = simp status_laws (rw other)
others-advance id entered r now saved q j other = simp status_laws
others-advance id working r now saved q j other = others-work id r now saved q j other
others-advance id (published total path) r now saved q j other = simp status_laws (rw other)
others-advance id _ r now saved q j other = simp status_laws

-- Once the held job is finished, the sections that are left do not change its status.
own-advance :
    (id : ℕ) (phase : Phase) (r : Reply) (now : ℕ) (saved : Bool) (q : JobQueue)
    → phase ≢ checked
    → Fits phase (status_of q id)
    → is_terminal (status_of q id) ≡ true
    → status_of (advance id phase r now saved q) id ≡ status_of q id
unfolding advance show_completed show_failed clean_up at_phase
own-advance id checked r now saved q early f t = absurd (early refl)
own-advance id entered r now saved q early f t = absurd (ground arith)
own-advance id working r now saved q early f t = absurd (ground arith)
own-advance id (published total path) r now saved q early f t = absurd (ground arith)
own-advance id _ r now saved q early f t = simp status_laws

advance_stays :
    (id : ℕ) (phase : Phase) (r : Reply) (now : ℕ) (saved : Bool) (q : JobQueue) (j : ℕ)
    → (id ≡ j → phase ≢ checked)
    → Fits phase (status_of q id)
    → is_terminal (status_of q j) ≡ true
    → status_of (advance id phase r now saved q) j ≡ status_of q j
advance_stays id phase r now saved q j apart f t = elim (Bool-cases (id == j)) [
  | inl e ↦
      let same : id ≡ j = (==_iff id j).0 e in
      subst (λ k. status_of (advance id phase r now saved q) k ≡ status_of q k) same
        (own-advance id phase r now saved q (apart same) f (rw same t))
  | inr e ↦ others-advance id phase r now saved q j e
]

-- A new submission does not take the id `j`.
abbrev pub IsOtherId : Event → ℕ → Type 0
IsOtherId (submitted s id now saved) j = (id == j) ≡ false
IsOtherId _ j = Unit

finished_same :
    (id j : ℕ) (status : ℕ → JobStatus)
    → is_terminal (status j) ≡ true
    → (if id == j && not (is_terminal (status id)) then cancelled else status j) ≡ status j
finished_same id j status t = elim (Bool-cases (id == j)) [
  | inl e ↦ let same : status id ≡ status j = ap status ((==_iff id j).0 e) in ground arith
  | inr e ↦ rw e
]

begin_stays :
    (id now : ℕ) (saved : Bool) (q : JobQueue) (j : ℕ)
    → is_terminal (status_of q j) ≡ true
    → status_of (begin id now saved q) j ≡ status_of q j
unfolding begin at_phase
begin_stays id now saved q j t = elim (Bool-cases (contains id q.pool)) [
  | inl known ↦ elim (Bool-cases (q.entry id).cancel_event) [
    | inl e ↦
        let q' = record q { pool = without id q.pool } in
        simp (known, e)
          (status-end_early id now saved q' j
            ∙ status-finish_cancelled id now saved q' j
            ∙ finished_same id j (status_of q) t)
    | inr e ↦ simp (known, e)
  ]
  | inr unknown ↦ simp unknown
]

submit_stays :
    (s : Submission) (id now : ℕ) (saved : Bool) (q : JobQueue) (j : ℕ)
    → (id == j) ≡ false
    → status_of (submit s id now saved q).0 j ≡ status_of q j
submit_stays s id now saved q j new =
    let status = λ (r : JobQueue × Submitted). status_of r.0 j in
    elim (submit-Outcome s id now saved q) [
      | closed _ e ↦ ap status e
      | full _ _ e ↦ ap status e ∙ status-prune now q j
      | room _ _ e ↦
          ap status e
          ∙ status-admitted s id now saved (prune now q) j
          ∙ rw new (status-prune now q j)
    ]

-- Whatever section of whichever thread comes next, the status of a finished job stays, unless the
-- job is submitted anew under its id or the worker is between its look at the cancel event and its
-- first section on this job.
pub terminal_stays :
    (e : Event) (q : JobQueue) (j : ℕ)
    → IsBounded q
    → is_terminal (status_of q j) ≡ true
    → IsOtherId e j
    → q.worker ≢ some (j, checked)
    → status_of (step e q) j ≡ status_of q j
unfolding step begin_if_free advance_if_busy
terminal_stays (submitted s id now saved) q j b t new apart = submit_stays s id now saved q j new
terminal_stays (attached id) q j b t new apart = quiet_stays q _ (attach-IsQuiet id q) j t
terminal_stays (begun id now saved) q j b t new apart = begun_lem q.worker
  where
    begun_lem :
        (w : Option (ℕ × Phase)) → status_of (begin_if_free w id now saved q) j ≡ status_of q j
    begun_lem none = begin_stays id now saved q j t
    begun_lem (some _) = refl
terminal_stays (worked r now saved) q j b t new apart = worked_lem q.worker refl
  where
    worked_lem :
        (w : Option (ℕ × Phase))
        → q.worker ≡ w
        → status_of (advance_if_busy w r now saved q) j ≡ status_of q j
    worked_lem none e = refl
    worked_lem (some (id, phase)) e =
        advance_stays id phase r now saved q j
          (λ same first. apart (e ∙ λ i. some (same i, first i))) (simp e at b.follows) t
terminal_stays (cancel_requested id now saved) q j b t new apart =
    quiet_stays q _ (cancel-IsQuiet id now saved q) j t
terminal_stays (was_read id now) q j b t new apart =
    quiet_stays q _ (get_result-IsQuiet id now q) j t
terminal_stays (future_dropped id) q j b t new apart = refl
terminal_stays (shut_down now saves) q j b t new apart =
    quiet_stays q _ (shutdown-IsQuiet now saves q) j t
terminal_stays pool_closed q j b t new apart = unfold close_pool in refl
