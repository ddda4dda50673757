-- ===== src/Studio/Queue/Ends.antt =====
-- `_execute` runs to its end (apps/ocr-studio/app/core/queue.py): between two reports of progress
-- there is nothing that it can wait for but the workflow.
use predixa_learn.Prelude.{
  ℕ, ◌-◌, ◌≤◌, ◌<◌, ◌≡◌, refl, Bool, Option, none, some, List, [], ◌∷◌, arith, length,
}
use predixa_learn.Studio.Queue.State.{
  Phase, checked, entered, working, published, completed_marked, completed_shown, failed_marked,
  failed_shown, ending, JobQueue,
}
use predixa_learn.Studio.Queue.Worker.{
  worked, Reply, progress, returned, service_error, other_error, at_phase, enter, initialize,
  publish, mark_completed, mark_failed, show_completed, show_failed, clean_up, work, advance,
  advance_if_busy, step,
}

-- How many more sections `_execute` has at most, reports of progress not counted.
abbrev pub sections_left : Option (ℕ × Phase) → ℕ
sections_left none = 0
sections_left (some (_, ending)) = 1
sections_left (some (_, completed_shown _)) = 2
sections_left (some (_, failed_shown)) = 2
sections_left (some (_, completed_marked _ _)) = 3
sections_left (some (_, failed_marked _)) = 3
sections_left (some (_, published _ _)) = 4
sections_left (some (_, working)) = 5
sections_left (some (_, entered)) = 6
sections_left (some (_, checked)) = 7

-- What is no report of progress.
abbrev pub IsFinal : Reply → Type 0
IsFinal (progress _) = ⊥
IsFinal _ = Unit

left-work :
    (id : ℕ) (r : Reply) (now : ℕ) (saved : Bool) (q : JobQueue)
    → IsFinal r
    → sections_left (work id r now saved q).worker ≤ 4
unfolding work publish mark_failed at_phase
left-work id (progress u) now saved q f = absurd f
left-work id (returned d m p) now saved q f = omega arith
left-work id (service_error m c) now saved q f = omega arith
left-work id other_error now saved q f = omega arith

left-advance :
    (id : ℕ) (phase : Phase) (r : Reply) (now : ℕ) (saved : Bool) (q : JobQueue)
    → IsFinal r
    → sections_left (advance id phase r now saved q).worker < sections_left (some (id, phase))
unfolding advance enter initialize mark_completed show_completed show_failed clean_up at_phase
left-advance id working r now saved q f = omega (arith, left-work id r now saved q f)
left-advance id _ r now saved q f = omega arith

left-step :
    (r : Reply) (now : ℕ) (saved : Bool) (q : JobQueue)
    → IsFinal r
    → sections_left (step (worked r now saved) q).worker ≤ sections_left q.worker - 1
unfolding step advance_if_busy
left-step r now saved q f = busy_lem q.worker refl
  where
    busy_lem :
        (w : Option (ℕ × Phase))
        → q.worker ≡ w
        → sections_left (advance_if_busy w r now saved q).worker ≤ sections_left w - 1
    busy_lem none e = rw e (omega arith)
    busy_lem (some (id, phase)) e = omega (arith, left-advance id phase r now saved q f)

-- The sections of the worker thread alone, with a reply and a clock reading for each.
unfoldable pub work_on : List (Reply × ℕ × Bool) → JobQueue → JobQueue
work_on [] q = q
work_on ((r, now, saved) ∷ rs) q = work_on rs (step (worked r now saved) q)

abbrev pub AreFinal : List (Reply × ℕ × Bool) → Type 0
AreFinal [] = Unit
AreFinal ((r, _, _) ∷ rs) = IsFinal r × AreFinal rs

ends :
    (rs : List (Reply × ℕ × Bool)) (q : JobQueue)
    → AreFinal rs
    → sections_left (work_on rs q).worker ≤ sections_left q.worker - length rs
unfolding work_on
ends [] q f = omega arith
ends ((r, now, saved) ∷ rs) q f =
    omega (arith, left-step r now saved q f.0, ends rs (step (worked r now saved) q) f.1)

left_bound : (w : Option (ℕ × Phase)) → sections_left w ≤ 7
left_bound w = ground arith

free_of_left : (w : Option (ℕ × Phase)) → sections_left w ≤ 0 → w ≡ none
free_of_left w h = ground arith

-- Wherever the worker stands in `_execute`, once the workflow reports no more progress the thread is
-- free after seven sections, whatever the workflow returns or raises and whichever writes to the
-- history fail.
pub worker_ends :
    (rs : List (Reply × ℕ × Bool)) (q : JobQueue)
    → AreFinal rs
    → 7 ≤ length rs
    → (work_on rs q).worker ≡ none
worker_ends rs q f h = free_of_left _ (omega (arith, ends rs q f, left_bound q.worker))
