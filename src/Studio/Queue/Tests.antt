-- ===== src/Studio/Queue/Tests.antt =====
-- Runs of the queue on small inputs, and the theorems about it at inputs that meet their hypotheses.
use predixa_learn.Prelude.{
  ℕ, ◌≤◌, ◌≡◌, refl, Bool, true, false, none, some, List, [], ◌∷◌, arith, count, keep, first,
  contains, without, length, ◌⊎◌,
}
use predixa_learn.Studio.Queue.State.{
  is_terminal, processing, cancelled, completed, failed, image, JobEntry, Document, JobQueue,
  Settings, status_of, put,
}
use predixa_learn.Studio.Queue.Ops.{
  ProgressUpdate, active_count, is_expired, trim, prune, set_progress, item_count, history_row,
  persist_history, unlink_input, drop_input,
}
use predixa_learn.Studio.Queue.Calls.{
  Submission, new_entry, add_key, submit, run_in_executor, attach, mark_cancelled, finish_cancelled,
  request_cancel, stop_future, cancel_active, cancel,
}
use predixa_learn.Studio.Queue.Worker.{
  Event, submitted, attached, begun, worked, cancel_requested, Reply, service_error, other_error,
  returned, at_phase, begin, enter, initialize, publish, mark_completed, show_completed,
  stamp_and_persist, warn_unsaved, clean_up, work, advance, begin_if_free, advance_if_busy, step,
  run,
}
use predixa_learn.Studio.Queue.Bound.{
  init, inflight_bound, held_status, AreNewIds, run-IsBounded, init-IsBounded,
}
use predixa_learn.Studio.Queue.Inflight.{WorkerFits, IsBounded}
use predixa_learn.Studio.Queue.Pruning.{prune_lem}
use predixa_learn.Studio.Queue.Cancel.{WasRequested, cancel_lem, cancel_overwritten}
use predixa_learn.Studio.Queue.Completion.{IsRecorded, published_completes, error_fails}
use predixa_learn.Studio.Queue.Ends.{work_on, worker_ends}
use predixa_learn.Studio.Queue.Terminal.{terminal_stays}

abbrev sheet : Submission
sheet = record {
  workflow = "text_recognition";
  input_path = "in.png";
  input_name = "in.png";
  input_kind = image;
  delete_input = true;
  remove_text = none;
  remove_terms = [];
  language = none;
  document_profile = "auto";
}

abbrev small : Settings
small = record { job_ttl_seconds = 60; max_job_history = 2; max_queued_jobs = 0 }

unfoldable blank : ℕ → JobEntry
unfolding new_entry
blank id = new_entry sheet id 0

abbrev page : Document
page = record { content = "text"; page_count = some 1; coverage_percent = none; warning_count = 0 }

-- A queue after a run, with all that the run calls.
unfoldable after : List Event → JobQueue
unfolding run step begin_if_free advance_if_busy init submit attach run_in_executor begin advance
    enter initialize work publish mark_completed show_completed stamp_and_persist warn_unsaved
    clean_up prune trim active_count add_key new_entry persist_history history_row item_count
    set_progress drop_input unlink_input put at_phase is_expired blank count keep first contains
    without cancel cancel_active request_cancel stop_future finish_cancelled mark_cancelled
after es = run es (init small blank)

-- One job from its submission to its end.
abbrev whole : List Event
whole =
    submitted sheet 7 10 true
    ∷ attached 7
    ∷ begun 7 11 true
    ∷ worked other_error 12 true
    ∷ worked other_error 13 true
    ∷ worked (returned page "m" (some "r")) 14 true
    ∷ worked other_error 15 true
    ∷ worked other_error 16 true
    ∷ worked other_error 17 true
    ∷ worked other_error 18 true
    ∷ []

whole_completes : status_of (after whole) 7 ≡ completed
unfolding after
whole_completes = refl

-- A job that is cancelled after the worker read its event, and before the worker takes the lock.
abbrev race : List Event
race =
    submitted sheet 7 10 true
    ∷ attached 7
    ∷ begun 7 11 true
    ∷ cancel_requested 7 12 true
    ∷ submitted sheet 8 13 true
    ∷ worked other_error 14 true
    ∷ []

race_revives : (status_of (after race) 7 ≡ processing) × (active_count (after race) ≡ 2)
unfolding after
race_revives = (refl, refl)

race_ids : AreNewIds race (init small blank)
unfolding after
race_ids = (refl, (tt, (tt, (tt, (refl, (tt, tt))))))

inflight_bound_example : active_count (run race (init small blank)) ≤ 2
inflight_bound_example = inflight_bound small blank race race_ids

held_status_example : WorkerFits (run race (init small blank)).worker (run race (init small blank))
held_status_example = held_status small blank race race_ids

prune_lem_example :
    ((k : ℕ)
      → is_terminal (status_of (after whole) k) ≡ false
      → contains k (prune 20 (after whole)).jobs ≡ contains k (after whole).jobs)
    × ((k : ℕ)
        → contains k (prune 20 (after whole)).jobs ≡ true
        → (contains k (after whole).jobs ≡ true) × (is_expired (after whole) 20 k ≡ false))
    × ((length (prune 20 (after whole)).jobs ≤ (after whole).settings.max_job_history)
        ⊎ (first (λ k. is_terminal (status_of (after whole) k)) (prune 20 (after whole)).jobs
            ≡ none))
prune_lem_example = prune_lem 20 (after whole)

-- A job whose workflow runs.
abbrev started : List Event
started =
    submitted sheet 7 10 true
    ∷ attached 7
    ∷ begun 7 11 true
    ∷ worked other_error 12 true
    ∷ worked other_error 13 true
    ∷ []

abbrev halfway : ProgressUpdate
halfway = record {
  stage = "ocr";
  message = "page 1";
  current_page = some 1;
  total_pages = some 2;
  completed_pages = some 0;
}

cancel_lem_example :
    ((contains 7 (prune 20 (after started)).jobs ≡ false)
      × (cancel 7 20 true (after started) ≡ (prune 20 (after started), none)))
    ⊎ (((contains 7 (prune 20 (after started)).jobs ≡ true)
          × (is_terminal (status_of (after started) 7) ≡ true)
          × (cancel 7 20 true (after started)
              ≡ (prune 20 (after started), some ((after started).entry 7).result)))
        ⊎ ((contains 7 (prune 20 (after started)).jobs ≡ true)
            × (is_terminal (status_of (after started) 7) ≡ false)
            × WasRequested ((after started).entry 7) ((cancel 7 20 true (after started)).0.entry 7)
            × ((cancel 7 20 true (after started)).1
                ≡ some ((cancel 7 20 true (after started)).0.entry 7).result)))
cancel_lem_example = cancel_lem 7 20 true (after started)

-- A job that the worker has looked at only.
abbrev looked : List Event
looked = submitted sheet 7 10 true ∷ attached 7 ∷ begun 7 11 true ∷ []

cancel_overwritten_example :
    (status_of (cancel 7 20 true (after looked)).0 7 ≡ cancelled)
    × (status_of (step (worked other_error 21 true) (cancel 7 20 true (after looked)).0) 7
        ≡ processing)
unfolding after
cancel_overwritten_example =
    cancel_overwritten 7 20 true (after looked) refl refl refl other_error 21 true

-- A job whose artifacts are published.
abbrev handed_back : List Event
handed_back =
    submitted sheet 7 10 true
    ∷ attached 7
    ∷ begun 7 11 true
    ∷ worked other_error 12 true
    ∷ worked other_error 13 true
    ∷ worked (returned page "m" (some "r")) 14 true
    ∷ []

published_completes_example : IsRecorded 7 7 16 completed (some "r") true (after handed_back) (
    work_on
      ((other_error, 15, true) ∷ (other_error, 16, true) ∷ (other_error, 17, true) ∷ [])
      (after handed_back))
unfolding after
published_completes_example =
    published_completes 7 (after handed_back) other_error other_error other_error 15 16 17 true true
      true (some 1) (some "r") refl

error_fails_example : IsRecorded 7 7 16 failed none true (after started) (
    work_on
      ((service_error "bad" "InputLimitError", 15, true)
        ∷ (other_error, 16, true)
        ∷ (other_error, 17, true)
        ∷ [])
      (after started))
unfolding after
error_fails_example =
    error_fails 7 (after started) other_error other_error other_error 15 16 17 true true true "bad"
      "InputLimitError" refl

abbrev replies : List (Reply × ℕ × Bool)
replies =
    (other_error, 30, true)
    ∷ (other_error, 31, true)
    ∷ (other_error, 32, false)
    ∷ (other_error, 33, true)
    ∷ (other_error, 34, true)
    ∷ (other_error, 35, true)
    ∷ (other_error, 36, true)
    ∷ []

worker_ends_example : (work_on replies (after looked)).worker ≡ none
worker_ends_example =
    worker_ends replies (after looked) (tt, (tt, (tt, (tt, (tt, (tt, (tt, tt))))))) (omega arith)

whole_ids : AreNewIds whole (init small blank)
unfolding after
whole_ids = (refl, (tt, (tt, (tt, (tt, (tt, (tt, (tt, (tt, (tt, tt))))))))))

whole-IsBounded : IsBounded (run whole (init small blank))
whole-IsBounded = run-IsBounded whole (init small blank) whole_ids (init-IsBounded small blank)

terminal_stays_example :
    status_of (step (cancel_requested 7 20 true) (run whole (init small blank))) 7
    ≡ status_of (run whole (init small blank)) 7
unfolding after
terminal_stays_example =
    terminal_stays (cancel_requested 7 20 true) (run whole (init small blank)) 7 whole-IsBounded
      refl tt (λ e. cc)
