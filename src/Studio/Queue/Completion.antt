-- ===== src/Studio/Queue/Completion.antt =====
-- From a published document to a finished job, and from an error to a failed one
-- (apps/ocr-studio/app/core/queue.py, the ends of `_execute`).
use predixa_learn.Prelude.{
  keep, count, first, not, List, ◌≤◌, ==_refl, Bool-cases, inl, inr, arith, ℕ, suc, subst, sym, ◌≡◌,
  refl, ap, ◌∙◌, String, Bool, true, false, Option, none, some, [], ◌∷◌, if◌then◌else◌,
}
use predixa_learn.Studio.Queue.State.{
  JobStatus, completed, failed, JobEntry, HistoryRow, Phase, working, published, completed_marked,
  completed_shown, failed_marked, failed_shown, ending, JobQueue, status_of,
}
use predixa_learn.Studio.Queue.Ops.{
  is_row_of, if_given, updated_row, upsert, set_progress, history_row,
}
use predixa_learn.Studio.Queue.Worker.{
  Reply, service_error, at_phase, mark_completed, mark_failed, show_completed, show_failed,
  stamp_and_persist, warn_unsaved, work, advance,
}
use predixa_learn.Studio.Queue.Entries.{
  entry-put, history-put, entry-persist_history, history-persist_history, after_saving,
}
use predixa_learn.Studio.Queue.Ends.{work_on}
use predixa_learn.Studio.Queue.Cancel.{step-busy}

-- The object and the history after `_persist_history` with the stamp.
abbrev stamped : JobEntry → JobEntry
stamped e = record e { result = record e.result { completed_at = some e.result.updated_at } }

entry-stamp :
    (id : ℕ) (path : Option String) (saved : Bool) (q : JobQueue)
    → (stamp_and_persist id path saved q).entry id ≡ after_saving saved (stamped (q.entry id))
unfolding stamp_and_persist
entry-stamp id path saved q =
    entry-persist_history id path saved _ ∙ ap (after_saving saved) (entry-put id _ q)

history-stamp :
    (id : ℕ) (path : Option String) (saved : Bool) (q : JobQueue)
    → (stamp_and_persist id path saved q).history
      ≡ (if saved then upsert (history_row (stamped (q.entry id)) path) q.history else q.history)
unfolding stamp_and_persist
history-stamp id path saved q =
    history-persist_history id path saved _ ∙ simp (entry-put, history-put)

-- The history has one row for the job, with this status and time, and the path where there is one; the
-- rows of other jobs are as they were.
pub record IsStored (job now : ℕ) (status : JobStatus) (path : Option String)
    (rows rows' : List HistoryRow) : Type 0 where
  pub stored : HistoryRow
  pub found : first (is_row_of job) rows' ≡ some stored
  pub status_is : stored.status ≡ status
  pub stamp_is : stored.completed_at ≡ some now
  pub path_is : (p : String) → path ≡ some p → stored.result_path ≡ some p
  pub others : keep (λ r. not (is_row_of job r)) rows' ≡ keep (λ r. not (is_row_of job r)) rows
  pub one_row : count (is_row_of job) rows ≤ 1 → count (is_row_of job) rows' ≡ 1

module _ (now : ℕ) (status : JobStatus) (path : Option String) (row : HistoryRow)
    (status_is : row.status ≡ status) (stamp_is : row.completed_at ≡ some now)
    (path_is : row.result_path ≡ path) where
  path_given :
      (old : Option String) (p : String) → path ≡ some p → if_given row.result_path old ≡ some p
  path_given old p e = rw (path_is, e) refl

  upsert-IsStored :
      (rows : List HistoryRow) → IsStored row.job_id now status path rows (upsert row rows)
  unfolding upsert updated_row first keep count
  upsert-IsStored [] = record {
    stored = row;
    found = simp (==_refl row.job_id);
    status_is = status_is;
    stamp_is = stamp_is;
    path_is = λ p e. path_is ∙ e;
    others = simp (==_refl row.job_id);
    one_row = λ h. simp (==_refl row.job_id);
  }
  upsert-IsStored (r ∷ rs) = elim (Bool-cases (is_row_of row.job_id r)) [
    | inl e ↦ simp e (record {
      stored = updated_row row r;
      found = simp (==_refl row.job_id);
      status_is = status_is;
      stamp_is = stamp_is;
      path_is = path_given r.result_path;
      others = simp (e, ==_refl row.job_id);
      one_row = λ h.
          let k : suc (count (is_row_of row.job_id) rs) ≤ 1 = simp e at h in
          simp (==_refl row.job_id) (omega (arith, k));
    })
    | inr e ↦
        let k = upsert-IsStored rs in
        simp e (record {
          stored = k.stored;
          found = simp e k.found;
          status_is = k.status_is;
          stamp_is = k.stamp_is;
          path_is = k.path_is;
          others = simp e (ap (◌∷◌ r) k.others);
          one_row = λ h. simp e (k.one_row (simp e at h));
        })
  ]

-- What is to hold of the job and of the history when the worker comes to its last section.
pub record IsRecorded (id job now : ℕ) (status : JobStatus) (path : Option String) (saved : Bool)
    (q q' : JobQueue) : Type 0 where
  pub status_is : status_of q' id ≡ status
  pub stamp_is : (q'.entry id).result.completed_at ≡ some now
  pub worker_is : q'.worker ≡ some (id, ending)
  pub if_saved : saved ≡ true → IsStored job now status path q.history q'.history
  pub if_not_saved : saved ≡ false → q'.history ≡ q.history

after_saving_keeps :
    (saved : Bool) (e : JobEntry)
    → ((after_saving saved e).result.status ≡ e.result.status)
      × ((after_saving saved e).result.completed_at ≡ e.result.completed_at)
after_saving_keeps true e = (refl, refl)
after_saving_keeps false e = (refl, refl)

-- The stamp of a job that was marked and shown.
module _ (id job now : ℕ) (status : JobStatus) (path : Option String) (saved : Bool)
    (q : JobQueue) where
  record_stamped :
      status_of q id ≡ status
      → (q.entry id).result.updated_at ≡ now
      → (q.entry id).result.job_id ≡ job
      → IsRecorded id job now status path saved q
          (at_phase (stamp_and_persist id path saved q) id ending)
  unfolding at_phase history_row
  record_stamped s u j = record {
    status_is =
        ap (λ (e : JobEntry). e.result.status) (entry-stamp id path saved q)
        ∙ (after_saving_keeps saved _).0
        ∙ s;
    stamp_is =
        ap (λ (e : JobEntry). e.result.completed_at) (entry-stamp id path saved q)
        ∙ (after_saving_keeps saved _).1
        ∙ ap some u;
    worker_is = refl;
    if_saved = λ e.
        subst (IsStored job now status path q.history)
          (sym (history-stamp id path saved q ∙ simp e))
          (subst (λ k. IsStored k now status path q.history (upsert row q.history)) j
            (upsert-IsStored now status path row s (ap some u) refl q.history));
    if_not_saved = λ e. history-stamp id path saved q ∙ simp e;
  }
    where
      row : HistoryRow
      row = history_row (stamped (q.entry id)) path

-- The warning about an unsaved result changes none of this.
record_warned :
    (id job now : ℕ) (status : JobStatus) (path : Option String) (saved : Bool) (q x : JobQueue)
    → IsRecorded id job now status path saved q (at_phase x id ending)
    → IsRecorded id job now status path saved q (at_phase (warn_unsaved id path x) id ending)
unfolding warn_unsaved at_phase
record_warned id job now status (some p) saved q x h = h
record_warned id job now status none saved q x h = record {
  status_is = ap (λ (e : JobEntry). e.result.status) (entry-put id _ x) ∙ h.status_is;
  stamp_is = ap (λ (e : JobEntry). e.result.completed_at) (entry-put id _ x) ∙ h.stamp_is;
  worker_is = refl;
  if_saved =
      λ e. subst (IsStored job now status none q.history) (sym (history-put id _ x)) (h.if_saved e);
  if_not_saved = λ e. history-put id _ x ∙ h.if_not_saved e;
}

-- The history only changes by the last of the three sections.
record_from :
    (id job now : ℕ) (status : JobStatus) (path : Option String) (saved : Bool) (a q q' : JobQueue)
    → q.history ≡ a.history
    → IsRecorded id job now status path saved q q'
    → IsRecorded id job now status path saved a q'
record_from id job now status path saved a q q' e h = record {
  status_is = h.status_is;
  stamp_is = h.stamp_is;
  worker_is = h.worker_is;
  if_saved = λ s. subst (λ rows. IsStored job now status path rows q'.history) e (h.if_saved s);
  if_not_saved = λ s. h.if_not_saved s ∙ e;
}

marked_completed :
    (id : ℕ) (total : Option ℕ) (path : Option String) (q : JobQueue)
    → (status_of (mark_completed id total path q) id ≡ completed)
      × ((mark_completed id total path q).worker ≡ some (id, completed_marked total path))
      × ((mark_completed id total path q).history ≡ q.history)
      × (((mark_completed id total path q).entry id).result.job_id ≡ (q.entry id).result.job_id)
unfolding mark_completed at_phase
marked_completed id total path q = (
  ap (λ (e : JobEntry). e.result.status) (entry-put id _ q),
  refl,
  history-put id _ q,
  ap (λ (e : JobEntry). e.result.job_id) (entry-put id _ q),
)

marked_failed :
    (id : ℕ) (message code : String) (q : JobQueue)
    → (status_of (mark_failed id message code q) id ≡ failed)
      × ((mark_failed id message code q).worker ≡ some (id, failed_marked message))
      × ((mark_failed id message code q).history ≡ q.history)
      × (((mark_failed id message code q).entry id).result.job_id ≡ (q.entry id).result.job_id)
unfolding mark_failed at_phase
marked_failed id message code q = (
  ap (λ (e : JobEntry). e.result.status) (entry-put id _ q),
  refl,
  history-put id _ q,
  ap (λ (e : JobEntry). e.result.job_id) (entry-put id _ q),
)

-- A section that shows the outcome at `now`.
abbrev WasShown : ℕ → ℕ → Phase → JobQueue → JobQueue → Type 0
WasShown id now phase q q' =
    (status_of q' id ≡ status_of q id)
    × ((q'.entry id).result.updated_at ≡ now)
    × (q'.worker ≡ some (id, phase))
    × (q'.history ≡ q.history)
    × ((q'.entry id).result.job_id ≡ (q.entry id).result.job_id)

shown_completed :
    (id : ℕ) (total : Option ℕ) (path : Option String) (now : ℕ) (q : JobQueue)
    → WasShown id now (completed_shown path) q (show_completed id total path now q)
unfolding show_completed at_phase set_progress
shown_completed id total path now q = (
  ap (λ (e : JobEntry). e.result.status) (entry-put id _ q),
  ap (λ (e : JobEntry). e.result.updated_at) (entry-put id _ q),
  refl,
  history-put id _ q,
  ap (λ (e : JobEntry). e.result.job_id) (entry-put id _ q),
)

shown_failed :
    (id : ℕ) (message : String) (now : ℕ) (q : JobQueue)
    → WasShown id now failed_shown q (show_failed id message now q)
unfolding show_failed at_phase set_progress
shown_failed id message now q = (
  ap (λ (e : JobEntry). e.result.status) (entry-put id _ q),
  ap (λ (e : JobEntry). e.result.updated_at) (entry-put id _ q),
  refl,
  history-put id _ q,
  ap (λ (e : JobEntry). e.result.job_id) (entry-put id _ q),
)

module _ (id : ℕ) (q : JobQueue) (r1 r2 r3 : Reply) (t1 t2 t3 : ℕ) (s1 s2 s3 : Bool) where
  abbrev pub job : ℕ
  job = (q.entry id).result.job_id

  -- When the artifacts of a job are published and its input is removed, the next three sections of the
  -- worker complete the job with the time of the second one. Where the write to the history goes
  -- through, the job has one row there (if it had at most one), with this status, this time and the path
  -- of the saved result if there is one, and the rows of other jobs are as before; where it fails, the
  -- history is as before.
  pub published_completes :
      (total : Option ℕ) (path : Option String)
      → q.worker ≡ some (id, published total path)
      → IsRecorded id job t2 completed path s3 q
          (work_on ((r1, t1, s1) ∷ (r2, t2, s2) ∷ (r3, t3, s3) ∷ []) q)
  unfolding work_on advance
  published_completes total path w =
      let q1 = mark_completed id total path q in
      let q2 = show_completed id total path t2 q1 in
      let m = marked_completed id total path q in
      let h = shown_completed id total path t2 q1 in
      rw (step-busy r1 t1 s1 q id (published total path) w) (
        rw (step-busy r2 t2 s2 q1 id (completed_marked total path) m.1) (
          rw (step-busy r3 t3 s3 q2 id (completed_shown path) h.2) (
            record_from id job t2 completed path s3 q q2 _ (h.3 ∙ m.2) (
              record_warned id job t2 completed path s3 q2 _
                (record_stamped id job t2 completed path s3 q2 (h.0 ∙ m.0) h.1 (h.4 ∙ m.3))))))

  -- When the workflow or the artifact builder raises an `OCRServiceError`, the next three sections
  -- of the worker fail the job with the time of the second one. Where the write to the history goes
  -- through, the job has one row there (if it had at most one), with this status and this time, and the
  -- rows of other jobs are as before; where it fails, the history is as before.
  pub error_fails :
      (message code : String)
      → q.worker ≡ some (id, working)
      → IsRecorded id job t2 failed none s3 q
          (work_on ((service_error message code, t1, s1) ∷ (r2, t2, s2) ∷ (r3, t3, s3) ∷ []) q)
  unfolding work_on advance work
  error_fails message code w =
      let q1 = mark_failed id message code q in
      let q2 = show_failed id message t2 q1 in
      let m = marked_failed id message code q in
      let h = shown_failed id message t2 q1 in
      rw (step-busy (service_error message code) t1 s1 q id working w) (
        rw (step-busy r2 t2 s2 q1 id (failed_marked message) m.1) (
          rw (step-busy r3 t3 s3 q2 id failed_shown h.2) (
            record_from id job t2 failed none s3 q q2 _ (h.3 ∙ m.2)
              (record_stamped id job t2 failed none s3 q2 (h.0 ∙ m.0) h.1 (h.4 ∙ m.3)))))
