-- ===== src/Studio/Queue/Entries.antt =====
-- The whole object that each section leaves (apps/ocr-studio/app/core/queue.py).
use predixa_learn.Prelude.{
  ℕ, ◌≡◌, refl, ap, ◌∙◌, String, Bool, true, false, Option, none, some, if◌then◌else◌, ==_refl,
  Bool-cases, inl, inr,
}
use predixa_learn.Studio.Queue.State.{cancelled, JobEntry, JobQueue, put}
use predixa_learn.Studio.Queue.Ops.{
  upsert, set_progress, notice, history_row, persist_history, unsaved_warning, unlink_input,
  drop_input,
}
use predixa_learn.Studio.Queue.Calls.{mark_cancelled}

pub entry-put : (id : ℕ) (e : JobEntry) (q : JobQueue) → (put q id e).entry id ≡ e
unfolding put
entry-put id e q = simp ==_refl

pub history-put : (id : ℕ) (e : JobEntry) (q : JobQueue) → (put q id e).history ≡ q.history
unfolding put
history-put id e q = refl

-- What `_persist_history` writes to the object.
abbrev pub after_saving : Bool → JobEntry → JobEntry
after_saving true e = record e {
  result = record e.result { history_saved = true; history_warning = none };
}
after_saving false e = record e {
  result = record e.result { history_saved = false; history_warning = some unsaved_warning };
}

pub entry-persist_history :
    (id : ℕ) (path : Option String) (saved : Bool) (q : JobQueue)
    → (persist_history id path saved q).entry id ≡ after_saving saved (q.entry id)
unfolding persist_history
entry-persist_history id path true q = entry-put id _ _
entry-persist_history id path false q = entry-put id _ _

-- One row is added if the write goes through.
pub history-persist_history :
    (id : ℕ) (path : Option String) (saved : Bool) (q : JobQueue)
    → (persist_history id path saved q).history
      ≡ (if saved then upsert (history_row (q.entry id) path) q.history else q.history)
unfolding persist_history
history-persist_history id path true q = history-put id _ _
history-persist_history id path false q = history-put id _ _

pub entry-unlink_input : (id : ℕ) (q : JobQueue) → (unlink_input id q).entry ≡ q.entry
unfolding unlink_input
entry-unlink_input id q = elim (Bool-cases (q.entry id).delete_input) [
  | inl e ↦ simp e
  | inr e ↦ simp e
]

pub history-unlink_input : (id : ℕ) (q : JobQueue) → (unlink_input id q).history ≡ q.history
unfolding unlink_input
history-unlink_input id q = elim (Bool-cases (q.entry id).delete_input) [
  | inl e ↦ simp e
  | inr e ↦ simp e
]

pub entry-drop_input :
    (id : ℕ) (q : JobQueue)
    → (drop_input id q).entry id ≡ record (q.entry id) { delete_input = false }
unfolding drop_input
entry-drop_input id q = entry-put id _ _

pub history-drop_input : (id : ℕ) (q : JobQueue) → (drop_input id q).history ≡ q.history
unfolding drop_input
history-drop_input id q = history-put id _ _ ∙ history-unlink_input id q

-- The object as `_finish_cancelled` hands it to the history.
abbrev pub cancelled_entry : ℕ → JobEntry → JobEntry
cancelled_entry now e =
    let shown =
      set_progress (notice "cancelled" "Processing was cancelled") now
        (record e { result = record e.result { cancel_requested = true; status = cancelled } }) in
    record shown { result = record shown.result { completed_at = some shown.result.updated_at } }

pub entry-mark_cancelled :
    (id now : ℕ) (saved : Bool) (q : JobQueue)
    → (mark_cancelled id now saved q).entry id
      ≡ record (after_saving saved (cancelled_entry now (q.entry id))) { delete_input = false }
unfolding mark_cancelled
entry-mark_cancelled id now saved q =
    entry-drop_input id _
    ∙ ap (λ (e : JobEntry). record e { delete_input = false })
        (entry-persist_history id none saved _ ∙ ap (after_saving saved) (entry-put id _ q))

pub history-mark_cancelled :
    (id now : ℕ) (saved : Bool) (q : JobQueue)
    → (mark_cancelled id now saved q).history ≡ (
        if saved
        then upsert (history_row (cancelled_entry now (q.entry id)) none) q.history
        else q.history)
unfolding mark_cancelled
history-mark_cancelled id now saved q =
    history-drop_input id _
    ∙ history-persist_history id none saved _
    ∙ simp (entry-put, history-put)
