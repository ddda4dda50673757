-- ===== src/Studio/Teaching/Corrections.antt =====
-- Corrections and their entity tags (apps/ocr-studio/app/teaching/store.py, `get_correction`,
-- `update_correction` and `revert_correction`). The update reads the correction on one connection and
-- writes on another, so it takes the table at the read and the table at the write.
use predixa_learn.Prelude.{
  ℕ, ◌+◌, String, Bool, true, false, not, ◌&&◌, Option, none, some, List, if◌then◌else◌, ◌==◌, ltb,
  map, take, first, count, Text, text, same,
}

-- `_CORRECTION_STATUSES`
pub data CorrectionStatus : Type 0 where
  draft reviewed approved rejected reverted : CorrectionStatus

abbrev pub is_reverted : CorrectionStatus → Bool
is_reverted reverted = true
is_reverted _ = false

-- The condition of the unique index on corrections
abbrev pub is_active : CorrectionStatus → Bool
is_active draft = true
is_active reviewed = true
is_active approved = true
is_active _ = false

unfoldable pub correction_status : Text → Option CorrectionStatus
correction_status t =
    if same t (text "draft")
    then some draft
    else if same t (text "reviewed")
    then some reviewed
    else if same t (text "approved")
    then some approved
    else if same t (text "rejected")
    then some rejected
    else if same t (text "reverted")
    then some reverted
    else none

pub record Correction : Type 0 where
  pub correction_id : Text
  pub job_id : Text
  pub target_kind : Text
  pub target_id : Text
  pub replacement : String
  pub reason : Text
  pub actor : Text
  pub status : CorrectionStatus
  pub source_hash : Text
  pub version : ℕ
  pub updated_at : ℕ

-- The corrections, and the hash of each job's current evidence, `none` where the history has no job.
pub record Table : Type 0 where
  pub corrections : List Correction
  pub source_hash : Text → Option Text

-- KeyError, TeachingConflictError, TeachingValidationError and sqlite3's IntegrityError
pub data StoreError : Type 0 where
  missing conflict invalid_value integrity : StoreError

pub data Outcome (A : Type 0) : Type 0 where
  failed : StoreError → Outcome A
  done : A → Outcome A

abbrev with_hash : Correction → Option Text → Outcome (Correction × Bool)
with_hash c none = failed missing
with_hash c (some h) = done (c, not (same c.source_hash h))

abbrev with_row : Table → Option Correction → Outcome (Correction × Bool)
with_row t none = failed missing
with_row t (some c) = with_hash c (t.source_hash c.job_id)

-- `get_correction`: the row, and whether it is stale
unfoldable pub get_correction : Text → Table → Outcome (Correction × Bool)
get_correction id t = with_row t (first (λ (c : Correction). same c.correction_id id) t.corrections)

-- The header `"correction-…-v…"`: the id it names and its number, `none` where that is not one.
pub record Etag : Type 0 where
  pub names : Text
  pub number : Option ℕ

-- `_etag_version`, where `none` is the conflict
unfoldable pub etag_version : Option Etag → Text → Option ℕ
etag_version none id = none
etag_version (some e) id = if same e.names id then e.number else none

-- The payload; what it does not give stays.
pub record CorrectionUpdate : Type 0 where
  pub status : Option Text
  pub replacement : Option String
  pub reason : Option Text
  pub actor : Option Text

abbrev if_given {ℓ} : {A : Type ℓ} → Option A → A → A
if_given none old = old
if_given (some a) old = a

abbrev pub is_row : Text → ℕ → Correction → Bool
is_row id version c = same c.correction_id id && c.version == version

unfoldable pub set_row :
    CorrectionUpdate → CorrectionStatus → Correction → ℕ → Correction → Correction
set_row u status existing now c = record c {
  replacement = if_given u.replacement existing.replacement;
  reason = take 1000 (if_given u.reason existing.reason);
  actor = take 128 (if_given u.actor (text "local-teacher"));
  status = status;
  version = c.version + 1;
  updated_at = now;
}

unfoldable pub update_rows :
    Text → ℕ → (Correction → Correction) → List Correction → List Correction
update_rows id version f cs = map (λ c. if is_row id version c then f c else c) cs

abbrev is_active_at : Correction → Correction → Bool
is_active_at c d =
    is_active d.status
    && same d.job_id c.job_id
    && same d.target_kind c.target_kind
    && same d.target_id c.target_id

-- Two active corrections for one target, which the unique index refuses
unfoldable pub clashes : List Correction → Correction → Bool
clashes cs c = ltb 1 (count (is_active_at c) cs)

-- The write: `UPDATE … WHERE correction_id = ? AND version = ?`
unfoldable pub write_update :
    CorrectionUpdate → CorrectionStatus → Correction → ℕ → Text → ℕ → Table → Outcome Table
write_update u status existing now id version t =
    let cs = update_rows id version (set_row u status existing now) t.corrections in
    if not (count (is_row id version) t.corrections == 1)
    then failed conflict
    else if clashes cs existing
    then failed integrity
    else done (record t { corrections = cs })

abbrev pub with_correction_status :
    CorrectionUpdate
    → Bool
    → Correction
    → ℕ
    → Text
    → ℕ
    → Table
    → Option CorrectionStatus
    → Outcome Table
with_correction_status u allow_revert existing now id version t none = failed invalid_value
with_correction_status u allow_revert existing now id version t (some status) =
    if is_reverted status && not allow_revert
    then failed invalid_value
    else write_update u status existing now id version t

abbrev chosen_status : Option Text → CorrectionStatus → Option CorrectionStatus
chosen_status none old = some old
chosen_status (some t) old = correction_status t

abbrev pub with_version :
    CorrectionUpdate → Bool → Text → ℕ → Table → Correction × Bool → Option ℕ → Outcome Table
with_version u allow_revert id now t existing none = failed conflict
with_version u allow_revert id now t (existing, stale) (some version) =
    if not (version == existing.version)
    then failed conflict
    else if stale
    then failed conflict
    else with_correction_status u allow_revert existing now id version t
        (chosen_status u.status existing.status)

abbrev pub with_existing :
    CorrectionUpdate
    → Bool
    → Text
    → Option Etag
    → ℕ
    → Table
    → Outcome (Correction × Bool)
    → Outcome Table
with_existing u allow_revert id if_match now t (failed e) = failed e
with_existing u allow_revert id if_match now t (done existing) =
    with_version u allow_revert id now t existing (etag_version if_match id)

-- `update_correction`, which reads the table `before` and writes to the table `t`
unfoldable pub update_correction :
    CorrectionUpdate → Bool → Text → Option Etag → ℕ → Table → Table → Outcome Table
update_correction u allow_revert id if_match now before t =
    with_existing u allow_revert id if_match now t (get_correction id before)

-- `revert_correction`
unfoldable pub revert_correction : Text → Text → Option Etag → ℕ → Table → Table → Outcome Table
revert_correction id actor if_match now before t =
    update_correction
      (record {
        status = some (text "reverted");
        replacement = none;
        reason = none;
        actor = some actor;
      })
      true id if_match now before t
