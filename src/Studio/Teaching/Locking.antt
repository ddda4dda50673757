-- ===== src/Studio/Teaching/Locking.antt =====
-- No update of a correction is lost (apps/ocr-studio/app/teaching/store.py, `update_correction`).
use predixa_learn.Prelude.{
  ℕ, ◌≡◌, refl, ap, subst, ◌∙◌, Bool, true, false, not, ◌&&◌, Option, none, some, List, [], ◌∷◌,
  if◌then◌else◌, ◌==◌, count, Text, arith,
}
use predixa_learn.Studio.Teaching.Corrections.{
  CorrectionStatus, Correction, Table, StoreError, conflict, Outcome, failed, done, get_correction,
  Etag, etag_version, CorrectionUpdate, is_row, is_reverted, set_row, update_rows, clashes,
  write_update, with_correction_status, with_version, with_existing, update_correction,
}

-- After the write no row has the old version.
count-update_rows :
    (u : CorrectionUpdate) (status : CorrectionStatus) (existing : Correction) (now : ℕ) (id : Text)
    (version : ℕ) (cs : List Correction)
    → count (is_row id version) (update_rows id version (set_row u status existing now) cs) ≡ 0
unfolding count update_rows set_row
count-update_rows u status existing now id version [] = refl
count-update_rows u status existing now id version (c ∷ cs) =
    ground (arith, count-update_rows u status existing now id version cs)

abbrev pub is_failed : Outcome Table → Bool
is_failed (failed e) = true
is_failed (done t) = false

-- What a successful write did.
pub record IsWritten (id : Text) (version : ℕ) (t t' : Table) : Type 0 where
  pub there : count (is_row id version) t.corrections ≡ 1
  pub gone : count (is_row id version) t'.corrections ≡ 0

guard_passed :
    (b : Bool) (e : StoreError) (r : Outcome Table) (t' : Table)
    → (if b then failed e else r) ≡ done t'
    → (b ≡ false) × (r ≡ done t')
guard_passed true e r t' h = absurd (ground arith)
guard_passed false e r t' h = (refl, h)

abbrev table_of : Table → Outcome Table → Table
table_of t (failed e) = t
table_of t (done t') = t'

write-IsWritten :
    (u : CorrectionUpdate) (status : CorrectionStatus) (existing : Correction) (now : ℕ) (id : Text)
    (version : ℕ) (t t' : Table)
    → write_update u status existing now id version t ≡ done t'
    → IsWritten id version t t'
unfolding write_update
write-IsWritten u status existing now id version t t' h =
    let found = guard_passed (not (count (is_row id version) t.corrections == 1)) conflict _ t' h in
    let clear =
      guard_passed
        (clashes (update_rows id version (set_row u status existing now) t.corrections) existing) _
        _ t' found.1 in
    record {
      there = ground (arith, found.0);
      gone =
          subst (λ (x : Table). count (is_row id version) x.corrections ≡ 0)
            (ap (table_of t) clear.1)
            (count-update_rows u status existing now id version t.corrections);
    }

status-IsWritten :
    (u : CorrectionUpdate) (allow_revert : Bool) (existing : Correction) (now : ℕ) (id : Text)
    (version : ℕ) (t t' : Table) (o : Option CorrectionStatus)
    → with_correction_status u allow_revert existing now id version t o ≡ done t'
    → IsWritten id version t t'
status-IsWritten u allow_revert existing now id version t t' none h = absurd (ground arith)
status-IsWritten u allow_revert existing now id version t t' (some status) h =
    write-IsWritten u status existing now id version t t'
      (guard_passed (is_reverted status && not allow_revert) _ _ t' h).1

version-IsWritten :
    (u : CorrectionUpdate) (allow_revert : Bool) (id : Text) (now : ℕ) (t t' : Table)
    (existing : Correction × Bool) (o : Option ℕ)
    → with_version u allow_revert id now t existing o ≡ done t'
    → (version : ℕ) × (o ≡ some version)
      × (version ≡ existing.0.version)
      × (existing.1 ≡ false)
      × IsWritten id version t t'
version-IsWritten u allow_revert id now t t' existing none h = absurd (ground arith)
version-IsWritten u allow_revert id now t t' existing (some version) h =
    let current = guard_passed (not (version == existing.0.version)) conflict _ t' h in
    let fresh = guard_passed existing.1 conflict _ t' current.1 in
    (
      version,
      refl,
      ground (arith, current.0),
      fresh.0,
      status-IsWritten u allow_revert existing.0 now id version t t' _ fresh.1,
    )

guard_fails :
    (b : Bool) (e : StoreError) (r : Outcome Table)
    → is_failed r ≡ true
    → is_failed (if b then failed e else r) ≡ true
guard_fails true e r h = refl
guard_fails false e r h = h

-- An update of a table in which no row of the id has the version that the tag names.
late_write :
    (u : CorrectionUpdate) (status : CorrectionStatus) (existing : Correction) (now : ℕ) (id : Text)
    (version : ℕ) (t : Table)
    → count (is_row id version) t.corrections ≡ 0
    → is_failed (write_update u status existing now id version t) ≡ true
unfolding write_update
late_write u status existing now id version t gone = simp gone

late_status :
    (u : CorrectionUpdate) (allow_revert : Bool) (existing : Correction) (now : ℕ) (id : Text)
    (version : ℕ) (t : Table) (o : Option CorrectionStatus)
    → count (is_row id version) t.corrections ≡ 0
    → is_failed (with_correction_status u allow_revert existing now id version t o) ≡ true
late_status u allow_revert existing now id version t none gone = refl
late_status u allow_revert existing now id version t (some status) gone =
    guard_fails (is_reverted status && not allow_revert) _ _
      (late_write u status existing now id version t gone)

late_version :
    (u : CorrectionUpdate) (allow_revert : Bool) (id : Text) (now : ℕ) (t : Table)
    (existing : Correction × Bool) (version : ℕ)
    → count (is_row id version) t.corrections ≡ 0
    → is_failed (with_version u allow_revert id now t existing (some version)) ≡ true
late_version u allow_revert id now t existing version gone =
    guard_fails (not (version == existing.0.version)) _ _
      (guard_fails existing.1 _ _ (late_status u allow_revert existing.0 now id version t _ gone))

late_update :
    (u : CorrectionUpdate) (allow_revert : Bool) (id : Text) (if_match : Option Etag) (now : ℕ)
    (before t : Table) (version : ℕ)
    → etag_version if_match id ≡ some version
    → count (is_row id version) t.corrections ≡ 0
    → is_failed (update_correction u allow_revert id if_match now before t) ≡ true
unfolding update_correction
late_update u allow_revert id if_match now before t version tag gone =
    found (get_correction id before)
  where
    found :
        (r : Outcome (Correction × Bool))
        → is_failed (with_existing u allow_revert id if_match now t r) ≡ true
    found (failed e) = refl
    found (done existing) =
        ap (λ o. is_failed (with_version u allow_revert id now t existing o)) tag
        ∙ late_version u allow_revert id now t existing version gone

-- No update is lost: if an update succeeds, then the tag named the version that the correction had
-- when it was read, that was not stale, and one row still had it when it was written; and from then
-- on every other update with this tag fails, whatever it changes and whenever it read the table.
pub update_correction_lem :
    (u : CorrectionUpdate) (allow_revert : Bool) (id : Text) (if_match : Option Etag) (now : ℕ)
    (before t t' : Table)
    → update_correction u allow_revert id if_match now before t ≡ done t'
    → (version : ℕ) × (existing : Correction) × (etag_version if_match id ≡ some version)
      × (get_correction id before ≡ done (existing, false))
      × (version ≡ existing.version)
      × (count (is_row id version) t.corrections ≡ 1)
      × ((u' : CorrectionUpdate) (allow_revert' : Bool) (now' : ℕ) (before' : Table)
          → is_failed (update_correction u' allow_revert' id if_match now' before' t') ≡ true)
unfolding update_correction
update_correction_lem u allow_revert id if_match now before t t' h =
    found (get_correction id before) refl h
  where
    found :
        (r : Outcome (Correction × Bool))
        → get_correction id before ≡ r
        → with_existing u allow_revert id if_match now t r ≡ done t'
        → (version : ℕ) × (existing : Correction) × (etag_version if_match id ≡ some version)
          × (get_correction id before ≡ done (existing, false))
          × (version ≡ existing.version)
          × (count (is_row id version) t.corrections ≡ 1)
          × ((u' : CorrectionUpdate) (allow_revert' : Bool) (now' : ℕ) (before' : Table)
              → is_failed (update_correction u' allow_revert' id if_match now' before' t') ≡ true)
    found (failed e) read h' = absurd (ground arith)
    found (done existing) read h' =
        let w =
          version-IsWritten u allow_revert id now t t' existing (etag_version if_match id) h' in
        (
          w.0,
          existing.0,
          w.1,
          read ∙ ap (λ stale. done (existing.0, stale)) w.3,
          w.2,
          w.4.there,
          λ u' allow_revert' now' before'.
              late_update u' allow_revert' id if_match now' before' t' w.0 w.1 w.4.gone,
        )
