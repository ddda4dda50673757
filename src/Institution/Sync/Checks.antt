-- ===== src/Institution/Sync/Checks.antt =====
-- What an event is checked for before anything is written
-- (apps/institution-server/institution_server/sync.py, `ingest_sync_envelope`).
use predixa_learn.Prelude.{
  ℕ, ◌+◌, ◌*◌, Bool, false, not, ◌&&◌, ◌||◌, Option, none, some, List, [], ◌∷◌, if◌then◌else◌, ◌==◌,
  leb, ltb, any, length, Text, text, same, starts_with,
}
use predixa_learn.Institution.Workers.State.{Answer, refused, answered}
use predixa_learn.Institution.Sync.State.{Preview, Overlay, Event}

abbrev is_hex : ℕ → Bool
is_hex c = leb 48 c && leb c 57 || leb 97 c && leb c 102

-- 64 digits of `0123456789abcdef`
unfoldable pub is_evidence_hash : Text → Bool
is_evidence_hash h = length h == 64 && not (any (λ c. not (is_hex c)) h)

abbrev is_digit : ℕ → Bool
is_digit c = leb 48 c && leb c 57

-- `PREVIEW_NAME`
unfoldable pub is_preview_name : Text → Bool
is_preview_name (a ∷ b ∷ c ∷ d ∷ e ∷ x ∷ y ∷ z ∷ rest) =
    same (a ∷ b ∷ c ∷ d ∷ e ∷ []) (text "page-")
    && is_digit x
    && is_digit y
    && is_digit z
    && same rest (text ".png")
is_preview_name _ = false

-- The bytes that a PNG begins with
abbrev png_signature : Text
png_signature = 137 ∷ 80 ∷ 78 ∷ 71 ∷ 13 ∷ 10 ∷ 26 ∷ 10 ∷ []

module _ (sha256 : Text → Text) where
  -- The condition on a preview, where `total` counts its bytes and those of the previews before it
  unfoldable pub is_bad_preview : ℕ → Preview → Bool
  is_bad_preview total p =
      not (is_preview_name p.filename)
      || not (same p.media_type (text "image/png"))
      || not p.explicitly_approved
      || not (starts_with png_signature p.content)
      || not (same (sha256 p.content) p.sha256)
      || ltb (4 * 1024 * 1024) total

  abbrev pub with_preview : Preview → Answer (List Preview) → Answer (List Preview)
  with_preview p (refused n code) = refused n code
  with_preview p (answered ps) = answered (p ∷ ps)

  -- The loop over the previews
  unfoldable pub check_previews : ℕ → List (Option Preview) → Answer (List Preview)
  check_previews total [] = answered []
  check_previews total (none ∷ ps) = refused 422 "invalid_approved_previews"
  check_previews total (some p ∷ ps) =
      let rest = check_previews (total + length p.content) ps in
      if is_bad_preview (total + length p.content) p
      then refused 422 "invalid_approved_previews"
      else with_preview p rest

  abbrev pub listed_previews : Option (List (Option Preview)) → Answer (List Preview)
  listed_previews none = refused 422 "invalid_approved_previews"
  listed_previews (some ps) =
      if ltb 5 (length ps) then refused 422 "invalid_approved_previews" else check_previews 0 ps

  abbrev pub names_other : Text → Option Overlay → Bool
  names_other hash none = false
  names_other hash (some o) = not (same_optional o.ocr_result_sha256 hash)
    where
      same_optional : Option Text → Text → Bool
      same_optional none t = false
      same_optional (some s) t = same s t

  -- The checks of an event, which answer the previews that were accepted
  unfoldable pub check_event : Event → Answer (List Preview)
  check_event e =
      let hash = e.payload.ocr_result_sha256 in
      if not (same e.event_type (text "archive.upsert"))
      then refused 422 "unsupported_sync_event"
      else if not (is_evidence_hash hash)
      then refused 422 "invalid_evidence_hash"
      else if not (same (sha256 e.payload.result_json) hash)
      then refused 422 "evidence_hash_mismatch"
      else if names_other hash e.payload.analysis_overlay
      then refused 422 "analysis_evidence_mismatch"
      else listed_previews e.payload.approved_previews
