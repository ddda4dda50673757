-- ===== src/Institution/Sync/Backed.antt =====
-- Evidence versions and the objects that hold their evidence
-- (apps/institution-server/institution_server/sync.py).
use predixa_learn.Prelude.{
  ℕ, ◌≡◌, refl, sym, ◌∙◌, String, Bool, true, false, not, ◌&&◌, Option, none, some, List, [], ◌∷◌,
  if◌then◌else◌, ◌==◌, first, All, Text, text, same, same_refl, eq_of_same, arith, if_either,
  Bool-cases, inl, inr,
}
use predixa_learn.Institution.Workers.State.{Answer, refused, answered}
use predixa_learn.Institution.Sync.State.{
  SyncWorker, Preview, Event, Resource, Response, IdempotencyRecord, evidence, StorageKey, same_key,
  Server,
}
use predixa_learn.Institution.Sync.Checks.{is_evidence_hash, check_event}
use predixa_learn.Institution.Sync.Ingest.{
  Step, and_next, evidence_key, put_file, upsert_document, add_evidence, add_analysis, add_previews,
}
use predixa_learn.Institution.Sync.Events.{
  after_previews, after_analysis, after_evidence, after_document, store_event, checked, unless_seen,
  has_key, ingest_event, ingest_all,
}
use predixa_learn.Institution.Sync.Stored.{
  IsBackedBy, IsBacked, Holds, and_next-holds, upsert-Holds, evidence-Holds, analysis-Holds,
  previews-Holds,
}

key_parts : (a b c : Bool) → (a && b && c) ≡ true → (b ≡ true) × (c ≡ true)
key_parts a b c h = (ground (arith, h), ground (arith, h))

guard :
    {A : Type 0} (b : Bool) (n : ℕ) (code : String) (r : Answer A) (a : A)
    → (if b then refused n code else r) ≡ answered a
    → (b ≡ false) × (r ≡ answered a)
guard true n code r a h = absurd (ground arith)
guard false n code r a h = (refl, h)

module _ (sha256 : Text → Text) where
  -- An event that passes its checks has evidence with the digest that it names.
  checked_hash :
      (e : Event) (ps : List Preview)
      → check_event sha256 e ≡ answered ps
      → sha256 e.payload.result_json ≡ e.payload.ocr_result_sha256
  unfolding check_event
  checked_hash e ps h =
      let a = guard (not (same e.event_type (text "archive.upsert"))) 422 _ _ ps h in
      let b = guard (not (is_evidence_hash e.payload.ocr_result_sha256)) 422 _ _ ps a.1 in
      let c =
        guard (not (same (sha256 e.payload.result_json) e.payload.ocr_result_sha256)) 422 _ _ ps
          b.1 in
      eq_of_same (sha256 e.payload.result_json) e.payload.ocr_result_sha256 (ground (arith, c.0))

  module _ (w : SyncWorker) (e : Event)
      (hash : sha256 e.payload.result_json ≡ e.payload.ocr_result_sha256) where
    row_stored :
        (s : Server) (r : Resource)
        → IsBackedBy sha256 s.files r
        → IsBackedBy sha256 (put_file (evidence_key w e) e.payload.result_json s).files r
    unfolding put_file
    row_stored s r h k = elim (Bool-cases (same_key key (evidence_key w e))) [
      | inl t ↦
          let digest : r.content_sha256 ≡ e.payload.ocr_result_sha256 =
            eq_of_same r.content_sha256 e.payload.ocr_result_sha256
              (key_parts (0 == 0) (same r.tenant_id w.tenant_id)
                (same r.content_sha256 e.payload.ocr_result_sha256) t).1 in
          (e.payload.result_json, simp t refl, hash ∙ sym digest)
      | inr f ↦ let (c, there, good) = h k in (c, simp f there, good)
    ]
      where
        key : StorageKey
        key = record { tenant_id = r.tenant_id; folder = evidence; digest = r.content_sha256 }

    rows_stored :
        (s : Server) (rs : List Resource)
        → All (IsBackedBy sha256 s.files) rs
        → All (IsBackedBy sha256 (put_file (evidence_key w e) e.payload.result_json s).files) rs
    rows_stored s [] h = tt
    rows_stored s (r ∷ rs) h = (row_stored s r h.0, rows_stored s rs h.1)

    evidence-stored :
        (s : Server)
        → IsBacked sha256 s
        → Holds sha256 w e (put_file (evidence_key w e) e.payload.result_json s)
    unfolding put_file
    evidence-stored s h = (
      rows_stored s s.resources h,
      simp (same_refl w.tenant_id, same_refl e.payload.ocr_result_sha256) refl,
    )

    store-Holds :
        (ps : List Preview) (s : Server)
        → IsBacked sha256 s
        → Holds sha256 w e (store_event sha256 w e ps s).1
    unfolding store_event
    store-Holds ps s h =
        and_next-holds sha256 (Holds sha256 w e)
          (upsert_document w e (put_file (evidence_key w e) e.payload.result_json s))
          (after_document sha256 w e ps)
          (upsert-Holds sha256 w e (put_file (evidence_key w e) e.payload.result_json s)
            (evidence-stored s h))
          λ d s₁ h₁.
            and_next-holds sha256 (Holds sha256 w e) (add_evidence w e d s₁)
              (after_evidence sha256 w e d ps) (evidence-Holds sha256 w e d hash s₁ h₁)
              λ evidence s₂ h₂.
                and_next-holds sha256 (Holds sha256 w e)
                  (add_analysis sha256 w e d e.payload.analysis_overlay s₂)
                  (after_analysis sha256 w e d ps evidence)
                  (analysis-Holds sha256 w e d hash e.payload.analysis_overlay s₂ h₂)
                  λ analysis s₃ h₃.
                    and_next-holds sha256 (Holds sha256 w e) (add_previews sha256 w e d ps s₃)
                      (after_previews sha256 w e d evidence analysis)
                      (previews-Holds sha256 w e d hash ps s₃ h₃) λ ids s₄ h₄. h₄

  ingest_event-IsBacked :
      (w : SyncWorker) (e : Event) (s : Server)
      → IsBacked sha256 s
      → IsBacked sha256 (ingest_event sha256 w e s).1
  unfolding ingest_event
  ingest_event-IsBacked w e s h = seen (first (has_key sha256 w e.idempotency_key) s.records)
    where
      passed :
          (a : Answer (List Preview))
          → check_event sha256 e ≡ a
          → IsBacked sha256 (checked sha256 w e s a).1
      passed (refused n code) k = h
      passed (answered ps) k = (store-Holds w e (checked_hash e ps k) ps s h).0

      seen : (o : Option IdempotencyRecord) → IsBacked sha256 (unless_seen sha256 w e s o).1
      seen none = passed (check_event sha256 e) refl
      seen (some r) =
          if_either (λ (x : Step Response). IsBacked sha256 x.1)
            (not (same r.request_hash (sha256 e.json))) h h

  -- Whatever events any devices send, accepted or refused at whatever step, each evidence version has in
  -- the storage, under its digest, content with this digest.
  pub ingest_all-IsBacked :
      (w : SyncWorker) (es : List Event) (s : Server)
      → IsBacked sha256 s
      → IsBacked sha256 (ingest_all sha256 w es s).1
  unfolding ingest_all
  ingest_all-IsBacked w [] s h = h
  ingest_all-IsBacked w (e ∷ es) s h =
      and_next-holds sha256 (IsBacked sha256) (ingest_event sha256 w e s)
        (λ r s'. and_next (ingest_all sha256 w es s') λ rs s''. (answered (r ∷ rs), s''))
        (ingest_event-IsBacked w e s h)
        λ r s' h'.
          and_next-holds sha256 (IsBacked sha256) (ingest_all sha256 w es s')
            (λ rs s''. (answered (r ∷ rs), s'')) (ingest_all-IsBacked w es s' h') λ rs s'' h''. h''
