-- ===== src/Institution/Sync/Stored.antt =====
-- The writes of an event keep the evidence of each version in the storage
-- (apps/institution-server/institution_server/sync.py).
use predixa_learn.Prelude.{
  not, not_both, ◌≡◌, refl, ◌∙◌, Bool, true, false, Option, none, some, List, [], ◌∷◌, map,
  if◌then◌else◌, any, All, All-join, Text, same, arith, if_either,
}
use predixa_learn.Institution.Workers.State.{refused, answered}
use predixa_learn.Institution.Sync.State.{
  Kind, archive_document, evidence_version, analysis_overlay, artifact, same_kind, SyncWorker,
  Preview, Overlay, Event, Resource, evidence, StorageKey, same_key, Server,
}
use predixa_learn.Institution.Sync.Ingest.{
  is_title, document_search, Step, and_next, has_id, evidence_key, evidence_id, find, put_file,
  new_resource, create, set_evidence, update_document, document_of, upsert_document, existing_or,
  add_evidence, stored_or, add_analysis, add_preview, add_previews,
}

abbrev pub Files : Type 0
Files = StorageKey → Option Text

module _ (sha256 : Text → Text) where
  -- The object under the digest of the resource has this digest.
  abbrev pub HasEvidence : Files → Resource → Type 0
  HasEvidence files r =
      (content : Text) × (files
          (record { tenant_id = r.tenant_id; folder = evidence; digest = r.content_sha256 })
        ≡ some content)
      × (sha256 content ≡ r.content_sha256)

  -- An evidence version has its evidence in the storage.
  abbrev pub IsBackedBy : Files → Resource → Type 0
  IsBackedBy files r = same_kind r.kind evidence_version ≡ true → HasEvidence files r

  abbrev pub IsBacked : Server → Type 0
  IsBacked s = All (IsBackedBy s.files) s.resources

  pub and_next-holds :
      {A B : Type 0} (I : Server → Type 0) (r : Step A) (next : A → Server → Step B)
      → I r.1
      → ((a : A) (s : Server) → I s → I (next a s).1)
      → I (and_next r next).1
  and_next-holds I (refused n code, s) next h k = h
  and_next-holds I (answered a, s) next h k = k a s h

  module _ (w : SyncWorker) (e : Event) where
    -- Inside an event its evidence is stored as well.
    abbrev pub Holds : Server → Type 0
    Holds s = IsBacked s × (s.files (evidence_key w e) ≡ some e.payload.result_json)

    other_file :
        (key : StorageKey) (content : Text) (s : Server) (k : StorageKey)
        → same_key k key ≡ false
        → (put_file key content s).files k ≡ s.files k
    unfolding put_file
    other_file key content s k h = simp h refl

    rows_elsewhere :
        (key : StorageKey) (content : Text) (s : Server) (rs : List Resource)
        → ((tenant digest : Text)
            → same_key (record { tenant_id = tenant; folder = evidence; digest = digest }) key
              ≡ false)
        → All (IsBackedBy s.files) rs
        → All (IsBackedBy (put_file key content s).files) rs
    rows_elsewhere key content s [] other h = tt
    rows_elsewhere key content s (r ∷ rs) other h = (
      λ k.
          let (c, there, hash) = h.0 k in
          (
            c,
            other_file key content s
                  (record { tenant_id = r.tenant_id; folder = evidence; digest = r.content_sha256 })
                  (other r.tenant_id r.content_sha256)
                ∙ there,
            hash,
          ),
      rows_elsewhere key content s rs other h.1,
    )

    put-Holds :
        (key : StorageKey) (content : Text) (s : Server)
        → ((tenant digest : Text)
            → same_key (record { tenant_id = tenant; folder = evidence; digest = digest }) key
              ≡ false)
        → Holds s
        → Holds (put_file key content s)
    unfolding put_file
    put-Holds key content s other h = (
      rows_elsewhere key content s s.resources other h.0,
      other_file key content s (evidence_key w e) (other w.tenant_id e.payload.ocr_result_sha256)
          ∙ h.1,
    )

    create-Holds :
        (k : Kind) (id : Text) (r : Resource) (s : Server)
        → IsBackedBy s.files r
        → Holds s
        → Holds (create w k id r s).1
    unfolding create
    create-Holds k id r s new h =
        if_either (λ (x : Step Resource). Holds x.1) (not (is_title r.title)) h
          (if_either (λ (x : Step Resource). Holds x.1) (any (has_id w k id) s.resources) h
            (All-join (IsBackedBy s.files) s.resources (r ∷ []) h.0 (new, tt), h.1))

    document_kind :
        (r : Resource)
        → has_id w archive_document e.resource_id r ≡ true
        → same_kind r.kind evidence_version ≡ false
    document_kind r h = ground (arith, h)

    rows_updated :
        (files : Files) (hash found : Text) (rs : List Resource)
        → All (IsBackedBy files) rs
        → All (IsBackedBy files) (
            map
              (λ r.
                if has_id w archive_document e.resource_id r then set_evidence hash found r else r)
              rs)
    rows_updated files hash found [] h = tt
    rows_updated files hash found (r ∷ rs) h =
        (one (has_id w archive_document e.resource_id r) refl, rows_updated files hash found rs h.1)
      where
        one :
            (b : Bool)
            → has_id w archive_document e.resource_id r ≡ b
            → IsBackedBy files (if b then set_evidence hash found r else r)
        one true k l = absurd (not_both l (document_kind r k))
        one false k l = h.0 l

    update-Holds : (d : Resource) (s : Server) → Holds s → Holds (update_document w e d s).1
    unfolding update_document
    update-Holds d s h =
        if_either (λ (x : Step Resource). Holds x.1)
          (same d.content_sha256 e.payload.ocr_result_sha256) h
          (
            rows_updated s.files e.payload.ocr_result_sha256 (document_search e.payload.search_text)
                s.resources h.0,
            h.1,
          )

    document-Holds : (o : Option Resource) (s : Server) → Holds s → Holds (document_of w e o s).1
    unfolding new_resource
    document-Holds none s h =
        create-Holds archive_document e.resource_id _ s (λ k. absurd (ground arith)) h
    document-Holds (some d) s h = update-Holds d s h

    pub upsert-Holds : (s : Server) → Holds s → Holds (upsert_document w e s).1
    unfolding upsert_document
    upsert-Holds s h = document-Holds (find w archive_document e.resource_id s) s h

    existing-Holds :
        (id : Text) (r : Resource) (o : Option Resource) (s : Server)
        → IsBackedBy s.files r
        → Holds s
        → Holds (existing_or w evidence_version id r o s).1
    existing-Holds id r (some old) s new h = h
    existing-Holds id r none s new h =
        and_next-holds Holds (create w evidence_version id r s) _
          (create-Holds evidence_version id r s new h) λ a s' h'. h'

    stored-Holds :
        (k : Kind) (id : Text) (r : Resource) (key : StorageKey) (content : Text)
        (o : Option Resource) (s : Server)
        → same_kind r.kind evidence_version ≡ false
        → ((tenant digest : Text)
            → same_key (record { tenant_id = tenant; folder = evidence; digest = digest }) key
              ≡ false)
        → Holds s
        → Holds (stored_or w k id r key content o s).1
    stored-Holds k id r key content (some old) s kind other h = h
    stored-Holds k id r key content none s kind other h =
        and_next-holds Holds (create w k id r (put_file key content s)) _
          (create-Holds k id r (put_file key content s) (λ l. absurd (not_both l kind))
            (put-Holds key content s other h))
          λ a s' h'. h'

    module _ (d : Resource)
        (hash : sha256 e.payload.result_json ≡ e.payload.ocr_result_sha256) where
      pub evidence-Holds : (s : Server) → Holds s → Holds (add_evidence w e d s).1
      unfolding add_evidence new_resource
      evidence-Holds s h =
          existing-Holds (evidence_id e) _ (find w evidence_version (evidence_id e) s) s
            (λ k. (e.payload.result_json, h.1, hash)) h

      pub analysis-Holds :
          (o : Option Overlay) (s : Server) → Holds s → Holds (add_analysis sha256 w e d o s).1
      unfolding new_resource
      analysis-Holds none s h = h
      analysis-Holds (some o) s h =
          and_next-holds Holds _ _
            (stored-Holds analysis_overlay _ _ _ o.json (find w analysis_overlay _ s) s refl
              (λ t g. refl) h)
            λ a s' h'. h'

      preview-Holds : (p : Preview) (s : Server) → Holds s → Holds (add_preview sha256 w e d p s).1
      unfolding add_preview new_resource
      preview-Holds p s h =
          stored-Holds artifact _ _ _ p.content (find w artifact _ s) s refl (λ t g. refl) h

      pub previews-Holds :
          (ps : List Preview) (s : Server) → Holds s → Holds (add_previews sha256 w e d ps s).1
      unfolding add_previews
      previews-Holds [] s h = h
      previews-Holds (p ∷ ps) s h =
          and_next-holds Holds (add_preview sha256 w e d p s)
            (λ id s'.
              and_next (add_previews sha256 w e d ps s') λ ids s''. (answered (id ∷ ids), s''))
            (preview-Holds p s h)
            λ id s' h'.
              and_next-holds Holds (add_previews sha256 w e d ps s')
                (λ ids s''. (answered (id ∷ ids), s'')) (previews-Holds ps s' h') λ ids s'' h''. h''
