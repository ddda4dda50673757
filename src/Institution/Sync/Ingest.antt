-- ===== src/Institution/Sync/Ingest.antt =====
-- The ingestion of an event (apps/institution-server/institution_server/sync.py,
-- `ingest_sync_envelope`, with `ResourceService._query` and `create`). Each creation and each change of
-- a document is committed on its own, so a step answers the server that it leaves also where a later
-- one is refused. The storage accepts what is put, and JSON payloads of resources are left out.
use predixa_learn.Prelude.{
  leb, length, not, ◌&&◌, ◌+◌, Bool, false, not, ◌&&◌, ◌||◌, Option, none, some, List, [], ◌∷◌,
  ◌++◌, map, if◌then◌else◌, any, first, take, Text, text, same,
}
use predixa_learn.Institution.Workers.State.{Answer, refused, answered}
use predixa_learn.Institution.Sync.State.{
  Kind, archive_document, evidence_version, analysis_overlay, artifact, same_kind, SyncWorker,
  Preview, Overlay, Event, Resource, evidence, analysis, previews, StorageKey, same_key, Server,
}

abbrev pub Step : Type 0 → Type 0
Step A = Answer A × Server

abbrev pub and_next : {A B : Type 0} → Step A → (A → Server → Step B) → Step B
and_next (refused n code, s) next = (refused n code, s)
and_next (answered a, s) next = next a s

abbrev pub has_id : SyncWorker → Kind → Text → Resource → Bool
has_id w k id r = same r.tenant_id w.tenant_id && same_kind r.kind k && same r.resource_id id

-- `service._query(kind).where(Resource.resource_id == id)`
abbrev pub is_found : SyncWorker → Kind → Text → Resource → Bool
is_found w k id r = has_id w k id r && (not r.is_private || same r.created_by w.subject)

unfoldable pub find : SyncWorker → Kind → Text → Server → Option Resource
find w k id s = first (is_found w k id) s.resources

-- `storage.put`
unfoldable pub put_file : StorageKey → Text → Server → Server
put_file key content s = record s {
  files = λ k. if same_key k key then some content else s.files k;
}

unfoldable pub new_resource : SyncWorker → Kind → Text → Text → Option Text → Text → Text → Resource
new_resource w k id title parent hash search = record {
  tenant_id = w.tenant_id;
  kind = k;
  resource_id = id;
  version = 1;
  title = title;
  parent_id = parent;
  content_sha256 = hash;
  search_text = search;
  is_private = false;
  created_by = w.subject;
}

-- The length of a title that `ResourceCreate` accepts
unfoldable pub is_title : Text → Bool
is_title t = leb 1 (length t) && leb (length t) 500

-- `str(payload.get("title") or "Synced OCR document")[:500]`
unfoldable pub document_title : Text → Text
document_title [] = text "Synced OCR document"
document_title (c ∷ cs) = take 500 (c ∷ cs)

-- `str(payload.get("search_text", ""))[:2_000_000]`
unfoldable pub document_search : Text → Text
document_search t = take 2000000 t

-- `service.create` of a `ResourceCreate`, which raises a ValidationError for its title; it fails where
-- the tenant has a resource of the type and the id
unfoldable pub create : SyncWorker → Kind → Text → Resource → Server → Step Resource
create w k id r s =
    if not (is_title r.title)
    then (refused 500 "ValidationError", s)
    else if any (has_id w k id) s.resources
    then (refused 500 "integrity_error", s)
    else (answered r, record s { resources = s.resources ++ r ∷ [] })

abbrev pub set_evidence : Text → Text → Resource → Resource
set_evidence hash search r = record r {
  content_sha256 = hash;
  search_text = search;
  version = r.version + 1;
}

unfoldable pub update_document : SyncWorker → Event → Resource → Server → Step Resource
update_document w e d s =
    let hash = e.payload.ocr_result_sha256 in
    if same d.content_sha256 hash then (answered d, s) else (
      answered (set_evidence hash (document_search e.payload.search_text) d),
      record s {
        resources =
            map
              (λ r.
                if has_id w archive_document e.resource_id r
                then set_evidence hash (document_search e.payload.search_text) r
                else r)
              s.resources;
      },
    )

abbrev pub document_of : SyncWorker → Event → Option Resource → Server → Step Resource
document_of w e none s =
    create w archive_document e.resource_id
      (new_resource w archive_document e.resource_id (document_title e.payload.title) none
        e.payload.ocr_result_sha256 (document_search e.payload.search_text))
      s
document_of w e (some d) s = update_document w e d s

-- The document of the event, created or brought up to date
unfoldable pub upsert_document : SyncWorker → Event → Server → Step Resource
upsert_document w e s = document_of w e (find w archive_document e.resource_id s) s

abbrev pub existing_or : SyncWorker → Kind → Text → Resource → Option Resource → Server → Step Text
existing_or w k id r (some old) s = (answered old.resource_id, s)
existing_or w k id r none s = and_next (create w k id r s) λ r s. (answered r.resource_id, s)

abbrev pub evidence_key : SyncWorker → Event → StorageKey
evidence_key w e = record {
  tenant_id = w.tenant_id;
  folder = evidence;
  digest = e.payload.ocr_result_sha256;
}

abbrev pub evidence_id : Event → Text
evidence_id e = e.resource_id ++ text "-" ++ take 16 e.payload.ocr_result_sha256

unfoldable pub add_evidence : SyncWorker → Event → Resource → Server → Step Text
add_evidence w e d s =
    existing_or w evidence_version (evidence_id e)
      (new_resource w evidence_version (evidence_id e) (text "Evidence for " ++ d.title)
        (some d.resource_id) e.payload.ocr_result_sha256 [])
      (find w evidence_version (evidence_id e) s) s

-- The object is stored only where the resource is missing.
abbrev pub stored_or :
    SyncWorker → Kind → Text → Resource → StorageKey → Text → Option Resource → Server → Step Text
stored_or w k id r key content (some old) s = (answered id, s)
stored_or w k id r key content none s =
    and_next (create w k id r (put_file key content s)) λ r s. (answered id, s)

abbrev some_id : Text → Server → Step (Option Text)
some_id id s = (answered (some id), s)

module _ (sha256 : Text → Text) (w : SyncWorker) (e : Event) (d : Resource) where
  abbrev analysis_id : Overlay → Text
  analysis_id o = e.resource_id ++ text "-analysis-" ++ take 16 (sha256 o.json)

  abbrev pub add_analysis : Option Overlay → Server → Step (Option Text)
  add_analysis none s = (answered none, s)
  add_analysis (some o) s =
      and_next
        (stored_or w analysis_overlay (analysis_id o)
          (new_resource w analysis_overlay (analysis_id o) (text "Analysis overlay for " ++ d.title)
            (some d.resource_id) (sha256 o.json) [])
          (record { tenant_id = w.tenant_id; folder = analysis; digest = sha256 o.json }) o.json
          (find w analysis_overlay (analysis_id o) s) s)
        some_id

  abbrev preview_id : Preview → Text
  preview_id p = e.resource_id ++ text "-preview-" ++ take 16 p.sha256

  unfoldable pub add_preview : Preview → Server → Step Text
  add_preview p s =
      stored_or w artifact (preview_id p)
        (new_resource w artifact (preview_id p) p.filename (some d.resource_id) p.sha256 [])
        (record { tenant_id = w.tenant_id; folder = previews; digest = p.sha256 }) p.content
        (find w artifact (preview_id p) s) s

  unfoldable pub add_previews : List Preview → Server → Step (List Text)
  add_previews [] s = (answered [], s)
  add_previews (p ∷ ps) s =
      and_next (add_preview p s)
        λ id s. and_next (add_previews ps s) λ ids s. (answered (id ∷ ids), s)
