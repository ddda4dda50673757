-- ===== src/Institution/Sync/Events.antt =====
-- Events one after another, each at most once
-- (apps/institution-server/institution_server/sync.py, `ingest_sync_envelope`).
use predixa_learn.Prelude.{
  ℕ, ◌*◌, Bool, true, false, not, ◌&&◌, Option, none, some, List, [], ◌∷◌, ◌++◌, if◌then◌else◌, ltb,
  any, first, Text, same,
}
use predixa_learn.Institution.Workers.State.{Answer, refused, answered}
use predixa_learn.Institution.Sync.State.{
  SyncWorker, Preview, Event, Resource, Response, IdempotencyRecord, Server,
}
use predixa_learn.Institution.Sync.Checks.{check_event}
use predixa_learn.Institution.Sync.Ingest.{
  Step, and_next, evidence_key, put_file, upsert_document, add_evidence, add_analysis, add_previews,
}

module _ (sha256 : Text → Text) (w : SyncWorker) where
  abbrev pub has_key : Text → IdempotencyRecord → Bool
  has_key key r = same r.tenant_id w.tenant_id && same r.idempotency_key key

  abbrev pub new_record : Event → Response → IdempotencyRecord
  new_record e r = record {
    tenant_id = w.tenant_id;
    idempotency_key = e.idempotency_key;
    request_hash = sha256 e.json;
    response_body = r;
  }

  abbrev finish : Event → Response → Server → Step Response
  finish e r s = (answered r, record s { records = s.records ++ new_record e r ∷ [] })

  -- The rest of what is written for an event, after each of its resources
  module _ (e : Event) where
    module _ (d : Resource) where
      abbrev pub after_previews : Text → Option Text → List Text → Server → Step Response
      after_previews evidence analysis ids = finish e record {
        event_id = e.event_id;
        resource = d;
        evidence_id = evidence;
        analysis_id = analysis;
        approved_preview_ids = ids;
        replayed = false;
      }

      module _ (previews : List Preview) where
        abbrev pub after_analysis : Text → Option Text → Server → Step Response
        after_analysis evidence analysis s =
            and_next (add_previews sha256 w e d previews s) (after_previews evidence analysis)

        abbrev pub after_evidence : Text → Server → Step Response
        after_evidence evidence s =
            and_next (add_analysis sha256 w e d e.payload.analysis_overlay s)
              (after_analysis evidence)

    abbrev pub after_document : List Preview → Resource → Server → Step Response
    after_document previews d s = and_next (add_evidence w e d s) (after_evidence d previews)

    -- What is written for an event that passes its checks
    unfoldable pub store_event : List Preview → Server → Step Response
    store_event previews s =
        and_next (upsert_document w e (put_file (evidence_key w e) e.payload.result_json s))
          (after_document previews)

  abbrev pub checked : Event → Server → Answer (List Preview) → Step Response
  checked e s (refused n code) = (refused n code, s)
  checked e s (answered previews) = store_event e previews s

  -- `{**existing_idempotency.response_body, "replayed": True}`
  abbrev pub replay : Response → Response
  replay r = record r { replayed = true }

  abbrev pub unless_seen : Event → Server → Option IdempotencyRecord → Step Response
  unless_seen e s none = checked e s (check_event sha256 e)
  unless_seen e s (some r) =
      if not (same r.request_hash (sha256 e.json))
      then (refused 409 "idempotency_conflict", s)
      else (answered (replay r.response_body), s)

  -- The body of the loop over the events
  unfoldable pub ingest_event : Event → Server → Step Response
  ingest_event e s = unless_seen e s (first (has_key e.idempotency_key) s.records)

  -- The loop, which stops at the first event that is refused
  unfoldable pub ingest_all : List Event → Server → Step (List Response)
  ingest_all [] s = (answered [], s)
  ingest_all (e ∷ es) s =
      and_next (ingest_event e s) λ r s. and_next (ingest_all es s) λ rs s. (answered (r ∷ rs), s)

  -- `ingest_sync_envelope` for an envelope with these ids and events, `size` bytes long as JSON, whose
  -- signature is accepted or not
  unfoldable pub ingest_sync_envelope :
      Text → Text → ℕ → Bool → Option Text → List Event → Server → Step (List Response)
  ingest_sync_envelope tenant device size signed header es s =
      if not (same tenant w.tenant_id && same device w.worker_id)
      then (refused 403 "sync_scope_mismatch", s)
      else if ltb (10 * 1024 * 1024) size
      then (refused 413 "sync_payload_too_large", s)
      else if not signed
      then (refused 401 "invalid_device_signature", s)
      else if is_foreign header
      then (refused 409 "idempotency_mismatch", s)
      else ingest_all es s
    where
      is_foreign : Option Text → Bool
      is_foreign none = false
      is_foreign (some []) = false
      is_foreign (some (c ∷ cs)) = not (any (λ (e : Event). same e.idempotency_key (c ∷ cs)) es)
