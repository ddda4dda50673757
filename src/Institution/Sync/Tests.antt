-- ===== src/Institution/Sync/Tests.antt =====
-- Events that are stored, replayed and refused.
use predixa_learn.Prelude.{
  ◌≡◌, refl, true, false, none, some, [], ◌∷◌, any, first, Text, text, same,
}
use predixa_learn.Institution.Workers.State.{refused, answered}
use predixa_learn.Institution.Sync.State.{archive_document, SyncWorker, Event, Response, Server}
use predixa_learn.Institution.Sync.Checks.{is_evidence_hash, check_previews, check_event}
use predixa_learn.Institution.Sync.Ingest.{
  is_title, document_title, document_search, Step, find, put_file, new_resource, create,
  upsert_document, update_document, add_evidence, add_previews,
}
use predixa_learn.Institution.Sync.Events.{replay, store_event, ingest_event, ingest_all}
use predixa_learn.Institution.Sync.Replays.{ingest_event_replays}
use predixa_learn.Institution.Sync.Stored.{IsBacked}
use predixa_learn.Institution.Sync.Backed.{ingest_all-IsBacked}

abbrev hash : Text
hash = text "0123456789abcdef0123456789abcdef0123456789abcdef0123456789abcdef"

-- A digest that every text has
abbrev sha256 : Text → Text
sha256 t = hash

abbrev device : SyncWorker
device = record { worker_id = text "d"; tenant_id = text "t"; subject = text "worker:d" }

abbrev event : Event
event = record {
  event_id = text "e";
  idempotency_key = text "k";
  event_type = text "archive.upsert";
  resource_id = text "doc";
  payload = record {
    result_json = text "{}";
    ocr_result_sha256 = hash;
    analysis_overlay = none;
    approved_previews = some [];
    title = text "Title";
    search_text = [];
  };
  json = text "event";
}

abbrev empty : Server
empty = record { resources = []; records = []; files = λ k. none }

unfoldable outcome : Step Response
unfolding ingest_event store_event check_event is_evidence_hash check_previews find put_file
    new_resource create is_title document_title document_search upsert_document update_document
    add_evidence add_previews any first same
outcome = ingest_event sha256 device event empty

abbrev response : Response
response = record {
  event_id = text "e";
  resource = record {
    tenant_id = text "t";
    kind = archive_document;
    resource_id = text "doc";
    version = 1;
    title = text "Title";
    parent_id = none;
    content_sha256 = hash;
    search_text = [];
    is_private = false;
    created_by = text "worker:d";
  };
  evidence_id = text "doc-0123456789abcdef";
  analysis_id = none;
  approved_preview_ids = [];
  replayed = false;
}

stored :
    ◌≡◌ {A = Step Response} (ingest_event sha256 device event empty) (answered response, outcome.1)
unfolding outcome ingest_event store_event check_event is_evidence_hash check_previews find put_file
    new_resource create is_title document_title document_search upsert_document update_document
    add_evidence add_previews any first same
stored = refl

ingest_event_replays_example :
    (◌≡◌ {A = Step Response}
      (ingest_event sha256 device event outcome.1)
      (answered (replay sha256 device response), outcome.1))
    × ((e' : Event)
        → same e'.idempotency_key (text "k") ≡ true
        → same hash (sha256 e'.json) ≡ false
        → ◌≡◌ {A = Step Response}
            (ingest_event sha256 device e' outcome.1)
            (refused 409 "idempotency_conflict", outcome.1))
ingest_event_replays_example =
    ingest_event_replays sha256 device event empty outcome.1 response stored

ingest_all-IsBacked_example :
    IsBacked sha256 (ingest_all sha256 device (event ∷ event ∷ []) empty).1
ingest_all-IsBacked_example = ingest_all-IsBacked sha256 device (event ∷ event ∷ []) empty tt
