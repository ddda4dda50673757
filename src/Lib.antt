-- ===== src/Lib.antt =====
-- PredixaLearn: models of its OCR job queue, its batches, its taxonomies, and its institution's
-- worker jobs, access rules, resources, synchronisation, webhooks and storage.
--
-- The program has two parts that matter here. OCR Studio (apps/ocr-studio) is a desktop program:
-- its HTTP handlers submit documents to one job queue, whose single worker thread runs a workflow
-- and publishes the result. Its teaching store keeps versions of topic taxonomies, corrections of
-- results, and batches of files; a coordinator gives the files of a batch to the queue, one after
-- another. The institution server (apps/institution-server) enrolls OCR workers, stages the
-- documents they read and hands out jobs under a lease; it decides who may send a request and read
-- a resource; its resources have versions and a life cycle; it ingests evidence that the desktop
-- program synchronises; it delivers events to webhooks; and it keeps documents and artifacts in an
-- object storage under keys that it validates.
--
-- Files and the code they model:
--   Prelude and its children: shared names, Boolean tests, filters, counts and texts. Sorting is
--     `ORDER BY`, and Arrangements what does not depend on the order of the rows.
--   Studio/Queue and its children: apps/ocr-studio/app/core/queue.py. State has the objects, Ops
--     the helpers (`_prune`, `_set_progress`, `_persist_history`), Calls the methods that callers
--     run (`submit`, `cancel`, `get_result`, `queue_position`, `shutdown`), Worker the sections of
--     `_execute` and the events of all threads. The other children are proofs.
--   Studio/Teaching and its children: apps/ocr-studio/app/teaching/store.py. Trees has
--     `_validate_tree`, Editions `create_taxonomy`, Corrections `update_correction`; the others are
--     proofs.
--   Studio/Batches and its children: apps/ocr-studio/app/teaching/store.py and
--     teaching/batches.py. State has the rows and the statements on them, Orders
--     `reorder_batch_item` and `prioritize_batch_item`, Statuses `create_batch`, `patch_batch`,
--     `patch_batch_item`, `recover_batches` and `delete_batch`, Coordinator `_next_item` and
--     `_process`. Contracts says what the two changes of the order do to a batch as it is read,
--     without the rows; the others are proofs.
--   Institution/Storage and its children: apps/institution-server/institution_server/storage.py,
--     `validate_key` and `LocalObjectStorage`.
--   Institution/Workers and its children: apps/institution-server/institution_server/workers.py.
--     State has the rows, Devices the handlers `update_worker_state`, `create_enrollment_token` and
--     `enroll_worker` and the authentication, Sources `stage_worker_source`,
--     `_expire_staged_sources` and `_verified_job_source`, Jobs `create_worker_job`,
--     `claim_worker_job` and `download_worker_source`, Results `upload_worker_artifact` and
--     `publish_worker_result`, Steps the requests one after another. Laws and Handlers carry a
--     relation on job rows through every handler; Versions and Claims are its instances;
--     Tokens and Spent do the same for the enrollment tokens.
--   Institution/Resources and its children:
--     apps/institution-server/institution_server/service.py. Rules has its tables of types and
--     statuses, Changes `create`, `patch` and `transition`; the others are proofs.
--   Institution/Access and its children:
--     apps/institution-server/institution_server/security.py and service.py. Roles has
--     `ROLE_PERMISSIONS`, Principals `current_principal` and `require`, Scopes `_scope_guard`,
--     `_query` and `get` of the resource service; Requests is proofs.
--   Institution/Sync and its children: apps/institution-server/institution_server/sync.py. State has
--     the tables, Checks the validation of an event, Ingest `ingest_sync_envelope`; the others are
--     proofs.
--   Institution/Webhooks and its children:
--     apps/institution-server/institution_server/webhooks.py. Delivery has `deliver_once`; the others
--     are proofs.
--
-- How state and concurrency are modelled. The queue's threads interleave between its locked
-- sections: each section is one function on the queue's state, the place of the worker thread in
-- `_execute` is a value of the type Phase, and a run is any sequence of events. A handler of the
-- institution server is one transaction on the tables, also `upload_worker_artifact`, which awaits
-- the uploaded bytes between its read and its write, and a run is a sequence of requests; the
-- ingestion of evidence, which commits several times, answers the tables that it leaves also where
-- it is refused. A method of the batches reads on one connection and writes on another, so it
-- takes the table at the read and the table at the write; while the coordinator waits, other calls
-- change its table by any function that the caller gives (`during_wait`). A function that mutates
-- an object returns the new state; an exception is a value (`none`, a constructor, or `refused`
-- with the HTTP status and the code of the answer).
--
-- Representation. A job id of the queue is the number that its uuid spells; identifiers, keys,
-- digests and file contents of the server are lists of code points or bytes. A time is a number of
-- microseconds, and a section or handler reads the clock once. JSON payloads are records of the
-- fields that the code reads and writes. What other code answers is an argument: the workflow and
-- whether a write to the history store goes through (for the queue; the store itself is rows by
-- job id, which `HistoryStore.upsert` updates), whether a credential and a signature are accepted,
-- what the storage raises, and Python's functions for digests, UTF-8, JSON and zip files (for the
-- server). New identifiers are arguments. A storage key of the ingestion is the parts that its
-- text is spelled from.
--
-- Loops are recursion on a list, but for the `while` loop of `_prune`, which runs on fuel: a round
-- removes a key, so the number of keys is enough, and for the `while` loop of `_validate_tree`,
-- which visits one node more in each round. A query with a limit of a hundred rows takes the first
-- hundred in the order of the table, and one for a single oldest row takes the first of equally
-- old ones. `ORDER BY` is a stable insertion sort. An update of several rows changes them in the
-- order of the table, and fails where a row meets the unique position of one not yet changed.
--
-- Not modelled: the routes of the institution server that change or delete resources of any type
-- (catalog.py, `ResourceService.patch` and retention), where they reach the rows of worker jobs:
-- what is shown of worker jobs is shown of the handlers of workers.py; an input file of the queue
-- that cannot be unlinked; the columns of batches that no operation reads (name, settings,
-- creator, media type); the rest of the teaching store (syllabi, mappings, the question bank, the
-- manifest of a batch); the loop and the dashboard of the coordinator; the search of resources;
-- the decoding of tokens; the signatures of webhooks; the JSON payloads of synchronised resources
-- and a storage that fails during their ingestion; the queue's module-level singletons and the
-- removal of its staging directory; paths with symbolic links, and the S3 adapter of the storage;
-- the audit trail, the signing of the job envelope, `list_workers` and the validation of protocol
-- models on the server; and the parts of the program that are glue around third-party libraries:
-- OCR engines and workflows, document builders, HTTP routing, the desktop host, the web front end
-- and the migrations.
pub mod Prelude
pub mod Studio
pub mod Institution
