-- ===== src/Institution/Sync.antt =====
-- Ingestion of local evidence (apps/institution-server/institution_server/sync.py).
pub mod State
pub mod Checks
pub mod Ingest
pub mod Events
pub mod Replays
pub mod Stored
pub mod Backed
mod Tests
