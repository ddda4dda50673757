-- ===== src/Institution.antt =====
-- The institution server (apps/institution-server).
pub mod Storage
pub mod Webhooks
pub mod Sync
pub mod Workers
pub mod Resources
pub mod Access
