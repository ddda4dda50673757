-- ===== src/Institution/Resources.antt =====
-- The life cycle of resources (apps/institution-server/institution_server/service.py).
pub mod Rules
pub mod Changes
pub mod Frozen
pub mod Lifecycle
mod Tests
