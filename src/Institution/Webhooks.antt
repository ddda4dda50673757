-- ===== src/Institution/Webhooks.antt =====
-- Deliveries of webhooks (apps/institution-server/institution_server/webhooks.py).
pub mod Delivery
pub mod Attempts
pub mod Picks
pub mod Retries
pub mod Failures
mod Tests
