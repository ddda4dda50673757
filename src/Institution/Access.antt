-- ===== src/Institution/Access.antt =====
-- Who may do what (apps/institution-server/institution_server/security.py and service.py).
pub mod Roles
pub mod Principals
pub mod Scopes
pub mod Requests
mod Tests
