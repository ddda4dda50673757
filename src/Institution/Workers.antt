-- ===== src/Institution/Workers.antt =====
-- Worker enrollment, worker sources and worker jobs
-- (apps/institution-server/institution_server/workers.py).
pub mod State
pub mod Devices
pub mod Sources
pub mod Jobs
pub mod Results
pub mod Steps
pub mod Rows
pub mod Laws
pub mod Handlers
pub mod Versions
pub mod Claims
pub mod Oldest
pub mod Publication
pub mod Repetition
pub mod Revocation
pub mod Tokens
pub mod Spent
pub mod Enrollment
pub mod SharedKeys
mod Tests
