-- ===== src/Studio/Queue.antt =====
-- The bounded in-process job queue of the studio (apps/ocr-studio/app/core/queue.py).
pub mod State
pub mod Ops
pub mod Calls
pub mod Worker
pub mod Effects
pub mod Quiet
pub mod Inflight
pub mod Admission
pub mod Settled
pub mod Cancel
pub mod Completion
pub mod Position
pub mod Terminal
pub mod Sections
pub mod Bound
pub mod Pruning
pub mod Ends
pub mod Entries
mod Tests
