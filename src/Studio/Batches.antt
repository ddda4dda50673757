-- ===== src/Studio/Batches.antt =====
-- Batches of files (apps/ocr-studio/app/teaching/store.py and teaching/batches.py).
pub mod State
pub mod Orders
pub mod Rows
pub mod Swap
pub mod Views
pub mod Contracts
pub mod Reorder
pub mod Renumber
pub mod Shift
pub mod Fronts
pub mod Prioritize
pub mod Statuses
pub mod Coordinator
pub mod Processing
pub mod Escapes
pub mod Recovery
pub mod Choices
pub mod Next
pub mod Created
mod Tests
