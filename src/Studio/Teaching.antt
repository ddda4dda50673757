-- ===== src/Studio/Teaching.antt =====
-- The teaching store (apps/ocr-studio/app/teaching/store.py).
pub mod Trees
pub mod Hierarchy
pub mod Termination
pub mod Editions
pub mod Published
pub mod Corrections
pub mod Locking
mod Tests
