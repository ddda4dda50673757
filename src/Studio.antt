-- ===== src/Studio.antt =====
-- OCR Studio (apps/ocr-studio).
pub mod Queue
pub mod Teaching
pub mod Batches
