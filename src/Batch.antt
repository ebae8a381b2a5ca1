-- ===== src/Batch.antt =====
-- The page of batch entry, frontend/app/transactions/batch/page.tsx.
pub mod Entry
pub mod Tests
