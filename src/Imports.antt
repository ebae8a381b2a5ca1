-- ===== src/Imports.antt =====
-- The import of a bank file, frontend/app/import/page.tsx.
pub mod Rows
pub mod Page
pub mod Kept
pub mod Founded
pub mod Agreed
pub mod Tests
