-- ===== src/Format.antt =====
-- Amounts and dates as frontend/lib/format.ts writes and compares them.
pub mod Amounts
pub mod Tests
