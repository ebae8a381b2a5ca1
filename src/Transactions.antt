-- ===== src/Transactions.antt =====
-- The transactions page, frontend/app/transactions/page.tsx: its rows, its list and its forms.
pub mod Rows
pub mod Selection
pub mod Linking
pub mod Listing
pub mod Adding
pub mod Editing
pub mod Acting
pub mod Tags
pub mod Tests
pub mod FormTests
pub mod TagTests
pub mod ActTests
