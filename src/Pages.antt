-- ===== src/Pages.antt =====
-- Smaller parts of the frontend that pages share (frontend/lib and frontend/components): the tour,
-- the heartbeat, paging, the messages of the settings forms, moves of categories and preferences.
pub mod Tour
pub mod KeepWarm
pub mod Pagination
pub mod FormErrors
pub mod Moves
pub mod Persisted
pub mod SortHook
pub mod FilterHook
pub mod Tests
pub mod StorageTests
