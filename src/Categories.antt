-- ===== src/Categories.antt =====
-- The categories page, frontend/app/categories/page.tsx, and its batch dialogs in
-- frontend/components/categories.
pub mod Rows
pub mod Failures
pub mod Deleting
pub mod Moving
pub mod Listing
pub mod Dragging
pub mod Forms
pub mod Tests
pub mod DragTests
