-- ===== src/Api.antt =====
-- The browser's API client, frontend/lib/api.ts: paths and their time budgets, the access token
-- and its proactive refresh timer, one refresh attempt and its retries, the shared in-flight
-- refresh, and the errors that a response becomes.
pub mod Paths
pub mod Token
pub mod Refresh
pub mod Errors
pub mod Flight
mod Tests
